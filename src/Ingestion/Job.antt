-- ===== src/Ingestion/Job.antt =====
-- backend/lexmind/ingestion/ingestion_job.py. `progress` is a fraction of two numbers.
use lex_mind.Common.{
  ℕ, String, Bool, true, false, ◌||◌, Option, none, some, List, [], ◌∷◌, ◌++◌, if◌then◌else◌, any,
  is_some, not, ◌&&◌,
}
use lex_mind.Common.Texts.{concat}
use lex_mind.Common.Effect.{ok, err, Outcome}

pub data JobState : Type 0 where
  created discovering validating importing paused cancelled completed failed : JobState

-- the value of the enum, which is what the member prints as
abbrev pub state_value : JobState → String
state_value created = "created"
state_value discovering = "discovering"
state_value validating = "validating"
state_value importing = "importing"
state_value paused = "paused"
state_value cancelled = "cancelled"
state_value completed = "completed"
state_value failed = "failed"

abbrev pub state_eq : JobState → JobState → Bool
state_eq created created = true
state_eq discovering discovering = true
state_eq validating validating = true
state_eq importing importing = true
state_eq paused paused = true
state_eq cancelled cancelled = true
state_eq completed completed = true
state_eq failed failed = true
state_eq _ _ = false

-- _TRANSITIONS
abbrev pub transitions : JobState → List JobState
transitions created = discovering ∷ cancelled ∷ failed ∷ []
transitions discovering = validating ∷ paused ∷ cancelled ∷ failed ∷ []
transitions validating = importing ∷ paused ∷ cancelled ∷ failed ∷ []
transitions importing = completed ∷ paused ∷ cancelled ∷ failed ∷ []
transitions paused = discovering ∷ validating ∷ importing ∷ cancelled ∷ []
transitions cancelled = []
transitions completed = []
transitions failed = []

unfoldable pub can_transition : JobState → JobState → Bool
unfolding any
can_transition current target = any (λ s. state_eq s target) (transitions current)

pub record IngestionJob : Type 0 where
  pub workspace_id : String
  pub source : String
  pub job_id : String
  pub state : JobState
  pub start_time : Option ℕ
  pub end_time : Option ℕ
  pub progress : ℕ × ℕ
  pub files_processed : ℕ
  pub files_failed : ℕ
  pub warnings : List String

abbrev pub new_job : (workspace_id source job_id : String) → IngestionJob
new_job workspace_id source job_id = record {
  workspace_id = workspace_id;
  source = source;
  job_id = job_id;
  state = created;
  start_time = none;
  end_time = none;
  progress = (0, 1);
  files_processed = 0;
  files_failed = 0;
  warnings = [];
}

-- `state in (COMPLETED, CANCELLED, FAILED)`
abbrev pub is_end : JobState → Bool
is_end s = state_eq s completed || state_eq s cancelled || state_eq s failed

unfoldable pub is_terminal : IngestionJob → Bool
is_terminal j = is_end j.state

-- InvalidJobStateError, by its message
abbrev pub refusal : IngestionJob → JobState → String
refusal j target = concat "Cannot transition job '" (
    concat j.job_id (
      concat "' from "
        (concat (state_value j.state) (concat " to " (concat (state_value target) ".")))))

abbrev pub moved_to : JobState → ℕ → IngestionJob → IngestionJob
moved_to target now j = record j {
  state = target;
  start_time =
      if state_eq target discovering && not (is_some j.start_time) then some now else j.start_time;
  end_time = if is_end target then some now else j.end_time;
}

unfoldable pub transition_to : JobState → ℕ → IngestionJob → Outcome String IngestionJob
unfolding can_transition
transition_to target now j =
    if can_transition j.state target then ok (moved_to target now j) else err (refusal j target)

unfoldable pub add_warning : String → IngestionJob → IngestionJob
add_warning message j = record j { warnings = j.warnings ++ message ∷ [] }
