-- ===== src/Jobs/Job.antt =====
-- backend/lexmind/scheduler/job.py: the states of a job and the methods of the entity.
-- A `datetime` is a number of ticks; what `datetime.now` and `uuid4` return are arguments.
pub mod Lifecycle
use lex_mind.Common.{
  ℕ, suc, ◌+◌, String, Bool, true, false, not, ◌&&◌, ◌||◌, Option, none, some, List, [], ◌∷◌, ltb,
  if◌then◌else◌, is_some, ◌==◌, any,
}
use lex_mind.Common.Dict.{Dict}
use lex_mind.Common.Int.{ℤ}
use lex_mind.Common.Effect.{Outcome, ok, err}

pub data JobStatus : Type 0 where
  pending running completed failed cancelled : JobStatus

abbrev pub status_eq : JobStatus → JobStatus → Bool
status_eq pending pending = true
status_eq running running = true
status_eq completed completed = true
status_eq failed failed = true
status_eq cancelled cancelled = true
status_eq _ _ = false

-- what the scheduler's code raises: `ValueError`, and the repository's `EntityNotFoundError` and
-- `IntegrityError`
pub data Error : Type 0 where
  value_error entity_not_found integrity_error : Error

-- _VALID_TRANSITIONS
abbrev pub valid_transitions : JobStatus → List JobStatus
valid_transitions pending = running ∷ cancelled ∷ []
valid_transitions running = completed ∷ failed ∷ cancelled ∷ []
valid_transitions completed = []
valid_transitions failed = pending ∷ []
valid_transitions cancelled = []

unfoldable pub can_transition : JobStatus → JobStatus → Bool
unfolding any
can_transition current target = any (λ s. status_eq s target) (valid_transitions current)

pub record Job : Type 0 where
  pub workspace_id : String
  pub job_type : String
  pub id : String
  pub status : JobStatus
  pub payload : Dict String
  pub result : String
  pub error_message : String
  pub attempts : ℕ
  pub max_retries : ℕ
  pub priority : ℤ
  pub created_at : ℕ
  pub started_at : Option ℕ
  pub completed_at : Option ℕ
  pub updated_at : ℕ

-- the fields as `submit` gives them, the others by default
abbrev pub new_job : String → String → Dict String → ℤ → ℕ → String → ℕ → Job
new_job workspace_id job_type payload priority max_retries id now = record {
  workspace_id = workspace_id;
  job_type = job_type;
  id = id;
  status = pending;
  payload = payload;
  result = "";
  error_message = "";
  attempts = 0;
  max_retries = max_retries;
  priority = priority;
  created_at = now;
  started_at = none;
  completed_at = none;
  updated_at = now;
}

-- The constructor, with `__post_init__`.
unfoldable pub new : String → String → Dict String → ℤ → ℕ → String → ℕ → Outcome Error Job
new workspace_id job_type payload priority max_retries id now =
    if workspace_id == ""
    then err value_error
    else ok (new_job workspace_id job_type payload priority max_retries id now)

-- the first `if` of `transition_to`
abbrev start : JobStatus → ℕ → Job → Job
start target now job =
    if status_eq target running && not (is_some job.started_at)
    then record job { started_at = some now; attempts = job.attempts + 1 }
    else job

-- its second `if`
abbrev finish : JobStatus → ℕ → Job → Job
finish target now job =
    if status_eq target completed || status_eq target failed || status_eq target cancelled
    then record job { completed_at = some now }
    else job

-- the job after its assignments
abbrev pub moved_to : JobStatus → ℕ → Job → Job
moved_to target now job = record (finish target now (start target now job)) {
  status = target;
  updated_at = now;
}

unfoldable pub transition_to : JobStatus → ℕ → Job → Outcome Error Job
unfolding can_transition
transition_to target now job =
    if can_transition job.status target then ok (moved_to target now job) else err value_error

unfoldable pub is_terminal : Job → Bool
is_terminal job = status_eq job.status completed || status_eq job.status cancelled

unfoldable pub can_retry : Job → Bool
can_retry job = status_eq job.status failed && ltb job.attempts job.max_retries

unfoldable pub retry : ℕ → Job → Outcome Error Job
unfolding can_retry
retry now job =
    if can_retry job
    then ok (record job { status = pending; error_message = ""; updated_at = now })
    else err value_error
