-- ===== src/Tasks/Task.antt =====
-- backend/lexmind/task_executor/task.py. A `datetime` is a number of ticks, and so is the time-out,
-- a float in the source that the executor only passes on to `delay`.
use lex_mind.Common.Dict.{Dict}
use lex_mind.Common.{
  ℕ, String, Bool, true, false, not, ◌&&◌, ◌||◌, Option, some, List, [], ◌∷◌, ltb, if◌then◌else◌,
  is_some, any,
}
use lex_mind.Common.Effect.{ok, err, Outcome}

pub data TaskStatus : Type 0 where
  pending running completed failed cancelled : TaskStatus

abbrev pub status_eq : TaskStatus → TaskStatus → Bool
status_eq pending pending = true
status_eq running running = true
status_eq completed completed = true
status_eq failed failed = true
status_eq cancelled cancelled = true
status_eq _ _ = false

-- `InvalidTaskStateError`, `TaskHandlerNotFoundError` and `ValueError`
pub data TaskError : Type 0 where
  invalid_task_state handler_not_found value_error : TaskError

-- _TRANSITIONS
abbrev pub transitions : TaskStatus → List TaskStatus
transitions pending = running ∷ cancelled ∷ []
transitions running = completed ∷ failed ∷ cancelled ∷ []
transitions completed = []
transitions failed = pending ∷ cancelled ∷ []
transitions cancelled = []

unfoldable pub can_transition : TaskStatus → TaskStatus → Bool
unfolding any
can_transition current target = any (λ s. status_eq s target) (transitions current)

pub record Task : Type 0 where
  pub task_type : String
  pub name : String
  pub task_id : String
  pub workspace_id : String
  pub payload : Dict String
  pub status : TaskStatus
  pub attempts : ℕ
  pub max_retries : ℕ
  pub timeout_seconds : ℕ
  pub result : String
  pub error_message : String
  pub created_at : ℕ
  pub started_at : Option ℕ
  pub completed_at : Option ℕ

abbrev start : TaskStatus → ℕ → Task → Task
start target now task =
    if status_eq target running && not (is_some task.started_at)
    then record task { started_at = some now }
    else task

abbrev finish : TaskStatus → ℕ → Task → Task
finish target now task =
    if status_eq target completed || status_eq target failed || status_eq target cancelled
    then record task { completed_at = some now }
    else task

-- the task after the assignments of `transition_to`
abbrev pub moved_to : TaskStatus → ℕ → Task → Task
moved_to target now task = record (finish target now (start target now task)) { status = target }

unfoldable pub transition_to : TaskStatus → ℕ → Task → Outcome TaskError Task
unfolding can_transition
transition_to target now task =
    if can_transition task.status target
    then ok (moved_to target now task)
    else err invalid_task_state

unfoldable pub is_terminal : Task → Bool
is_terminal task =
    status_eq task.status completed
    || status_eq task.status failed
    || status_eq task.status cancelled

unfoldable pub can_retry : Task → Bool
can_retry task =
    (status_eq task.status pending || status_eq task.status failed)
    && ltb task.attempts task.max_retries

unfoldable pub retry : Task → Outcome TaskError Task
unfolding can_retry
retry task =
    if can_retry task
    then ok (record task { status = pending; error_message = "" })
    else err value_error
