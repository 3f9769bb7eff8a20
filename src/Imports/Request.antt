-- ===== src/Imports/Request.antt =====
-- backend/lexmind/import_queue/import_request.py. A `datetime` is a number of ticks.
pub mod Lifecycle
use lex_mind.Common.Dict.{Dict, put}
use lex_mind.Common.{
  ℕ, ◌+◌, String, Bool, true, false, not, ◌&&◌, ◌||◌, Option, some, List, [], ◌∷◌, ◌==◌, ltb, leb,
  if◌then◌else◌, is_some, any,
}
use lex_mind.Common.Effect.{ok, err, Outcome}
use lex_mind.Common.Int.{ℤ}

pub data RequestStatus : Type 0 where
  pending dequeued processing completed failed cancelled : RequestStatus

abbrev pub status_eq : RequestStatus → RequestStatus → Bool
status_eq pending pending = true
status_eq dequeued dequeued = true
status_eq processing processing = true
status_eq completed completed = true
status_eq failed failed = true
status_eq cancelled cancelled = true
status_eq _ _ = false

-- `ValueError`, and those of import_queue_exceptions.py; `not_found` is a repository's
pub data ImportError : Type 0 where
  value_error invalid_request_state duplicate_request not_found : ImportError

-- _TRANSITIONS
abbrev pub transitions : RequestStatus → List RequestStatus
transitions pending = dequeued ∷ cancelled ∷ failed ∷ []
transitions dequeued = processing ∷ cancelled ∷ failed ∷ []
transitions processing = completed ∷ cancelled ∷ failed ∷ []
transitions completed = []
transitions failed = pending ∷ cancelled ∷ []
transitions cancelled = []

unfoldable pub can_transition : RequestStatus → RequestStatus → Bool
unfolding any
can_transition current target = any (λ s. status_eq s target) (transitions current)

pub record ImportRequest : Type 0 where
  pub workspace_id : String
  pub location : String
  pub request_id : String
  pub priority : ℤ
  pub status : RequestStatus
  pub payload : Dict String
  pub created_at : ℕ
  pub started_at : Option ℕ
  pub completed_at : Option ℕ
  pub retries : ℕ
  pub max_retries : ℕ

-- `__post_init__`
unfoldable pub checked : ImportRequest → Outcome ImportError ImportRequest
checked r =
    if r.workspace_id == ""
    then err value_error
    else if leb r.max_retries r.retries
    then err value_error
    else ok r

abbrev start : RequestStatus → ℕ → ImportRequest → ImportRequest
start target now r =
    if status_eq target processing && not (is_some r.started_at)
    then record r { started_at = some now }
    else r

abbrev finish : RequestStatus → ℕ → ImportRequest → ImportRequest
finish target now r =
    if status_eq target completed || status_eq target cancelled || status_eq target failed
    then record r { completed_at = some now }
    else r

-- the request after the assignments of `transition_to`
abbrev pub moved_to : RequestStatus → ℕ → ImportRequest → ImportRequest
moved_to target now r = record (finish target now (start target now r)) { status = target }

unfoldable pub transition_to : RequestStatus → ℕ → ImportRequest → Outcome ImportError ImportRequest
unfolding can_transition
transition_to target now r =
    if can_transition r.status target then ok (moved_to target now r) else err invalid_request_state

unfoldable pub is_terminal : ImportRequest → Bool
is_terminal r =
    status_eq r.status completed || status_eq r.status cancelled || status_eq r.status failed

unfoldable pub can_retry : ImportRequest → Bool
can_retry r = status_eq r.status failed && ltb r.retries r.max_retries

unfoldable pub retry : ImportRequest → Outcome ImportError ImportRequest
unfolding can_retry
retry r =
    if can_retry r
    then ok (record r { status = pending; retries = r.retries + 1 })
    else err value_error

-- `payload.update` with the three keys
unfoldable pub to_job_payload : ImportRequest → Dict String
to_job_payload r =
    put (put (put r.payload "workspace_id" r.workspace_id) "location" r.location) "request_id"
      r.request_id
