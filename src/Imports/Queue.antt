-- ===== src/Imports/Queue.antt =====
-- backend/lexmind/import_queue/import_queue.py, dedup_strategy.py and queue_events.py. The
-- repository is a protocol without an implementation in the program: it is a parameter.
pub mod Priority
pub mod Contract
pub mod Commands
pub mod Marks
use lex_mind.Imports.Request.{
  ImportRequest, RequestStatus, ImportError, status_eq, pending, dequeued, processing, completed,
  failed, cancelled, value_error, duplicate_request, checked, transition_to, is_terminal,
}
use lex_mind.Common.{
  ℕ, ◌+◌, String, Bool, true, false, ◌||◌, Option, none, some, List, [], ◌∷◌, map, ◌==◌,
  if◌then◌else◌, leb,
}
use lex_mind.Common.Effect.{ok, err, pure, raise, Action, Outcome, ◌>>=◌, ◌>>◌, published}
use lex_mind.Common.Int.{ℤ, leb_ℤ}
use lex_mind.Common.Dict.{Dict}

-- queue_repository.py, the operations that the queue calls
pub record ImportRepository : Type 1 where
  pub Store : Type 0
  pub create : ImportRequest → Store → Outcome ImportError (ImportRequest × Store)
  pub update : ImportRequest → Store → Outcome ImportError (ImportRequest × Store)
  pub get_by_id : String → Store → Option ImportRequest
  pub list_pending : Store → List ImportRequest
  pub count_pending : Store → ℕ

-- queue_events.py, without the id and the time of each event
pub data QueueEvent : Type 0 where
  request_enqueued request_dequeued :
      (request_id workspace_id location : String) (priority : ℤ) → QueueEvent
  request_completed : (request_id workspace_id location document_id file_hash : String) → QueueEvent
  request_failed : (request_id workspace_id location error_message : String) → QueueEvent
  request_cancelled : (request_id workspace_id : String) → QueueEvent
  duplicate_rejected : (workspace_id location reason : String) → QueueEvent

-- `ChecksumDedup.is_duplicate`: `storage` is `get_by_location`, `none` where it raises
unfoldable pub is_duplicate :
    (String → String → Option (Option ImportRequest)) → ImportRequest → Bool
is_duplicate storage q =
    if q.location == "" then false else elim (storage q.workspace_id q.location) [
      | none ↦ false
      | some none ↦ false
      | some (some existing) ↦
          if existing.request_id == q.request_id
          then false
          else status_eq existing.status pending
            || status_eq existing.status dequeued
            || status_eq existing.status processing
    ]

-- the n-th readings of `datetime.now` and of `uuid4`
pub record Sources : Type 0 where
  pub now : ℕ → ℕ
  pub uuid : ℕ → String

pub record State (r : ImportRepository) : Type 0 where
  pub store : r.Store
  pub bus : Option (List QueueEvent)
  pub readings : ℕ
  pub drawn : ℕ

abbrev pub Deduplication : Type 0
Deduplication = Option (ImportRequest → Bool)

abbrev duplicates : Deduplication → ImportRequest → Bool
duplicates none q = false
duplicates (some strategy) q = strategy q

-- The order of `list.sort(key=priority, reverse=True)`, which keeps the order of equals
abbrev pub insert_desc : ImportRequest → List ImportRequest → List ImportRequest
insert_desc q [] = q ∷ []
insert_desc q (p ∷ l) = if leb_ℤ p.priority q.priority then q ∷ p ∷ l else p ∷ insert_desc q l

unfoldable pub sort_desc : List ImportRequest → List ImportRequest
sort_desc [] = []
sort_desc (q ∷ l) = insert_desc q (sort_desc l)

-- the request that `submit` makes, checked by `__post_init__`
abbrev pub new_request : String → String → ℤ → Dict String → String → ℕ → ImportRequest
new_request workspace_id location priority payload id now = record {
  workspace_id = workspace_id;
  location = location;
  request_id = id;
  priority = priority;
  status = pending;
  payload = payload;
  created_at = now;
  started_at = none;
  completed_at = none;
  retries = 0;
  max_retries = 3;
}

module _ {r : ImportRepository} where
  -- `_emit`
  unfoldable pub emit : QueueEvent → Action ImportError (State r) (Unit {0})
  emit e s = (ok tt, record s { bus = published s.bus e })

  abbrev stored :
      Outcome ImportError (ImportRequest × r.Store)
      → State r
      → Outcome ImportError ImportRequest × State r
  stored (ok (q, t)) s = (ok q, record s { store = t })
  stored (err e) s = (err e, s)

  abbrev pub write :
      (r.Store → Outcome ImportError (ImportRequest × r.Store))
      → Action ImportError (State r) ImportRequest
  write f s = stored (f s.store) s

  abbrev clocked :
      Outcome ImportError ImportRequest → State r → Outcome ImportError ImportRequest × State r
  clocked (ok q) s = (ok q, record s { readings = s.readings + 1 })
  clocked (err e) s = (err e, s)

  -- `transition_to`, which reads the clock where it does not raise
  abbrev pub move :
      Sources → RequestStatus → ImportRequest → Action ImportError (State r) ImportRequest
  move w target q s = clocked (transition_to target (w.now s.readings) q) s

  abbrev pub drawing :
      Sources → (String → ℕ → ImportRequest) → Action ImportError (State r) ImportRequest
  drawing w f s = (
    checked (f (w.uuid s.drawn) (w.now s.readings)),
    record s { readings = s.readings + 1; drawn = s.drawn + 1 },
  )

  -- `submit` from the test of the deduplication strategy on
  unfoldable pub admit : Deduplication → ImportRequest → Action ImportError (State r) ImportRequest
  unfolding emit
  admit dedup q =
      if duplicates dedup q
      then emit (duplicate_rejected q.workspace_id q.location "duplicate-detected")
        >> raise duplicate_request
      else do
        kept ← write (r.create q)
        emit (request_enqueued kept.request_id q.workspace_id q.location kept.priority)
        pure kept

  unfoldable pub submit :
      Sources
      → Deduplication
      → String
      → String
      → ℤ
      → Dict String
      → Action ImportError (State r) ImportRequest
  unfolding admit
  submit w dedup workspace_id location priority payload =
      if workspace_id == ""
      then raise value_error
      else if location == ""
      then raise value_error
      else drawing w (new_request workspace_id location priority payload) >>= admit dedup

  -- `dequeue` from the choice of the request on
  abbrev pub hand_out :
      Sources → List ImportRequest → Action ImportError (State r) (Option ImportRequest)
  unfolding emit
  hand_out w [] = pure none
  hand_out w (q ∷ l) = do
    moved ← move w dequeued q
    kept ← write (r.update moved)
    emit (request_dequeued kept.request_id kept.workspace_id kept.location kept.priority)
    pure (some kept)

  unfoldable pub dequeue : Sources → Action ImportError (State r) (Option ImportRequest)
  dequeue w s = hand_out w (sort_desc (r.list_pending s.store)) s

  unfoldable pub get_job : String → State r → Option ImportRequest
  get_job id s = r.get_by_id id s.store

  abbrev pub cancel_loaded : Sources → Option ImportRequest → Action ImportError (State r) Bool
  unfolding emit
  cancel_loaded w none = pure false
  cancel_loaded w (some q) = if is_terminal q then pure false else do
    moved ← move w cancelled q
    write (r.update moved)
    emit (request_cancelled moved.request_id moved.workspace_id)
    pure true

  unfoldable pub cancel : Sources → String → Action ImportError (State r) Bool
  cancel w id s = cancel_loaded w (r.get_by_id id s.store) s

  -- what `mark_completed` and `mark_failed` do before their own transition
  abbrev pub begin_processing : Sources → ImportRequest → Action ImportError (State r) ImportRequest
  begin_processing w q = if status_eq q.status dequeued then move w processing q else pure q

  abbrev pub mark_loaded :
      Sources
      → RequestStatus
      → (ImportRequest → QueueEvent)
      → Option ImportRequest
      → Action ImportError (State r) (Unit {0})
  unfolding emit
  mark_loaded w target event none = pure tt
  mark_loaded w target event (some q) = do
    taken ← begin_processing w q
    moved ← move w target taken
    write (r.update moved)
    emit (event moved)

  unfoldable pub mark_completed :
      Sources → String → String → String → Action ImportError (State r) (Unit {0})
  mark_completed w id document_id file_hash s =
      mark_loaded w completed
        (λ q. request_completed q.request_id q.workspace_id q.location document_id file_hash)
        (r.get_by_id id s.store) s

  unfoldable pub mark_failed : Sources → String → String → Action ImportError (State r) (Unit {0})
  mark_failed w id error_message s =
      mark_loaded w failed
        (λ q. request_failed q.request_id q.workspace_id q.location error_message)
        (r.get_by_id id s.store) s

  unfoldable pub pending_ids : State r → List String
  pending_ids s = map (λ q. q.request_id) (r.list_pending s.store)

  unfoldable pub size : State r → ℕ
  size s = r.count_pending s.store
