-- ===== src/Examples/Imports.antt =====
-- The theorems about the import queue, at a repository that keeps every version of its requests,
-- the latest first.
use lex_mind.Imports.Request.{
  ImportRequest, RequestStatus, status_eq, pending, dequeued, processing, failed, cancelled,
  transition_to, retry, checked, duplicate_request, can_transition, can_retry,
}
use lex_mind.Imports.Request.Lifecycle.{Steps, retry_bounded}
use lex_mind.Imports.Queue.{
  ImportRepository, State, Sources, Deduplication, new_request, submit, dequeue, cancel,
  request_enqueued, request_dequeued, request_cancelled, duplicate_rejected,
}
use lex_mind.Imports.Queue.Priority.{FirstHighest}
use lex_mind.Imports.Queue.Contract.{IsImportRepository, Became}
use lex_mind.Imports.Queue.Commands.{submit_admits, dequeue_first, cancel_ends, IsLive, IsEnded}
use lex_mind.Common.{
  ◌+◌, ◌≤◌, String, ◌≡◌, refl, ◌⊎◌, inl, inr, Bool, true, false, not, Option, none, some, List, [],
  ◌∷◌, arith, ◌==◌, eq_iff, eq_refl, if◌then◌else◌, length, filter, All, Bool-cases, any,
}
use lex_mind.Common.Effect.{ok, err}
use lex_mind.Common.Int.{pos}

unfoldable find : String → List ImportRequest → Option ImportRequest
find id [] = none
find id (q ∷ l) = if q.request_id == id then some q else find id l

abbrev others : ImportRequest → ImportRequest → Bool
others q p = not (q.request_id == p.request_id)

unfoldable list_pending : List ImportRequest → List ImportRequest
list_pending [] = []
list_pending (q ∷ l) =
    let rest = filter (others q) (list_pending l) in
    if status_eq q.status pending then q ∷ rest else rest

abbrev log : ImportRepository
log = record {
  Store = List ImportRequest;
  create = λ q l. ok (q, q ∷ l);
  update = λ q l. ok (q, q ∷ l);
  get_by_id = find;
  list_pending = list_pending;
  count_pending = λ l. length (list_pending l);
}

find-id :
    (id : String) (q : ImportRequest) (l : List ImportRequest)
    → find id l ≡ some q
    → q.request_id ≡ id
unfolding find
find-id id q [] h = cc
find-id id q (p ∷ l) h = ground (arith, eq_iff p.request_id id, find-id id q l)

abbrev Waits : List ImportRequest → ImportRequest → Type 0
Waits l q = (find q.request_id l ≡ some q) × (q.status ≡ pending)

filter-Waits :
    (q : ImportRequest) (l m : List ImportRequest)
    → All (Waits l) m
    → All (Waits (q ∷ l)) (filter (others q) m)
unfolding find filter
filter-Waits q l [] a = tt
filter-Waits q l (p ∷ m) ((found, waits), a) = elim (Bool-cases (q.request_id == p.request_id)) [
  | inl same ↦ rw same (filter-Waits q l m a)
  | inr other ↦ rw other ((rw other found, waits), filter-Waits q l m a)
]

status_of_test : (s : RequestStatus) → status_eq s pending ≡ true → s ≡ pending
status_of_test s h = ground arith

list_pending-Waits : (l : List ImportRequest) → All (Waits l) (list_pending l)
unfolding list_pending find
list_pending-Waits [] = tt
list_pending-Waits (q ∷ l) = elim (Bool-cases (status_eq q.status pending)) [
  | inl new ↦ rw new (
    (rw (eq_refl q.request_id) refl, status_of_test q.status new),
    filter-Waits q l (list_pending l) (list_pending-Waits l),
  )
  | inr old ↦ rw old (filter-Waits q l (list_pending l) (list_pending-Waits l))
]

log_laws : IsImportRepository log
unfolding find
log_laws = record {
  get_by_id-id = λ id q l h. find-id id q l h;
  create_absent = λ q l h. (q ∷ l, refl, λ id. refl);
  update_present = λ q old l h. (q ∷ l, refl, λ id. refl);
  list_pending_waits = list_pending-Waits;
}

abbrev sources : Sources
sources = record { now = λ n. n + 50; uuid = λ n. "new" }

abbrev early : ImportRequest
early = new_request "w1" "a.pdf" (pos 2) [] "a" 1

abbrev twin : ImportRequest
twin = new_request "w1" "b.pdf" (pos 2) [] "b" 2

abbrev begun : ImportRequest
begun = record (new_request "w1" "c.pdf" (pos 1) [] "c" 3) {
  status = processing;
  started_at = some 4;
}

abbrev desk : State log
desk = record { store = early ∷ twin ∷ begun ∷ []; bus = some []; readings = 0; drawn = 0 }

abbrev fresh : ImportRequest
fresh = new_request "w1" "d.pdf" (pos 3) [] "new" 50

-- a strategy that knows one location
abbrev known : Deduplication
known = some (λ q. q.location == "a.pdf")

submit_admits_example :
    (false ≡ true
      → submit {r = log} sources known "w1" "d.pdf" (pos 3) [] desk ≡ (
        err duplicate_request,
        record desk {
          bus = some (duplicate_rejected "w1" "d.pdf" "duplicate-detected" ∷ []);
          readings = 1;
          drawn = 1;
        },
      ))
    × (false ≡ false
        → find "new" desk.store ≡ none
        → (t : State log) × (submit sources known "w1" "d.pdf" (pos 3) [] desk ≡ (ok fresh, t))
          × Became log log_laws fresh pending
              (request_enqueued "new" "w1" "d.pdf" (pos 3))
              desk
              fresh
              t)
submit_admits_example =
    submit_admits log log_laws sources known "w1" "d.pdf" (pos 3) [] desk refl refl

dequeue_first_example :
    (h : ImportRequest) × (k : ImportRequest) × (t : State log) × (dequeue sources desk
      ≡ (ok (some k), t))
    × FirstHighest h (list_pending desk.store)
    × Became log log_laws h dequeued
        (request_dequeued k.request_id k.workspace_id k.location k.priority)
        desk
        k
        t
unfolding list_pending filter
dequeue_first_example = dequeue_first log log_laws sources early (twin ∷ []) desk refl

cancel_ends_example :
    (IsLive begun
      × (k : ImportRequest) × (t : State log) × (cancel sources "c" desk ≡ (ok true, t))
      × Became log log_laws begun cancelled
          (request_cancelled k.request_id k.workspace_id)
          desk
          k
          t)
    ⊎ (IsEnded begun × (cancel sources "c" desk ≡ (ok false, desk)))
unfolding find
cancel_ends_example = cancel_ends log log_laws sources "c" begun desk refl

abbrev lost : ImportRequest
lost = record early { status = failed; completed_at = some 9 }

abbrev again : ImportRequest
again = record lost { status = pending; retries = 1 }

life : Steps early 1 again
unfolding transition_to can_transition any retry can_retry
life = Steps.again (Steps.move failed 9 Steps.here refl) refl

retry_bounded_example : 1 + 0 ≤ 3
unfolding checked
retry_bounded_example = retry_bounded 1 early early again refl life
