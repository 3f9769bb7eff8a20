-- ===== src/Imports/Queue/Commands.antt =====
-- `submit`, `dequeue` and `cancel`, on every branch, against any repository that keeps requests
-- under their ids.
use lex_mind.Imports.Queue.{
  ImportRepository, State, Sources, Deduplication, submit, admit, dequeue, new_request,
  request_enqueued, request_dequeued, duplicate_rejected, ℤ, Dict, duplicates, is_terminal, cancel,
  cancelled, request_cancelled, hand_out, cancel_loaded,
}
use lex_mind.Imports.Queue.Priority.{FirstHighest, sort_desc-first, All-first}
use lex_mind.Imports.Request.{
  RequestStatus, pending, dequeued, processing, completed, cancelled, failed, status_eq,
  ImportRequest, transition_to, can_transition, moved_to, checked, duplicate_request, is_terminal,
}
use lex_mind.Common.{
  ◌+◌, String, ◌≡◌, refl, sym, subst, true, false, none, some, List, ◌∷◌, arith, ◌==◌, any, ℕ, ◌⊎◌,
  inl, inr, ◌||◌,
}
use lex_mind.Common.Effect.{ok, err, published}
use lex_mind.Common.Int.{ℤ}
use lex_mind.Common.Dict.{Dict}
use lex_mind.Imports.Queue.Contract.{IsImportRepository, Became, held}

-- the states in which a request is cancelled, and those at which it stays
abbrev pub LiveStatus : RequestStatus → Type 0
LiveStatus x = (x ≡ pending) ⊎ (x ≡ dequeued) ⊎ (x ≡ processing)

abbrev pub EndedStatus : RequestStatus → Type 0
EndedStatus x = (x ≡ completed) ⊎ (x ≡ cancelled) ⊎ (x ≡ failed)

abbrev pub IsLive : ImportRequest → Type 0
IsLive q = LiveStatus q.status

abbrev pub IsEnded : ImportRequest → Type 0
IsEnded q = EndedStatus q.status

module _ (r : ImportRepository) (laws : IsImportRepository r) where
  checked_new :
      (workspace_id location : String) (priority : ℤ) (payload : Dict String) (id : String)
      (now : ℕ)
      → (workspace_id == "") ≡ false
      → (let q = new_request workspace_id location priority payload id now in checked q ≡ ok q)
  unfolding checked
  checked_new workspace_id location priority payload id now named = rw named refl

  -- `submit` of a named workspace and a location: where the deduplication strategy takes the new
  -- request for a duplicate, it raises DuplicateRequestError, stores nothing and publishes the
  -- rejection; where not, and the new id is free, the request is stored as pending and published.
  pub submit_admits :
      (w : Sources) (dedup : Deduplication) (workspace_id location : String) (priority : ℤ)
      (payload : Dict String) (s : State r)
      → (workspace_id == "") ≡ false
      → (location == "") ≡ false
      → (let q =
            new_request workspace_id location priority payload
              (w.uuid s.drawn)
              (w.now s.readings) in
          (duplicates dedup q ≡ true
            → submit w dedup workspace_id location priority payload s ≡ (
              err duplicate_request,
              record s {
                bus =
                    published s.bus (duplicate_rejected workspace_id location "duplicate-detected");
                readings = s.readings + 1;
                drawn = s.drawn + 1;
              },
            ))
          × (duplicates dedup q ≡ false
              → r.get_by_id q.request_id s.store ≡ none
              → (t : State r) × (submit w dedup workspace_id location priority payload s
                  ≡ (ok q, t))
                × Became r laws q pending
                    (request_enqueued q.request_id workspace_id location priority)
                    s
                    q
                    t))
  unfolding submit admit
  submit_admits w dedup workspace_id location priority payload s named placed =
      let q =
        new_request workspace_id location priority payload (w.uuid s.drawn) (w.now s.readings) in
      let valid =
        checked_new workspace_id location priority payload (w.uuid s.drawn) (w.now s.readings)
          named in
      (
        λ twin. rw (named, placed, valid, twin) refl,
        λ new absent.
            let (t, done, found) = laws.create_absent q s.store absent in
            (
              record s {
                store = t;
                bus =
                    published s.bus (request_enqueued q.request_id workspace_id location priority);
                readings = s.readings + 1;
                drawn = s.drawn + 1;
              },
              rw (named, placed, valid, new, done) refl,
              record { found = found; same_id = refl; now = refl; announced = refl },
            ),
      )

  -- Where the repository lists a pending request, `dequeue` hands out the earliest of the requests of the
  -- highest priority in the repository's list, now dequeued in the store, and publishes it.
  pub dequeue_first :
      (w : Sources) (q : ImportRequest) (l : List ImportRequest) (s : State r)
      → r.list_pending s.store ≡ q ∷ l
      → (h : ImportRequest) × (k : ImportRequest) × (t : State r) × (dequeue w s ≡ (ok (some k), t))
        × FirstHighest h (r.list_pending s.store)
        × Became r laws h dequeued
            (request_dequeued k.request_id k.workspace_id k.location k.priority)
            s
            k
            t
  unfolding dequeue transition_to can_transition any hand_out
  dequeue_first w q l s listed =
      let (h, rest, sorted, first) = sort_desc-first q l in
      let first_listed = subst (λ m. FirstHighest h m) (sym listed) first in
      let (stored, waits) = All-first _ first_listed (laws.list_pending_waits s.store) in
      let k = moved_to dequeued (w.now s.readings) h in
      let s1 = record s { readings = s.readings + 1 } in
      let (t, done, found) = laws.update_present k h s.store stored in
      (
        h,
        k,
        record s1 {
          store = t;
          bus =
              published s.bus (request_dequeued k.request_id k.workspace_id k.location k.priority);
        },
        rw (listed, sorted, waits, done) refl,
        first_listed,
        record { found = found; same_id = refl; now = refl; announced = refl },
      )

  cancels :
      (w : Sources) (q : ImportRequest) (s : State r)
      → is_terminal q ≡ false
      → transition_to cancelled (w.now s.readings) q ≡ ok (moved_to cancelled (w.now s.readings) q)
  unfolding transition_to can_transition any is_terminal
  cancels w q s live = ground arith

  -- the states in which a request may be cancelled, and those in which it may not
  IsLive-or_IsEnded :
      (q : ImportRequest)
      → (IsLive q × (is_terminal q ≡ false)) ⊎ (IsEnded q × (is_terminal q ≡ true))
  unfolding is_terminal
  IsLive-or_IsEnded q = by_status q.status
    where
      by_status :
          (x : RequestStatus)
          → (LiveStatus x
              × ((status_eq x completed || status_eq x cancelled || status_eq x failed) ≡ false))
            ⊎ (EndedStatus x
                × ((status_eq x completed || status_eq x cancelled || status_eq x failed) ≡ true))
      by_status pending = inl (inl refl, refl)
      by_status dequeued = inl (inr (inl refl), refl)
      by_status processing = inl (inr (inr refl), refl)
      by_status completed = inr (inl refl, refl)
      by_status cancelled = inr (inr (inl refl), refl)
      by_status failed = inr (inr (inr refl), refl)

  -- For a stored request, `cancel` returns `true` exactly where the request is pending, dequeued or in processing, and
  -- then the stored request is cancelled; it changes nothing where it returns `false`.
  pub cancel_ends :
      (w : Sources) (id : String) (q : ImportRequest) (s : State r)
      → r.get_by_id id s.store ≡ some q
      → (IsLive q
          × (k : ImportRequest) × (t : State r) × (cancel w id s ≡ (ok true, t))
          × Became r laws q cancelled (request_cancelled k.request_id k.workspace_id) s k t)
        ⊎ (IsEnded q × (cancel w id s ≡ (ok false, s)))
  unfolding cancel cancel_loaded
  cancel_ends w id q s found = elim (IsLive-or_IsEnded q) [
    | inr (ended, test) ↦ inr (ended, rw (found, test) refl)
    | inl (waits, live) ↦
        let k = moved_to cancelled (w.now s.readings) q in
        let (t, done, kept) = laws.update_present k q s.store (held r laws id q s found) in
        inl (
          waits,
          k,
          record s {
            store = t;
            bus = published s.bus (request_cancelled k.request_id k.workspace_id);
            readings = s.readings + 1;
          },
          rw (found, live, cancels w q s live, done) refl,
          record { found = kept; same_id = refl; now = refl; announced = refl },
        )
  ]
