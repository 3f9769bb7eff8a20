-- ===== src/Imports/Queue/Marks.antt =====
-- `mark_completed` and `mark_failed`, on every branch.
use lex_mind.Imports.Queue.{
  ImportRepository, State, QueueEvent, Sources, is_terminal, status_eq, mark_loaded, processing,
  emit, completed, failed, mark_completed, mark_failed, move, request_completed, request_failed,
  write,
}
use lex_mind.Imports.Request.{
  ImportRequest, RequestStatus, transition_to, can_transition, moved_to, dequeued, is_terminal,
  status_eq, processing, invalid_request_state, completed, failed,
}
use lex_mind.Common.{
  ◌+◌, String, ◌≡◌, refl, sym, subst, true, false, some, arith, if◌then◌else◌, any, ℕ, ◌⊎◌, inl,
  inr, Bool-cases, ◌||◌, ◌∙◌,
}
use lex_mind.Common.Effect.{ok, err, published, ◌>>=◌, ◌>>◌}
use lex_mind.Imports.Queue.Contract.{IsImportRepository, Became, held}

module _ (r : ImportRepository) (laws : IsImportRepository r) where
  -- the status from which the target is taken: a dequeued request is taken into processing first
  abbrev pub taken_status : ImportRequest → RequestStatus
  taken_status q = if status_eq q.status dequeued then processing else q.status

  moved-id :
      (target : RequestStatus) (now : ℕ) (q : ImportRequest)
      → (moved_to target now q).request_id ≡ q.request_id
  moved-id target now q = ground arith

  finish_moves :
      (w : Sources) (target : RequestStatus) (event : ImportRequest → QueueEvent)
      (p q : ImportRequest) (s : State r)
      → can_transition p.status target ≡ true
      → p.request_id ≡ q.request_id
      → r.get_by_id p.request_id s.store ≡ some q
      → (k : ImportRequest) × (t : State r) × ((move w target p >>= λ moved.
              write (r.update moved) >> emit (event moved))
            s
          ≡ (ok tt, t))
        × Became r laws q target (event k) s k t
  unfolding transition_to emit
  finish_moves w target event p q s legal same found =
      let k = moved_to target (w.now s.readings) p in
      let (t, done, kept) = laws.update_present k q s.store (
        subst (λ i. r.get_by_id i s.store ≡ some q) (sym (moved-id target (w.now s.readings) p))
          found) in
      (
        k,
        record s { store = t; bus = published s.bus (event k); readings = s.readings + 1 },
        rw (legal, done) refl,
        record {
          found = kept;
          same_id = moved-id target (w.now s.readings) p ∙ same;
          now = refl;
          announced = refl;
        },
      )

  takes :
      (w : Sources) (q : ImportRequest) (s : State r)
      → status_eq q.status dequeued ≡ true
      → transition_to processing (w.now s.readings) q
        ≡ ok (moved_to processing (w.now s.readings) q)
  unfolding transition_to can_transition any
  takes w q s e = ground arith

  mark_moves :
      (w : Sources) (target : RequestStatus) (event : ImportRequest → QueueEvent)
      (q : ImportRequest) (s : State r)
      → can_transition (taken_status q) target ≡ true
      → r.get_by_id q.request_id s.store ≡ some q
      → (k : ImportRequest) × (t : State r) × (mark_loaded w target event (some q) s ≡ (ok tt, t))
        × Became r laws q target (event k) s k t
  unfolding mark_loaded
  mark_moves w target event q s legal found = elim (Bool-cases (status_eq q.status dequeued)) [
    | inl taken ↦
        let p = moved_to processing (w.now s.readings) q in
        let same = moved-id processing (w.now s.readings) q in
        let (k, t, ran, became) =
          finish_moves w target event p q (record s { readings = s.readings + 1 })
            (rw taken at legal) same
            (subst (λ i. r.get_by_id i s.store ≡ some q) (sym same) found) in
        (
          k,
          t,
          rw (taken, takes w q s taken) ran,
          record {
            found = became.found;
            same_id = became.same_id;
            now = became.now;
            announced = became.announced;
          },
        )
    | inr other ↦
        let (k, t, ran, became) =
          finish_moves w target event q q s (rw other at legal) refl found in
        (k, t, rw other ran, became)
  ]

  mark_refused :
      (w : Sources) (target : RequestStatus) (event : ImportRequest → QueueEvent)
      (q : ImportRequest) (s : State r)
      → can_transition processing target ≡ true
      → can_transition (taken_status q) target ≡ false
      → mark_loaded w target event (some q) s ≡ (err invalid_request_state, s)
  unfolding mark_loaded transition_to
  mark_refused w target event q s fits illegal = elim (Bool-cases (status_eq q.status dequeued)) [
    | inl taken ↦ absurd (cc)
    | inr other ↦ rw other (rw (rw other at illegal) refl)
  ]

  completes :
      (q : ImportRequest)
      → status_eq q.status dequeued || status_eq q.status processing ≡ true
      → can_transition (taken_status q) completed ≡ true
  unfolding can_transition any
  completes q h = ground arith

  incompletes :
      (q : ImportRequest)
      → status_eq q.status dequeued || status_eq q.status processing ≡ false
      → can_transition (taken_status q) completed ≡ false
  unfolding can_transition any
  incompletes q h = ground arith

  completes_processing : can_transition processing completed ≡ true
  unfolding can_transition any
  completes_processing = refl

  fails_processing : can_transition processing failed ≡ true
  unfolding can_transition any
  fails_processing = refl

  fails :
      (q : ImportRequest) → is_terminal q ≡ false → can_transition (taken_status q) failed ≡ true
  unfolding can_transition any is_terminal
  fails q h = ground arith

  unfails :
      (q : ImportRequest) → is_terminal q ≡ true → can_transition (taken_status q) failed ≡ false
  unfolding can_transition any is_terminal
  unfails q h = ground arith

  -- `mark_completed` of a stored request that is dequeued or in processing completes it, in the
  -- store too, and publishes that; of any other stored request it raises InvalidRequestStateError
  -- and changes nothing.
  mark_completed_ends :
      (w : Sources) (id document_id file_hash : String) (q : ImportRequest) (s : State r)
      → r.get_by_id id s.store ≡ some q
      → ((status_eq q.status dequeued || status_eq q.status processing ≡ true)
          × (k : ImportRequest) × (t : State r) × (mark_completed w id document_id file_hash s
              ≡ (ok tt, t))
          × Became r laws q completed
              (request_completed k.request_id k.workspace_id k.location document_id file_hash)
              s
              k
              t)
        ⊎ ((status_eq q.status dequeued || status_eq q.status processing ≡ false)
            × (mark_completed w id document_id file_hash s ≡ (err invalid_request_state, s)))
  unfolding mark_completed
  mark_completed_ends w id document_id file_hash q s found =
      elim (Bool-cases (status_eq q.status dequeued || status_eq q.status processing)) [
        | inl live ↦
            let (k, t, ran, became) =
              mark_moves w completed
                (λ q.
                  request_completed q.request_id q.workspace_id q.location document_id file_hash)
                q s (completes q live) (held r laws id q s found) in
            inl (live, k, t, rw found ran, became)
        | inr dead ↦ inr (
          dead,
          rw found (
              mark_refused w completed
                (λ q.
                  request_completed q.request_id q.workspace_id q.location document_id file_hash)
                q s (completes_processing) (incompletes q dead)),
        )
      ]

  -- `mark_failed` of a stored request that is not in a terminal state fails it, in the store too,
  -- and publishes that; of one in a terminal state it raises InvalidRequestStateError and
  -- changes nothing.
  mark_failed_ends :
      (w : Sources) (id error_message : String) (q : ImportRequest) (s : State r)
      → r.get_by_id id s.store ≡ some q
      → ((is_terminal q ≡ false)
          × (k : ImportRequest) × (t : State r) × (mark_failed w id error_message s ≡ (ok tt, t))
          × Became r laws q failed
              (request_failed k.request_id k.workspace_id k.location error_message)
              s
              k
              t)
        ⊎ ((is_terminal q ≡ true)
            × (mark_failed w id error_message s ≡ (err invalid_request_state, s)))
  unfolding mark_failed
  mark_failed_ends w id error_message q s found = elim (Bool-cases (is_terminal q)) [
    | inl dead ↦ inr (
      dead,
      rw found (
          mark_refused w failed
            (λ q. request_failed q.request_id q.workspace_id q.location error_message) q s
            fails_processing (unfails q dead)),
    )
    | inr live ↦
        let (k, t, ran, became) =
          mark_moves w failed
            (λ q. request_failed q.request_id q.workspace_id q.location error_message) q s
            (fails q live) (held r laws id q s found) in
        inl (live, k, t, rw found ran, became)
  ]
