-- ===== src/Jobs/Scheduler/Retry.antt =====
-- `retry_job`, on every branch.
use lex_mind.Jobs.State.{State, World}
use lex_mind.Jobs.Job.{Job, pending, retry, can_retry}
use lex_mind.Common.{
  String, ◌≡◌, sym, ◌∙◌, none, some, arith, ◌+◌, refl, subst, true, false, inl, inr, Option-cases,
  eq_refl, ap, ◌⊎◌, Bool-cases,
}
use lex_mind.Common.Effect.{ok}
use lex_mind.Jobs.Repository.{JobRepository, IsJobRepository, SameOrigin}
use lex_mind.Jobs.Scheduler.{enqueue, retry_job, retry_loaded}
use lex_mind.Jobs.Queue.{enqueue}
use lex_mind.Jobs.Scheduler.Commands.{Wrote, Changed, update_writes, got-id}

module _ (r : JobRepository) (laws : IsJobRepository r) where
  abbrev reset_job : World → Job → State r → Job
  reset_job w j s = record j { status = pending; error_message = ""; updated_at = w.now s.readings }

  enqueue_known :
      (k old : Job) (s : State r)
      → k.status ≡ pending
      → r.get_by_id k.id s.store ≡ some old
      → SameOrigin k old
      → (t : r.Store) × (enqueue k s ≡ (ok k, record s { store = t }))
        × Wrote r laws k s (record s { store = t })
  unfolding enqueue
  enqueue_known k old s p found origin =
      let (t, done, wrote) = update_writes r laws k old s found origin in (t, ground arith, wrote)

  -- `retry_job` of a stored job that can be retried returns it as a pending job with as many
  -- attempts as before, which the store then holds.
  pub retry_failed :
      (w : World) (id : String) (j : Job) (s : State r)
      → r.get_by_id id s.store ≡ some j
      → can_retry j ≡ true
      → (k : Job) × (t : State r) × (retry_job w id s ≡ (ok (some k), t))
        × Changed r laws j pending s k t
        × (k.attempts ≡ j.attempts)
  unfolding retry_job retry_loaded retry
  retry_failed w id j s found again =
      let k = reset_job w j s in
      let s1 = record s { readings = s.readings + 1 } in
      let held =
        subst (λ i. r.get_by_id i s.store ≡ some j) (sym (got-id r laws j id s found)) found in
      let (t1, done1, wrote1) = update_writes r laws k j s1 held (refl, refl, refl) in
      let s2 = record s1 { store = t1 } in
      let (t2, done2, wrote2) =
        enqueue_known k k s2 refl (wrote1.found k.id ∙ rw (eq_refl k.id) refl) (refl, refl, refl) in
      (
        k,
        record s2 { store = t2 },
        rw (found, retry_job) (rw (again, done1, done2) refl),
        record {
          wrote = record { found = λ i. ground (arith, wrote1.found i, wrote2.found i) };
          same_id = refl;
          now = refl;
        },
        refl,
      )

  -- `retry_job` of an id that is not stored, or of a job that cannot be retried, returns `None` and
  -- changes nothing.
  pub retry_spent :
      (w : World) (id : String) (s : State r)
      → ((j : Job) → r.get_by_id id s.store ≡ some j → can_retry j ≡ false)
      → retry_job w id s ≡ (ok none, s)
  unfolding retry_job retry_loaded
  retry_spent w id s spent = elim (Option-cases (r.get_by_id id s.store)) [
    | inl e ↦ rw (e, retry_job)
    | inr (j, e) ↦ rw (e, retry_job) (rw (spent j e))
  ]

  -- `retry_job` on every branch. A stored job that can be retried is returned as a pending job with as
  -- many attempts as before, though the acceptance criteria say that `retry` increments them, and the
  -- store then holds it. Of an id that is not stored, or of a job that
  -- cannot be retried, it returns `None` and changes nothing.
  pub retry_cases :
      (w : World) (id : String) (s : State r)
      → ((j k : Job) × (t : State r) × (r.get_by_id id s.store ≡ some j)
          × (can_retry j ≡ true)
          × (retry_job w id s ≡ (ok (some k), t))
          × Changed r laws j pending s k t
          × (k.attempts ≡ j.attempts))
        ⊎ (((r.get_by_id id s.store ≡ none)
              ⊎ ((j : Job) × (r.get_by_id id s.store ≡ some j) × (can_retry j ≡ false)))
            × (retry_job w id s ≡ (ok none, s)))
  retry_cases w id s = elim (Option-cases (r.get_by_id id s.store)) [
    | inl e ↦ inr (inl e, retry_spent w id s (λ j h. absurd cc))
    | inr (j, found) ↦ elim (Bool-cases (can_retry j)) [
      | inl again ↦
          let (k, t, runs, changed, kept) = retry_failed w id j s found again in
          inl (j, k, t, found, again, runs, changed, kept)
      | inr spent ↦ inr (
        inr (j, found, spent),
        retry_spent w id s
            (λ i h. let same : i ≡ j = ground (arith, h, found) in ap can_retry same ∙ spent),
      )
    ]
  ]
