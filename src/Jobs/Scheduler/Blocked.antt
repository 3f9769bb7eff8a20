-- ===== src/Jobs/Scheduler/Blocked.antt =====
-- When the queue does not move: a job of a type that has no handler at its head, or an executor
-- that was given no repository.
use lex_mind.Jobs.State.{State, World, job_started}
use lex_mind.Jobs.Job.{Job, value_error, pending}
use lex_mind.Common.{
  ◌≡◌, inl, inr, true, false, some, arith, ℕ, zero, suc, ◌+◌, ◌<◌, refl, sym, subst, none, List, [],
  ◌∷◌, ◌++◌, Option-cases,
}
use lex_mind.Common.Effect.{ok, err, published}
use lex_mind.Jobs.Repository.{JobRepository, IsJobRepository, is_pending}
use lex_mind.Jobs.Executor.{Executor, execute, has_handler, run_with, persist, JobHandler}
use lex_mind.Jobs.Scheduler.{process_next, dequeue, process_all_loop}
use lex_mind.Jobs.Queue.{dequeue, is_empty, size}
use lex_mind.Common.Dict.{get}
use lex_mind.Jobs.Executor.Runs.{running_job, conclude_running, start_pending}
use lex_mind.Jobs.Scheduler.Drain.{HasHandlers, status_of_test, process_dequeued}
use lex_mind.Jobs.Queue.Order.{dequeue-some_of_pos, dequeue-eq-some}
use lex_mind.Jobs.Repository.Rows.{find}

module _ (r : JobRepository) (laws : IsJobRepository r) (w : World) (ex : Executor) where
  pub process_unhandled :
      (j : Job) (s : State r)
      → dequeue s ≡ some j
      → has_handler j.job_type ex ≡ false
      → process_next w ex s ≡ (err value_error, s)
  unfolding process_next execute has_handler
  process_unhandled j s head unknown = elim (Option-cases (get ex.handlers j.job_type)) [
    | inl e ↦ rw (head, process_next) (rw (e, execute))
    | inr (h, e) ↦ ground arith
  ]

  unsaved : (k : Job) (s : State r) → ex.persists ≡ false → persist ex k s ≡ (ok tt, s)
  unfolding persist
  unsaved k s off = rw off

  run_with_unsaved :
      (h : JobHandler) (j : Job) (s : State r)
      → ex.persists ≡ false
      → j.status ≡ pending
      → (k : Job) × (t : State r) × (run_with w ex h j s ≡ (ok k, t)) × (t.store ≡ s.store)
  unfolding run_with
  run_with_unsaved h j s off p =
      let j1 = running_job r laws w j s in
      let e = job_started j1.id j1.workspace_id j1.job_type in
      let s1 = record s { bus = published s.bus e; readings = s.readings + 1 } in
      let (k, t, concluded, c) = conclude_running r laws w (h j1) j1 s1 refl in
      (
        k,
        t,
        rw (start_pending r laws w j s p, unsaved j1 s1 off, concluded, unsaved k t off) refl,
        c.same_store,
      )

  execute_unsaved :
      (j : Job) (s : State r)
      → ex.persists ≡ false
      → has_handler j.job_type ex ≡ true
      → j.status ≡ pending
      → (k : Job) × (t : State r) × (execute w ex j s ≡ (ok k, t)) × (t.store ≡ s.store)
  unfolding execute has_handler
  execute_unsaved j s off known p = elim (Option-cases (get ex.handlers j.job_type)) [
    | inl absent ↦ ground arith
    | inr (h, e) ↦
        let (k, t, done, same) = run_with_unsaved h j s off p in (k, t, rw (e, execute) done, same)
  ]

  not_empty : (s : State r) → 0 < r.count_pending s.store → is_empty s ≡ false
  unfolding is_empty size
  not_empty s h = ground arith

  -- With an executor that was given no repository, while each pending job has a handler and a job
  -- is pending, the loop of `process_all` runs out of every fuel.
  pub process_all_unsaved :
      (fuel : ℕ) (results : List Job) (s : State r)
      → ex.persists ≡ false
      → HasHandlers r laws w ex s
      → 0 < r.count_pending s.store
      → process_all_loop w ex fuel results s ≡ none
  unfolding process_all_loop
  process_all_unsaved zero results s off known more = refl
  process_all_unsaved (suc fuel) results s off known more =
      let (j, head) =
        dequeue-some_of_pos r laws s (subst (λ n. 0 < n) (laws.count_pending_lem s.store) more) in
      let (present, p) = dequeue-eq-some r laws s j head in
      let (k, t, done, same) = execute_unsaved j s off (known j present p) (status_of_test j p) in
      let again =
        process_all_unsaved fuel (results ++ k ∷ []) t off
          (subst
            (λ q.
              (i : Job)
              → find i.id (r.rows q) ≡ some i
              → is_pending i ≡ true
              → has_handler i.job_type ex ≡ true)
            (sym same) known)
          (subst (λ q. 0 < r.count_pending q) (sym same) more) in
      rw (not_empty s more, process_dequeued r laws w ex j k s t head done) again
