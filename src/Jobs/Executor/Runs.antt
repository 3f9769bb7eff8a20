-- ===== src/Jobs/Executor/Runs.antt =====
-- What `execute` leaves behind: the job's row, and the number of pending rows.
use lex_mind.Jobs.State.{State, World, timed, job_completed, job_started, job_failed}
use lex_mind.Jobs.Job.{
  Job, status_eq, transition_to, pending, completed, failed, running, moved_to, can_transition,
  Error,
}
use lex_mind.Common.{
  ◌+◌, String, ◌≡◌, true, ◌||◌, some, List, arith, ◌==◌, if◌then◌else◌, length, filter, refl,
  Option, any, sym, subst, ap, ◌∙◌, inl, inr, Option-cases,
}
use lex_mind.Common.Effect.{ok, err, Outcome, pure, Action, ◌>>=◌, ◌>>◌, published}
use lex_mind.Jobs.Repository.{JobRepository, IsJobRepository, SameOrigin, is_pending}
use lex_mind.Jobs.Executor.{
  persist, Executor, completed, World, failed, running, JobHandler, conclude, timed, or_empty,
  job_completed, run_with, job_started, job_failed, Error, execute, has_handler, get,
}
use lex_mind.Jobs.Repository.Rows.{
  find, replace, find_written, length-filter_rewritten, find_rewritten,
}
use lex_mind.Common.Dict.{get}

module _ (r : JobRepository) (laws : IsJobRepository r) where
  abbrev pub rows : State r → List Job
  rows s = r.rows s.store

  -- A job that has a row is written over it.
  persist_present :
      (ex : Executor) (job old : Job) (s : State r)
      → ex.persists ≡ true
      → find job.id (rows s) ≡ some old
      → SameOrigin job old
      → (t : r.Store) × (persist ex job s ≡ (ok tt, record s { store = t }))
        × (r.rows t ≡ replace job (rows s))
  unfolding persist
  persist_present ex job old s on present origin =
      let (t, written, overwritten) = laws.update_present job old s.store present origin in
      (t, ground (arith, laws.get_by_id_lem job.id s.store), overwritten)

  -- what an execution makes of the pending job `j`
  pub record Executed (j : Job) (s : State r) (k : Job) (t : State r) : Type 0 where
    pub same_id : k.id ≡ j.id
    pub ended : status_eq k.status completed || status_eq k.status failed ≡ true
    pub found : (id : String) → find id (rows t) ≡ (if j.id == id then some k else find id (rows s))
    pub one_less : length (filter is_pending (rows t)) + 1 ≡ length (filter is_pending (rows s))

  -- the job that `execute` hands to the handler
  abbrev pub running_job : World → Job → State r → Job
  running_job w j s = moved_to running (w.now s.readings) j

  running_job-id : (w : World) (j : Job) (s : State r) → (running_job w j s).id ≡ j.id
  running_job-id w j s = ground arith

  running_job-origin : (w : World) (j : Job) (s : State r) → SameOrigin (running_job w j s) j
  running_job-origin w j s = (ground arith, ground arith, ground arith)

  pub start_pending :
      (w : World) (j : Job) (s : State r)
      → j.status ≡ pending
      → timed w (λ now. transition_to running now j) s
        ≡ (ok (running_job w j s), record s { readings = s.readings + 1 })
  unfolding transition_to can_transition any
  start_pending w j s p = ground arith

  -- `k` and `t` come from concluding the run of `j`
  pub record Concluded (j k : Job) (s t : State r) : Type 0 where
    pub same_id : k.id ≡ j.id
    pub origin : SameOrigin k j
    pub ended : status_eq k.status completed || status_eq k.status failed ≡ true
    pub same_store : t.store ≡ s.store

  pub conclude_running :
      (w : World) (o : Outcome String (Option String)) (j : Job) (s : State r)
      → j.status ≡ running
      → (k : Job) × (t : State r) × (conclude w o j s ≡ (ok k, t)) × Concluded j k s t
  unfolding conclude transition_to can_transition any
  conclude_running w (ok result) j s run =
      let k = moved_to completed (w.now s.readings) (record j { result = or_empty result }) in
      let e = job_completed k.id k.workspace_id k.job_type k.result in
      (
        k,
        record s { bus = published s.bus e; readings = s.readings + 1 },
        ground arith,
        record { same_id = refl; origin = (refl, refl, refl); ended = refl; same_store = refl },
      )
  conclude_running w (err message) j s run =
      let k = moved_to failed (w.now s.readings) (record j { error_message = message }) in
      let e = job_failed k.id k.workspace_id k.job_type k.error_message in
      (
        k,
        record s { bus = published s.bus e; readings = s.readings + 1 },
        ground arith,
        record { same_id = refl; origin = (refl, refl, refl); ended = refl; same_store = refl },
      )

  abbrev persisted : Executor → Job → Action Error (State r) Job
  persisted ex k = do persist ex k; pure k

  -- the rest of a run: `j1` is the job that was started, `k` and `s3` come from concluding it
  module _ (ex : Executor) (on : ex.persists ≡ true) (j j1 : Job) (s s2 : State r)
      (p : j.status ≡ pending) (run : j1.status ≡ running) (same : j1.id ≡ j.id)
      (present : find j.id (rows s) ≡ some j) (written : rows s2 ≡ replace j1 (rows s)) where
    persist-Concluded :
        (k : Job) (s3 : State r)
        → Concluded j1 k s2 s3
        → (t : State r) × (persisted ex k s3 ≡ (ok k, t)) × Executed j s k t
    persist-Concluded k s3 c =
        let kept = ap r.rows c.same_store in
        let moved = subst (λ i. find i (rows s) ≡ some j) (sym same) present in
        let (t, done, overwritten) =
          persist_present ex k j1 s3 on
            (find_written j1 j k (rows s) (rows s3) moved (kept ∙ written) c.same_id) c.origin in
        let twice =
          length-filter_rewritten j j1 k (rows s) (rows s3) (r.rows t) present same c.same_id
            (kept ∙ written) overwritten is_pending in
        (
          record s3 { store = t },
          ground arith,
          record {
            same_id = c.same_id ∙ same;
            ended = c.ended;
            found =
                find_rewritten j j1 k (rows s) (rows s3) (r.rows t) present same c.same_id
                  (kept ∙ written) overwritten;
            one_less = ground (arith, twice, c.ended);
          },
        )

    conclude-persisted :
        (w : World) (o : Outcome String (Option String))
        → (k : Job) × (t : State r) × ((conclude w o j1 >>= persisted ex) s2 ≡ (ok k, t))
          × Executed j s k t
    conclude-persisted w o =
        let (k, s3, concluded, c) = conclude_running w o j1 s2 run in
        let (t, done, e) = persist-Concluded k s3 c in (k, t, rw concluded done, e)

  -- A pending job with a row, run by a persisting executor, ends.
  run_with_pending :
      (w : World) (ex : Executor) (h : JobHandler) (j : Job) (s : State r)
      → ex.persists ≡ true
      → j.status ≡ pending
      → find j.id (rows s) ≡ some j
      → (k : Job) × (t : State r) × (run_with w ex h j s ≡ (ok k, t)) × Executed j s k t
  unfolding run_with
  run_with_pending w ex h j s on p present =
      let j1 = running_job w j s in
      let same = running_job-id w j s in
      let e = job_started j1.id j1.workspace_id j1.job_type in
      let s1 = record s { bus = published s.bus e; readings = s.readings + 1 } in
      let moved = subst (λ i. find i (rows s) ≡ some j) (sym same) present in
      let (t1, stored, rows1) = persist_present ex j1 j s1 on moved (running_job-origin w j s) in
      let (k, t, done, executed) =
        conclude-persisted ex on j j1 s (record s1 { store = t1 }) p refl same present rows1 w
          (h j1) in
      (k, t, rw (start_pending w j s p, stored) done, executed)

  -- A pending job with a row and a handler is executed: it ends as completed or failed.
  pub execute_pending :
      (w : World) (ex : Executor) (j : Job) (s : State r)
      → ex.persists ≡ true
      → has_handler j.job_type ex ≡ true
      → j.status ≡ pending
      → find j.id (rows s) ≡ some j
      → (k : Job) × (t : State r) × (execute w ex j s ≡ (ok k, t)) × Executed j s k t
  unfolding execute has_handler
  execute_pending w ex j s on known p present = elim (Option-cases (get ex.handlers j.job_type)) [
    | inl absent ↦ ground arith
    | inr (h, e) ↦
        let (k, t, done, executed) = run_with_pending w ex h j s on p present in
        (k, t, rw (e, execute) done, executed)
  ]
