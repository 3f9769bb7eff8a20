-- ===== src/Jobs/Scheduler/Commands.antt =====
-- `submit` and `cancel_job`, on every branch.
use lex_mind.Jobs.State.{State, write, World, job_created, job_cancelled}
use lex_mind.Jobs.Job.{
  Job, JobStatus, new, is_terminal, pending, status_eq, transition_to, running, can_transition,
  cancelled, moved_to, new_job,
}
use lex_mind.Common.{
  String, ◌≡◌, sym, ◌∙◌, none, some, arith, ◌==◌, eq_iff, if◌then◌else◌, ℕ, ◌+◌, refl, subst, true,
  false, ◌||◌, any, inl, inr, Option-cases, ap, ◌⊎◌, Bool, Bool-cases,
}
use lex_mind.Common.Effect.{ok, published}
use lex_mind.Jobs.Repository.{JobRepository, IsJobRepository, SameOrigin}
use lex_mind.Jobs.Repository.Rows.{find-replace, find_snoc, id_of_find}
use lex_mind.Jobs.Scheduler.{
  submit, cancel_job, ℤ, enqueue, Dict, job_created, job_cancelled, cancel_loaded,
  cancelled_or_none,
}
use lex_mind.Common.Int.{ℤ}
use lex_mind.Jobs.Queue.{enqueue}
use lex_mind.Common.Dict.{Dict}

module _ (r : JobRepository) (laws : IsJobRepository r) where
  -- the store holds `k` under its id, and all other rows as before
  pub record Wrote (k : Job) (s t : State r) : Type 0 where
    pub found :
        (id : String)
        → r.get_by_id id t.store ≡ (if k.id == id then some k else r.get_by_id id s.store)

  pub update_writes :
      (k old : Job) (s : State r)
      → r.get_by_id k.id s.store ≡ some old
      → SameOrigin k old
      → (t : r.Store) × (write {r = r} (r.update k) s ≡ (ok tt, record s { store = t }))
        × Wrote k s (record s { store = t })
  update_writes k old s present origin =
      let found = sym (laws.get_by_id_lem k.id s.store) ∙ present in
      let (t, done, rows) = laws.update_present k old s.store found origin in
      (
        t,
        ground arith,
        record {
          found = λ id. ground (
            arith,
            laws.get_by_id_lem id t,
            laws.get_by_id_lem id s.store,
            find-replace k old id (r.rows s.store),
          );
        },
      )

  create_writes :
      (k : Job) (s : State r)
      → r.get_by_id k.id s.store ≡ none
      → (t : r.Store) × (write {r = r} (r.create k) s ≡ (ok tt, record s { store = t }))
        × Wrote k s (record s { store = t })
  create_writes k s absent =
      let found = sym (laws.get_by_id_lem k.id s.store) ∙ absent in
      let (t, done, rows) = laws.create_absent k s.store found in
      (
        t,
        ground arith,
        record {
          found = λ id. ground (
            arith,
            laws.get_by_id_lem id t,
            laws.get_by_id_lem id s.store,
            find_snoc k id (r.rows s.store),
            eq_iff k.id id,
          );
        },
      )

  pub got-id : (j : Job) (id : String) (s : State r) → r.get_by_id id s.store ≡ some j → j.id ≡ id
  got-id j id s h = id_of_find j id (r.rows s.store) (sym (laws.get_by_id_lem id s.store) ∙ h)

  -- What `submit` did: `k` is a new pending job, stored, and its creation was published.
  pub record Submitted (w : World) (workspace_id job_type : String) (priority : ℤ) (s : State r)
      (k : Job) (t : State r) : Type 0 where
    pub wrote : Wrote k s t
    pub id : k.id ≡ w.uuid s.drawn
    pub waits : k.status ≡ pending
    pub workspace : k.workspace_id ≡ workspace_id
    pub type : k.job_type ≡ job_type
    pub urgency : k.priority ≡ priority
    pub announced : t.bus ≡ published s.bus (job_created k.id workspace_id job_type)

  -- `submit` for a named workspace, with an id that is free: the new job is stored as pending under
  -- that id, all other jobs are as before, and its creation is published.
  submit_fresh :
      (w : World) (workspace_id job_type : String) (payload : Dict String) (priority : ℤ)
      (max_retries : ℕ) (s : State r)
      → (workspace_id == "") ≡ false
      → r.get_by_id (w.uuid s.drawn) s.store ≡ none
      → (k : Job) × (t : State r) × (submit w workspace_id job_type payload priority max_retries s
          ≡ (ok k, t))
        × Submitted w workspace_id job_type priority s k t
  unfolding submit new enqueue
  submit_fresh w workspace_id job_type payload priority max_retries s named fresh =
      let s1 = record s { readings = s.readings + 1; drawn = s.drawn + 1 } in
      let k =
        new_job workspace_id job_type payload priority max_retries (w.uuid s.drawn)
          (w.now s.readings) in
      let (t, done, wrote) = create_writes k s1 fresh in
      (
        k,
        record s1 { store = t; bus = published s.bus (job_created k.id workspace_id job_type) },
        rw (named, fresh, done) refl,
        record {
          wrote = record { found = wrote.found };
          id = refl;
          waits = refl;
          workspace = refl;
          type = refl;
          urgency = refl;
          announced = refl;
        },
      )

  -- what `cancel_job` and `retry_job` leave, where they do something: the row of `j` is now `k`
  pub record Changed (j : Job) (status : JobStatus) (s : State r) (k : Job) (t : State r)
      : Type 0 where
    pub wrote : Wrote k s t
    pub same_id : k.id ≡ j.id
    pub now : k.status ≡ status

  cancel_moves :
      (w : World) (j : Job) (s : State r)
      → status_eq j.status pending || status_eq j.status running ≡ true
      → cancel_loaded w j s
        ≡ cancelled_or_none w
            (ok (moved_to cancelled (w.now s.readings) j))
            (record s { readings = s.readings + 1 })
  unfolding cancel_loaded is_terminal transition_to can_transition any
  cancel_moves w j s live = ground arith

  cancel_stays :
      (w : World) (j : Job) (s : State r)
      → status_eq j.status pending || status_eq j.status running ≡ false
      → cancel_loaded w j s ≡ (ok none, s)
  unfolding cancel_loaded is_terminal transition_to can_transition any
  cancel_stays w j s dead = ground arith

  -- `cancel_job` of a stored job that is pending or running returns the job, cancelled, which the
  -- store then holds, and publishes that.
  pub cancel_live :
      (w : World) (id : String) (j : Job) (s : State r)
      → r.get_by_id id s.store ≡ some j
      → status_eq j.status pending || status_eq j.status running ≡ true
      → (k : Job) × (t : State r) × (cancel_job w id s ≡ (ok (some k), t))
        × Changed j cancelled s k t
        × (t.bus ≡ published s.bus (job_cancelled k.id k.workspace_id k.job_type))
  unfolding cancel_job
  cancel_live w id j s found live =
      let k = moved_to cancelled (w.now s.readings) j in
      let s1 = record s { readings = s.readings + 1 } in
      let moves = cancel_moves w j s live in
      let (t, done, wrote) =
        update_writes k j s1
          (subst (λ i. r.get_by_id i s.store ≡ some j) (sym (got-id j id s found)) found)
          (refl, refl, refl) in
      (
        k,
        record s1 {
          store = t;
          bus = published s.bus (job_cancelled k.id k.workspace_id k.job_type);
        },
        rw (found, cancel_job) (rw (moves, done) refl),
        record { wrote = record { found = wrote.found }; same_id = refl; now = refl },
        refl,
      )

  -- `cancel_job` of an id that is not stored, or of a job that is neither pending nor running,
  -- returns `None` and changes nothing.
  pub cancel_dead :
      (w : World) (id : String) (s : State r)
      → ((j : Job)
          → r.get_by_id id s.store ≡ some j
          → status_eq j.status pending || status_eq j.status running ≡ false)
      → cancel_job w id s ≡ (ok none, s)
  unfolding cancel_job
  cancel_dead w id s dead = elim (Option-cases (r.get_by_id id s.store)) [
    | inl e ↦ rw (e, cancel_job)
    | inr (j, e) ↦ rw (e, cancel_job) (cancel_stays w j s (dead j e))
  ]

  abbrev pub is_live : Job → Bool
  is_live j = status_eq j.status pending || status_eq j.status running

  -- `cancel_job` on every branch. Of a stored job that is pending or running it returns the job,
  -- cancelled, which the store then holds, and publishes that. Of an id that is not stored, or of a
  -- job that is neither pending nor running, it returns `None` and changes nothing.
  pub cancel_cases :
      (w : World) (id : String) (s : State r)
      → ((j k : Job) × (t : State r) × (r.get_by_id id s.store ≡ some j)
          × (is_live j ≡ true)
          × (cancel_job w id s ≡ (ok (some k), t))
          × Changed j cancelled s k t
          × (t.bus ≡ published s.bus (job_cancelled k.id k.workspace_id k.job_type)))
        ⊎ (((r.get_by_id id s.store ≡ none)
              ⊎ ((j : Job) × (r.get_by_id id s.store ≡ some j) × (is_live j ≡ false)))
            × (cancel_job w id s ≡ (ok none, s)))
  cancel_cases w id s = elim (Option-cases (r.get_by_id id s.store)) [
    | inl e ↦ inr (inl e, cancel_dead w id s (λ j h. absurd cc))
    | inr (j, found) ↦ elim (Bool-cases (is_live j)) [
      | inl live ↦
          let (k, t, runs, changed, told) = cancel_live w id j s found live in
          inl (j, k, t, found, live, runs, changed, told)
      | inr dead ↦ inr (
        inr (j, found, dead),
        cancel_dead w id s
            (λ i h. let same : i ≡ j = ground (arith, h, found) in ap is_live same ∙ dead),
      )
    ]
  ]
