-- ===== src/Pipeline/Executor/Tracks.antt =====
-- What the loop over the stages starts and saves, whatever the stages do.
use lex_mind.Pipeline.Stage.{Stage, StageResult, RunError, cancelled, Workbench}
use lex_mind.Pipeline.Checkpoint.{Checkpoint, with_stage, save}
use lex_mind.Pipeline.Run.{
  Run, PipelineEvent, emit, mark_skipped, benched, checkpoint_created, pipeline_failed,
}
use lex_mind.Pipeline.Executor.{
  fail_pipeline, roll_back, checkpoint_stage, Ending, Rest, StagesRun, after_stage, after_validate,
  stages_loop, run_stage, stopped, raised, through,
}
use lex_mind.Pipeline.Executor.Traces.{Touched, starts, saves}
use lex_mind.Pipeline.Executor.Attempts.{run_stage-Attempts}
use lex_mind.Common.{
  ℕ, String, Bool, true, false, ◌≡◌, refl, sym, ◌∙◌, ap, subst, inl, inr, some, List, [], ◌∷◌, ◌++◌,
  arith, any, any-append, contains, contains-append, Bool-cases, eq_iff, eq_refl, ◌==◌, if_true,
  if_false,
}
use lex_mind.Common.Dict.{get, get-put, Dict}
use lex_mind.Common.Effect.{ok, err, Outcome}

-- while a run that found `done` completed holds `c`: no stage of `done` was started, and what was
-- saved is in `c`, which the store has
pub record Tracks (done : List String) (c : Checkpoint) (s : Run) : Type 0 where
  pub fresh : (id : String) → contains done id ≡ true → any (starts id) s.emitted ≡ false
  pub stored :
      (id : String)
      → any (saves id) s.emitted ≡ true
      → (contains c.completed_stages id ≡ true) × (get s.checkpoints c.pipeline_id ≡ some c)

module _ {done : List String} {c : Checkpoint} where
  -- a step that changes neither the log nor the store
  pub quiet-Tracks :
      (s t : Run)
      → t.checkpoints ≡ s.checkpoints
      → t.emitted ≡ s.emitted
      → Tracks done c s
      → Tracks done c t
  quiet-Tracks s t same_store same_log h = record {
    fresh = λ id known. ap (any (starts id)) same_log ∙ h.fresh id known;
    stored = λ id saved.
        let (held, there) = h.stored id (sym (ap (any (saves id)) same_log) ∙ saved) in
        (held, ap (λ d. get d c.pipeline_id) same_store ∙ there);
  }

  -- an event that starts and saves nothing
  pub Tracks-emit :
      (e : PipelineEvent) (s : Run)
      → ((id : String) → starts id e ≡ false)
      → ((id : String) → saves id e ≡ false)
      → Tracks done c s
      → Tracks done c (emit e s)
  unfolding emit any
  Tracks-emit e s no_start no_save h = record {
    fresh = λ id known.
        ground (arith, any-append (starts id) s.emitted (e ∷ []), no_start id, h.fresh id known);
    stored = λ id saved.
        h.stored id (ground (arith, any-append (saves id) s.emitted (e ∷ []), no_save id));
  }

  -- the run of a stage that was not completed
  Tracks-Touched :
      (stage : String) (s t : Run)
      → contains done stage ≡ false
      → Touched stage s t
      → Tracks done c s
      → Tracks done c t
  Tracks-Touched stage s t new w h = record {
    fresh = λ id known. elim (Bool-cases (stage == id)) [
      | inl same ↦ absurd (clash id same known)
      | inr other ↦ w.started id other ∙ h.fresh id known
    ];
    stored = λ id saved.
        let (held, there) = h.stored id (sym (w.saved id) ∙ saved) in
        (held, ap (λ d. get d c.pipeline_id) w.checkpoints ∙ there);
  }
    where
      clash : (id : String) → (stage == id) ≡ true → contains done id ≡ true → ⊥
      clash id same known =
          let other : contains done id ≡ false =
            subst (λ x. contains done x ≡ false) ((eq_iff stage id).0 same) new in
          cc

with_stage-keeps :
    (stage id : String) (shared : Dict String) (time : ℕ) (c : Checkpoint)
    → contains c.completed_stages id ≡ true
    → contains (with_stage stage shared time c).completed_stages id ≡ true
unfolding with_stage
with_stage-keeps stage id shared time c known =
    ground (arith, contains-append c.completed_stages (stage ∷ []) id)

with_stage-adds :
    (stage : String) (shared : Dict String) (time : ℕ) (c : Checkpoint)
    → contains (with_stage stage shared time c).completed_stages stage ≡ true
unfolding with_stage contains
with_stage-adds stage shared time c =
    ground (arith, contains-append c.completed_stages (stage ∷ []) stage, eq_refl stage)

module _ (now timer : ℕ → ℕ) (done : List String) where
  Tracks-checkpoint :
      (stage : Stage) (c : Checkpoint) (s : Run)
      → Tracks done c s
      → let (c', s') = checkpoint_stage now timer stage c s in
        Tracks done c' s' × (c'.pipeline_id ≡ c.pipeline_id)
  unfolding checkpoint_stage emit save any
  Tracks-checkpoint stage c s h =
      let e = checkpoint_created stage.id in
      let shared = s.context.bench.shared in
      let time = now s.readings in
      let c' = with_stage stage.id shared time c in
      let known : (id : String)
          → any (saves id) (s.emitted ++ e ∷ []) ≡ true
          → contains c'.completed_stages id ≡ true =
        λ id saved. elim (Bool-cases (any (saves id) s.emitted)) [
          | inl before ↦ with_stage-keeps stage.id id shared time c (h.stored id before).0
          | inr after ↦
              let same : (stage.id == id) ≡ true =
                ground (arith, any-append (saves id) s.emitted (e ∷ [])) in
              subst (λ x. contains c'.completed_stages x ≡ true) ((eq_iff stage.id id).0 same)
                (with_stage-adds stage.id shared time c)
        ] in
      (
        record {
          fresh = λ id k. ground (arith, any-append (starts id) s.emitted (e ∷ []), h.fresh id k);
          stored = λ id saved. (
            known id saved,
            get-put s.checkpoints c'.pipeline_id c'.pipeline_id c'
                ∙ rw (eq_refl c'.pipeline_id) refl,
          );
        },
        refl,
      )

  -- a loop from the checkpoint `c` ends, and the run still tracks what it saved
  abbrev Tracked : Checkpoint → StagesRun now timer → Type 0
  Tracked c run =
      (e : Ending) × (rs : List StageResult) × (s : Run) × (c' : Checkpoint) × (run
        ≡ some (e, rs, s))
      × Tracks done c' s
      × (c'.pipeline_id ≡ c.pipeline_id)

  after_stage-Tracked :
      (rest : Rest now timer) (stage : Stage) (c : Checkpoint) (results : List StageResult)
      (s : Run)
      → ((c' : Checkpoint) (rs : List StageResult) (t : Run)
          → Tracks done c' t
          → Tracked c' (rest c' rs t))
      → contains done stage.id ≡ false
      → Tracks done c s
      → Tracked c (after_stage now timer rest stage c results (run_stage now timer stage s))
  unfolding fail_pipeline roll_back
  after_stage-Tracked rest stage c results s go new h =
      let (r, t, runs, w) = run_stage-Attempts now timer stage s in
      let k = Tracks-Touched stage.id s t new w.touched h in
      elim (Bool-cases r.success) [
        | inl success ↦
            let (k', same) = Tracks-checkpoint stage c t k in
            let (c2, t2) = checkpoint_stage now timer stage c t in
            let (e, rs, u, c', went, m, kept) = go c2 (results ++ r ∷ []) t2 k' in
            (e, rs, u, c', rw (runs, success) went, m, kept ∙ same)
        | inr failure ↦
            let bench = (stage.rollback t.calls t.context.bench).1 in
            (
              stopped,
              results ++ r ∷ [],
              fail_pipeline now timer stage t,
              c,
              rw (runs, failure) refl,
              Tracks-emit (pipeline_failed t.context.pipeline_id stage.id) (benched bench t)
                  (λ id. refl) (λ id. refl) (quiet-Tracks t (benched bench t) refl refl k),
              refl,
            )
      ]

  after_validate-Tracked :
      (rest : Rest now timer) (stage : Stage) (c : Checkpoint) (results : List StageResult)
      (answer : Outcome RunError Bool × Workbench) (s : Run)
      → ((c' : Checkpoint) (rs : List StageResult) (t : Run)
          → Tracks done c' t
          → Tracked c' (rest c' rs t))
      → contains done stage.id ≡ false
      → Tracks done c s
      → Tracked c (after_validate now timer rest stage c results answer s)
  unfolding mark_skipped
  after_validate-Tracked rest stage c results (err e, bench) s go new h =
      let t = benched bench s in (raised e, results, t, c, refl, quiet-Tracks s t refl refl h, refl)
  after_validate-Tracked rest stage c results (ok false, bench) s go new h =
      let t = mark_skipped stage.id (benched bench s) in go c _ t (quiet-Tracks s t refl refl h)
  after_validate-Tracked rest stage c results (ok true, bench) s go new h =
      let t = benched bench s in
      after_stage-Tracked rest stage c results t go new (quiet-Tracks s t refl refl h)

  pub stages_loop-Tracked :
      (l : List Stage) (c : Checkpoint) (results : List StageResult) (s : Run)
      → Tracks done c s
      → Tracked c (stages_loop now timer done l c results s)
  unfolding stages_loop
  stages_loop-Tracked [] c results s h = (through, results, s, c, refl, h, refl)
  stages_loop-Tracked (stage ∷ l) c results s h = elim (Bool-cases (contains done stage.id)) [
    | inl known ↦ rw known (stages_loop-Tracked l c _ s h)
    | inr new ↦ elim (Bool-cases s.context.bench.cancellation_token.is_cancelled) [
      | inl stop ↦ (raised cancelled, results, s, c, rw new (if_true _ _ stop), h, refl)
      | inr on ↦
          let (e, rs, u, c', went, m, kept) =
            after_validate-Tracked (stages_loop now timer done l) stage c results
              (stage.validate s.calls s.context.bench) s
              (λ c' rs t k. stages_loop-Tracked l c' rs t k) new h in
          (e, rs, u, c', rw new (if_false _ _ on ∙ went), m, kept)
    ]
  ]
