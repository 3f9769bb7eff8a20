-- ===== src/Pipeline/Executor/Resume.antt =====
-- What a run that is resumed executes, whatever its stages do.
use lex_mind.Pipeline.Stage.{Stage, StageResult, RunError, cancelled, PipelineResult}
use lex_mind.Pipeline.Checkpoint.{Checkpoint, restore}
use lex_mind.Pipeline.Run.{
  Run, emit, pipeline_completed, pipeline_started, pipeline_cancelled, PipelineContext,
}
use lex_mind.Pipeline.Executor.{
  Ending, stopped, raised, through, end_run, initial_checkpoint, run_valid, finish, timed,
  ExecuteError, PipelineResult, result_of, from_stage, execute, Pipeline, invalid_pipeline,
  stages_in, resumed_from,
}
use lex_mind.Pipeline.Executor.Traces.{starts, saves}
use lex_mind.Common.{
  ℕ, String, Bool, true, false, ◌≡◌, refl, sym, ◌∙◌, ap, inl, inr, some, List, [], arith, any,
  contains, Bool-cases, ◌&&◌, Option-cases, Option, none,
}
use lex_mind.Common.Dict.{get, Dict}
use lex_mind.Common.Effect.{ok, err, Outcome}
use lex_mind.Pipeline.Registry.Order.{validate_dependencies-ends}
use lex_mind.Pipeline.Executor.Tracks.{Tracks, Tracks-emit, quiet-Tracks, stages_loop-Tracked}

module _ (now timer : ℕ → ℕ) where
  -- from a state that tracks `c`, the end of the run is reached, and tracks it too
  end_run-Tracks :
      (done : List String) (c : Checkpoint) (e : Ending) (rs : List StageResult) (s : Run)
      → Tracks done c s
      → (o : Outcome ExecuteError PipelineResult) × (t : Run) × (end_run now timer (some (e, rs, s))
          ≡ some (o, t))
        × Tracks done c t
  unfolding end_run finish
  end_run-Tracks done c through rs s h =
      let t = finish now timer s in
      let e = pipeline_completed s.context.pipeline_id in
      (
        ok (result_of now timer s rs true),
        emit e t,
        refl,
        Tracks-emit e t (λ id. refl) (λ id. refl) (quiet-Tracks s t refl refl h),
      )
  end_run-Tracks done c stopped rs s h =
      let t = finish now timer s in
      (ok (result_of now timer s rs false), t, refl, quiet-Tracks s t refl refl h)
  end_run-Tracks done c (raised cancelled) rs s h =
      let e = pipeline_cancelled s.context.pipeline_id in
      let t = finish now timer (emit e s) in
      (
        ok (result_of now timer s rs false),
        t,
        refl,
        quiet-Tracks (emit e s) t refl refl (Tracks-emit e s (λ id. refl) (λ id. refl) h),
      )
  end_run-Tracks done c (raised (RunError.other m)) rs s h =
      let t = finish now timer s in (err (from_stage m), t, refl, quiet-Tracks s t refl refl h)

  -- the checkpoint that a run starts from
  abbrev pub start_of : Bool → Run → Checkpoint
  start_of resume s =
      (initial_checkpoint now timer resume
        (timed now timer (λ time st. record st { start_time = some time }) s)).0

  initial-kept :
      (resume : Bool) (s : Run)
      → ((initial_checkpoint now timer resume s).1.emitted ≡ s.emitted)
        × ((initial_checkpoint now timer resume s).1.checkpoints ≡ s.checkpoints)
  unfolding initial_checkpoint restore
  initial-kept false s = (refl, refl)
  initial-kept true s = ground (arith, get s.checkpoints s.context.pipeline_id)

  empty-Tracks : (done : List String) (c : Checkpoint) (s : Run) → s.emitted ≡ [] → Tracks done c s
  unfolding any
  empty-Tracks done c s empty = record {
    fresh = λ id known. rw empty refl;
    stored =
        λ id saved. let nothing : any (saves id) s.emitted ≡ false = rw empty refl in absurd cc;
  }

  run_valid-Tracks :
      (stages : List Stage) (resume : Bool) (s : Run)
      → s.emitted ≡ []
      → (o : Outcome ExecuteError PipelineResult) × (t : Run) × (c : Checkpoint) × (run_valid now
            timer stages resume s
          ≡ some (o, t))
        × Tracks (start_of resume s).completed_stages c t
        × (c.pipeline_id ≡ (start_of resume s).pipeline_id)
  unfolding run_valid
  run_valid-Tracks stages resume s empty =
      let s1 = timed now timer (λ time st. record st { start_time = some time }) s in
      let (c, s2) = initial_checkpoint now timer resume s1 in
      let e = pipeline_started s1.context.pipeline_id in
      let done = c.completed_stages in
      let h =
        Tracks-emit e s2 (λ id. refl) (λ id. refl)
          (empty-Tracks done c s2 ((initial-kept resume s1).0 ∙ empty)) in
      let (g, rs, u, c', went, m, kept) =
        stages_loop-Tracked now timer done stages c [] (emit e s2) h in
      let (o, t, ended, k) = end_run-Tracks done c' g rs u m in
      (o, t, c', ap (end_run now timer) went ∙ ended, k, kept)

-- a store whose checkpoints stand under their own ids, as `save` puts them
abbrev pub IsKeyed : Dict Checkpoint → Type 0
IsKeyed store = (id : String) (c : Checkpoint) → get store id ≡ some c → c.pipeline_id ≡ id

module _ (now timer : ℕ → ℕ) where
  start_of_found :
      (s : Run) (found : Option Checkpoint)
      → get s.checkpoints s.context.pipeline_id ≡ found
      → start_of now timer true s
        ≡ (resumed_from now timer
            (timed now timer (λ time st. record st { start_time = some time }) s)
            found).0
  unfolding initial_checkpoint restore
  start_of_found s found look =
      ap
        (λ (f : Option Checkpoint).
          (resumed_from now timer
            (timed now timer (λ time st. record st { start_time = some time }) s) f).0)
        look

  start_of-id :
      (resume : Bool) (s : Run)
      → IsKeyed s.checkpoints
      → (start_of now timer resume s).pipeline_id ≡ s.context.pipeline_id
  unfolding initial_checkpoint
  start_of-id false s keyed = refl
  start_of-id true s keyed = elim (Option-cases (get s.checkpoints s.context.pipeline_id)) [
    | inl out ↦ ap (λ (c : Checkpoint). c.pipeline_id) (start_of_found s none out)
    | inr (c, found) ↦
        ap (λ (c : Checkpoint). c.pipeline_id) (start_of_found s (some c) found)
        ∙ keyed s.context.pipeline_id c found
  ]

  execute-Tracks :
      (registry : Dict Stage) (p : Pipeline) (resume : Bool) (s : Run)
      → s.emitted ≡ []
      → (o : Outcome ExecuteError PipelineResult) × (t : Run) × (c : Checkpoint) × (execute now
            timer registry p resume s
          ≡ some (o, t))
        × Tracks (start_of now timer resume s).completed_stages c t
        × (c.pipeline_id ≡ (start_of now timer resume s).pipeline_id)
  unfolding execute
  execute-Tracks registry p resume s empty = elim (validate_dependencies-ends registry) [
    | inl (e, refused) ↦
        let c = start_of now timer resume s in
        (
          err (invalid_pipeline e),
          s,
          c,
          rw refused refl,
          empty-Tracks now timer c.completed_stages c s empty,
          refl,
        )
    | inr valid ↦
        let (o, t, c, runs, h, same) =
          run_valid-Tracks now timer (stages_in registry p.stage_order) resume s empty in
        (o, t, c, rw valid runs, h, same)
  ]

-- After a run of a pipeline that started with an empty log, however it ended and whatever its
-- stages did, a run that resumes under the same pipeline id, of any stages and with any context,
-- starts no stage for which the first run saved a checkpoint. Both runs come to an end. The store
-- at the start has each checkpoint under its own id.
pub resume_skips :
    (now timer : ℕ → ℕ) (registry registry' : Dict Stage) (p p' : Pipeline) (resume : Bool)
    (s : Run) (context : PipelineContext)
    → s.emitted ≡ []
    → IsKeyed s.checkpoints
    → context.pipeline_id ≡ s.context.pipeline_id
    → (o : Outcome ExecuteError PipelineResult) × (t : Run) × (execute now timer registry p resume s
        ≡ some (o, t))
      × (o' : Outcome ExecuteError PipelineResult) × (u : Run) × (execute now timer registry' p'
            true
            (record t { context = context; emitted = [] })
          ≡ some (o', u))
      × ((id : String) → (any (saves id) t.emitted && any (starts id) u.emitted) ≡ false)
resume_skips now timer registry registry' p p' resume s context empty keyed same =
    let (o, t, c, runs, h, kept) = execute-Tracks now timer registry p resume s empty in
    let again : Run = record t { context = context; emitted = [] } in
    let (o', u, c', runs', h', kept') = execute-Tracks now timer registry' p' true again refl in
    let key : c.pipeline_id ≡ context.pipeline_id =
      kept ∙ start_of-id now timer resume s keyed ∙ sym same in
    (
      o,
      t,
      runs,
      o',
      u,
      runs',
      λ id. elim (Bool-cases (any (saves id) t.emitted)) [
        | inr unsaved ↦ rw unsaved refl
        | inl saved ↦
            let (held, there) = h.stored id saved in
            let start = start_of_found now timer again (some c) (rw key at there) in
            let known : contains (start_of now timer true again).completed_stages id ≡ true =
              rw start held in
            rw (saved, h'.fresh id known) refl
      ],
    )
