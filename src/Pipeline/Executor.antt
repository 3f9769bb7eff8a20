-- ===== src/Pipeline/Executor.antt =====
-- backend/lexmind/pipeline/pipeline_executor.py, with pipeline.py. The loop of attempts
-- runs on fuel; `none` means that the fuel ran out.
pub mod Traces
pub mod Attempts
pub mod Tracks
pub mod Resume
pub mod Endings
use lex_mind.Pipeline.Retry.{should_retry, delay_for}
use lex_mind.Pipeline.Stage.{
  Stage, StageResult, PipelineResult, Workbench, RunError, cancelled, failed_result, skipped_result,
}
use lex_mind.Pipeline.Registry.{PipelineError, get_stage, validate_dependencies}
use lex_mind.Pipeline.Checkpoint.{Checkpoint, new_checkpoint, with_stage, save, restore}
use lex_mind.Pipeline.Run.{
  with_statistics, or_default, measure, pipeline_started, stage_failed, PipelineStatistics, slept,
  checkpoint_created, mark_skipped, emit, pipeline_cancelled, pipeline_failed, joined, benched,
  stage_started, Run, pipeline_completed, stage_completed, StageMetrics,
}
use lex_mind.Common.{
  ℕ, zero, suc, ◌+◌, ◌-◌, String, Bool, true, false, Option, none, some, List, [], ◌∷◌, ◌++◌, ◌==◌,
  if◌then◌else◌, contains, ltb,
}
use lex_mind.Common.Texts.{concat}
use lex_mind.Common.Dict.{Dict, get, put, has}
use lex_mind.Common.Effect.{ok, err, Outcome}

-- pipeline.py: the registry is shared, and given to each method
pub record Pipeline : Type 0 where
  pub name : String
  pub stage_order : List String

abbrev pub found_stages : Outcome PipelineError Stage → List Stage → List Stage
found_stages (ok stage) rest = stage ∷ rest
found_stages (err e) rest = rest

-- `Pipeline.stages`: what is not registered is passed over
unfoldable pub stages_in : Dict Stage → List String → List Stage
stages_in registry [] = []
stages_in registry (id ∷ l) = found_stages (get_stage id registry) (stages_in registry l)

-- how the loop over the stages ends: it gets through, it returns after a failure, it raises
pub data Ending : Type 0 where
  through stopped : Ending
  raised : RunError → Ending

-- a raise of `execute`: by the check of the dependencies, or by a stage's `validate`
pub data ExecuteError : Type 0 where
  invalid_pipeline : PipelineError → ExecuteError
  from_stage : String → ExecuteError

-- `now` and `timer` give the n-th readings of `datetime.now` and `perf_counter`
module _ (now timer : ℕ → ℕ) where
  -- the clock is read and the reading goes to the metrics
  abbrev pub stamped : String → (ℕ → StageMetrics → StageMetrics) → Run → Run
  stamped id f s = record (measure id (f (now s.readings)) s) { readings = s.readings + 1 }

  abbrev pub StageRun : Type 0
  StageRun = Option (StageResult × Run)

  -- the end of a round that failed
  abbrev pub after_failure : (ℕ → Run → StageRun) → Stage → ℕ → String → Run → StageRun
  after_failure loop stage attempt error s =
      let s' =
        emit (stage_failed stage.id attempt error)
          (measure stage.id (λ m. record m { failures = m.failures + 1 }) s) in
      if should_retry stage.retry_policy attempt
      then loop attempt (
          slept (delay_for stage.retry_policy (attempt + 1))
            (measure stage.id (λ m. record m { retries = m.retries + 1 }) s'))
      else some (record (failed_result stage.id error) { attempts = attempt }, s')

  abbrev pub finished_at : ℕ → StageMetrics → StageMetrics
  finished_at time m = record m { end_time = some time }

  -- from the outcome of `stage.execute`; `elapsed` is the difference of the two timer readings
  abbrev pub after_execute :
      (ℕ → Run → StageRun) → Stage → ℕ → Outcome String StageResult × Workbench → Run → StageRun
  after_execute loop stage attempt (err message, bench) s =
      after_failure loop stage attempt message (stamped stage.id finished_at (benched bench s))
  after_execute loop stage attempt (ok result, bench) s =
      let elapsed = timer s.ticks - timer (s.ticks - 1) in
      let s' =
        record (stamped stage.id
          (λ time m. record (finished_at time m) { cpu_time_seconds = elapsed })
          (benched bench s)) { ticks = s.ticks + 1 } in
      let result' = record result { attempts = attempt; execution_time_seconds = elapsed } in
      if result.success
      then some (result', emit (stage_completed stage.id) s')
      else after_failure loop stage attempt (or_default (joined result.errors)) s'

  -- what comes before the call of `stage.execute`
  unfoldable pub begin : Stage → ℕ → Run → Run
  unfolding emit measure
  begin stage attempt s =
      record (stamped stage.id (λ time m. record m { start_time = some time })
        (emit (stage_started stage.id attempt) s)) { ticks = s.ticks + 1 }

  -- `attempt` is the number of attempts made before
  unfoldable pub attempts_loop : Stage → ℕ → ℕ → Run → StageRun
  unfolding begin emit measure
  attempts_loop stage zero attempt s = none
  attempts_loop stage (suc fuel) attempt s =
      let s' = begin stage (attempt + 1) s in
      after_execute (attempts_loop stage fuel) stage (attempt + 1)
        (stage.execute s.calls s.context.bench) s'

  -- `_run_stage`
  unfoldable pub run_stage : Stage → Run → StageRun
  unfolding attempts_loop measure
  run_stage stage s =
      attempts_loop stage (suc stage.retry_policy.max_attempts) 0 (measure stage.id (λ m. m) s)

  abbrev pub StagesRun : Type 0
  StagesRun = Option (Ending × List StageResult × Run)

  -- `_rollback`: what it raises is dropped
  unfoldable pub roll_back : Stage → Run → Run
  roll_back stage s = benched (stage.rollback s.calls s.context.bench).1 s

  -- after a stage that succeeded
  unfoldable pub checkpoint_stage : Stage → Checkpoint → Run → Checkpoint × Run
  unfolding emit with_stage save
  checkpoint_stage stage c s =
      let c' = with_stage stage.id s.context.bench.shared (now s.readings) c in
      (
        c',
        emit (checkpoint_created stage.id)
            (record s { checkpoints = save c' s.checkpoints; readings = s.readings + 1 }),
      )

  unfoldable pub fail_pipeline : Stage → Run → Run
  unfolding roll_back emit
  fail_pipeline stage s = emit (pipeline_failed s.context.pipeline_id stage.id) (roll_back stage s)

  abbrev pub Rest : Type 0
  Rest = Checkpoint → List StageResult → Run → StagesRun

  abbrev pub go_on : Rest → List StageResult → Checkpoint × Run → StagesRun
  go_on rest results (c, s) = rest c results s

  -- from what `_run_stage` made of a stage
  abbrev pub after_stage : Rest → Stage → Checkpoint → List StageResult → StageRun → StagesRun
  after_stage rest stage c results none = none
  after_stage rest stage c results (some (r, s)) =
      if r.success
      then go_on rest (results ++ r ∷ []) (checkpoint_stage stage c s)
      else some (stopped, results ++ r ∷ [], fail_pipeline stage s)

  -- from the outcome of `stage.validate`
  abbrev pub after_validate :
      Rest
      → Stage
      → Checkpoint
      → List StageResult
      → Outcome RunError Bool × Workbench
      → Run
      → StagesRun
  after_validate rest stage c results (err e, bench) s = some (raised e, results, benched bench s)
  after_validate rest stage c results (ok false, bench) s =
      rest c (results ++ skipped_result stage.id "validate() returned False" ∷ [])
        (mark_skipped stage.id (benched bench s))
  after_validate rest stage c results (ok true, bench) s =
      after_stage rest stage c results (run_stage stage (benched bench s))

  unfoldable pub stages_loop : List String → List Stage → Rest
  unfolding run_stage checkpoint_stage fail_pipeline mark_skipped
  stages_loop done [] c results s = some (through, results, s)
  stages_loop done (stage ∷ l) c results s =
      if contains done stage.id
      then stages_loop done l c (results ++ skipped_result stage.id "already completed" ∷ []) s
      else if s.context.bench.cancellation_token.is_cancelled
      then some (raised cancelled, results, s)
      else after_validate (stages_loop done l) stage c results
          (stage.validate s.calls s.context.bench) s

  -- `shared.update(existing.shared)`
  abbrev pub update : Dict String → Dict String → Dict String
  update shared [] = shared
  update shared ((k, v) ∷ l) = update (put shared k v) l

  abbrev pub fresh_checkpoint : Run → Checkpoint × Run
  fresh_checkpoint s = (
    new_checkpoint s.context.pipeline_id s.context.document_id (now s.readings),
    record s { readings = s.readings + 1 },
  )

  abbrev pub resumed_from : Run → Option Checkpoint → Checkpoint × Run
  resumed_from s none = fresh_checkpoint s
  resumed_from s (some c) = (
    c,
    record s {
      context = record s.context {
        bench = record s.context.bench { shared = update s.context.bench.shared c.shared };
      };
    },
  )

  -- `_initial_checkpoint`
  unfoldable pub initial_checkpoint : Bool → Run → Checkpoint × Run
  unfolding restore
  initial_checkpoint false s = fresh_checkpoint s
  initial_checkpoint true s = resumed_from s (restore s.context.pipeline_id s.checkpoints)

  abbrev pub timed : (ℕ → PipelineStatistics → PipelineStatistics) → Run → Run
  timed f s = record (with_statistics (f (now s.readings)) s) { readings = s.readings + 1 }

  -- the `finally` clause
  unfoldable pub finish : Run → Run
  finish = timed (λ time st. record st { end_time = some time })

  abbrev pub Execution : Type 0
  Execution = Option (Outcome ExecuteError PipelineResult × Run)

  abbrev pub result_of : Run → List StageResult → Bool → PipelineResult
  result_of s results done = record {
    pipeline_id = s.context.pipeline_id;
    document_id = s.context.document_id;
    stage_results = results;
    completed = done;
  }

  -- the end of `execute`, from that of the loop
  unfoldable pub end_run : StagesRun → Execution
  unfolding emit finish
  end_run none = none
  end_run (some (through, results, s)) =
      some
        (ok (result_of s results true), emit (pipeline_completed s.context.pipeline_id) (finish s))
  end_run (some (stopped, results, s)) = some (ok (result_of s results false), finish s)
  end_run (some (raised cancelled, results, s)) =
      some
        (ok (result_of s results false), finish (emit (pipeline_cancelled s.context.pipeline_id) s))
  end_run (some (raised (RunError.other e), results, s)) = some (err (from_stage e), finish s)

  -- the rest of `execute`, once the pipeline is found valid
  unfoldable pub run_valid : List Stage → Bool → Run → Execution
  unfolding emit end_run stages_loop initial_checkpoint
  run_valid stages resume s =
      let (c, s') =
        initial_checkpoint resume (timed (λ time st. record st { start_time = some time }) s) in
      end_run (
        stages_loop c.completed_stages stages c []
          (emit (pipeline_started s.context.pipeline_id) s'))

  abbrev pub checked_run :
      Option (Outcome PipelineError (Unit {0})) → List Stage → Bool → Run → Execution
  checked_run none stages resume s = none
  checked_run (some (err e)) stages resume s = some (err (invalid_pipeline e), s)
  checked_run (some (ok tt)) stages resume s = run_valid stages resume s

  unfoldable pub execute : Dict Stage → Pipeline → Bool → Run → Execution
  unfolding run_valid stages_in validate_dependencies
  execute registry p resume s =
      checked_run (validate_dependencies registry) (stages_in registry p.stage_order) resume s
