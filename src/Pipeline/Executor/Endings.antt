-- ===== src/Pipeline/Executor/Endings.antt =====
-- How a run ends, and what its result says of the stages.
use lex_mind.Pipeline.Stage.{
  Stage, StageResult, PipelineResult, RunError, cancelled, Workbench, skipped_result,
}
use lex_mind.Pipeline.Checkpoint.{Checkpoint}
use lex_mind.Pipeline.Run.{Run}
use lex_mind.Pipeline.Executor.{
  from_stage, Pipeline, Ending, ExecuteError, Rest, StagesRun, run_stage, initial_checkpoint,
  through, stopped, raised, timed, PipelineError, validate_dependencies,
}
use lex_mind.Common.{ℕ, Bool, true, false, ◌≡◌, ◌⊎◌, some, List, [], ◌∷◌, ◌++◌, String, contains}
use lex_mind.Common.Dict.{Dict}
use lex_mind.Common.Effect.{ok, err, Outcome}
use lex_mind.Pipeline.Registry.{PipelineError, validate_dependencies}

module _ (now timer : ℕ → ℕ) (done : List String) where
  -- what may be the result of a stage: it was completed before, it did not validate, or it was run
  abbrev pub ResultOf : Stage → StageResult → Type 0
  ResultOf stage r =
      ((contains done stage.id ≡ true) × (r ≡ skipped_result stage.id "already completed"))
      ⊎ ((n : ℕ) × (bench bench' : Workbench) × (stage.validate n bench ≡ (ok false, bench'))
          × (r ≡ skipped_result stage.id "validate() returned False"))
      ⊎ ((s t : Run) × (run_stage now timer stage s ≡ some (r, t)))

  -- the stages of a list up to `rest` have these results, one each and in their order, all successes
  pub data Answers : List Stage → List StageResult → List Stage → Type 0 where
    none_yet : {l : List Stage} → Answers l [] l
    answered :
        {stage : Stage} {l : List Stage} {r : StageResult} {rs : List StageResult}
        {rest : List Stage}
        → ResultOf stage r
        → r.success ≡ true
        → Answers l rs rest
        → Answers (stage ∷ l) (r ∷ rs) rest

  -- the stage's `validate` raises an error with this message
  abbrev pub Raises : Stage → String → Type 0
  Raises stage message =
      (n : ℕ) × (bench bench' : Workbench) × (stage.validate n bench
        ≡ (err (RunError.other message), bench'))

  -- the results of a loop over these stages that got through, that stopped at one of them, that was
  -- cancelled before one of them, whose `validate` raised
  abbrev pub Fits : Ending → List Stage → List StageResult → Type 0
  Fits through l rs = Answers l rs []
  Fits stopped l rs =
      (stage : Stage) × (rest : List Stage) × (before : List StageResult) × (last : StageResult)
      × (rs ≡ before ++ last ∷ [])
      × Answers l before (stage ∷ rest)
      × ResultOf stage last
      × (last.success ≡ false)
  Fits (raised cancelled) l rs = (stage : Stage) × (rest : List Stage) × Answers l rs (stage ∷ rest)
  Fits (raised (RunError.other message)) l rs =
      (stage : Stage) × (rest : List Stage) × Answers l rs (stage ∷ rest) × Raises stage message

  abbrev Fitting : List Stage → List StageResult → StagesRun now timer → Type 0
  Fitting l rs run =
      (e : Ending) × (new : List StageResult) × (s : Run) × (run ≡ some (e, rs ++ new, s))
      × Fits e l new

  abbrev Continues : List Stage → Rest now timer → Type 0
  Continues l rest = (c : Checkpoint) (rs : List StageResult) (s : Run) → Fitting l rs (rest c rs s)

  -- what the outcome of `execute` says of the stages
  abbrev pub Tells : Outcome ExecuteError PipelineResult → List Stage → Type 0
  Tells (err e) l =
      (message : String) × (rs : List StageResult) × (e ≡ from_stage message)
      × Fits (raised (RunError.other message)) l rs
  Tells (ok r) l =
      ((r.completed ≡ true) × Fits through l r.stage_results)
      ⊎ ((r.completed ≡ false)
          × (Fits stopped l r.stage_results ⊎ Fits (raised cancelled) l r.stage_results))

module _ (now timer : ℕ → ℕ) where
  abbrev begun : Run → Run
  begun s = timed now timer (λ time st. record st { start_time = some time }) s

  -- the stages that the checkpoint at the start has as completed
  abbrev pub done_before : Bool → Run → List String
  done_before resume s = (initial_checkpoint now timer resume (begun s)).0.completed_stages
