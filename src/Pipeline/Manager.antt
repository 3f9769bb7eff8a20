-- ===== src/Pipeline/Manager.antt =====
-- backend/lexmind/pipeline/pipeline_manager.py, without the hand-over of the events to a bus, which
-- is what the executor emits.
use lex_mind.Pipeline.Stage.{Stage, cancel, pipeline_stage_order}
use lex_mind.Pipeline.Registry.{PipelineError, register}
use lex_mind.Pipeline.Run.{Run}
use lex_mind.Pipeline.Executor.{Pipeline, Execution, execute}
use lex_mind.Common.{ℕ, String, true, false, Option, none, some, List}
use lex_mind.Common.Dict.{Dict}
use lex_mind.Common.Effect.{Outcome}

unfoldable pub register_stage : Stage → Dict Stage → Outcome PipelineError (Dict Stage)
unfolding register
register_stage stage registry = register stage registry

abbrev or_canonical : Option (List String) → List String
or_canonical none = pipeline_stage_order
or_canonical (some order) = order

unfoldable pub create_pipeline : String → Option (List String) → Pipeline
create_pipeline name order = record { name = name; stage_order = or_canonical order }

unfoldable pub run : (now timer : ℕ → ℕ) → Dict Stage → Pipeline → Run → Execution now timer
unfolding execute
run now timer registry p s = execute now timer registry p false s

unfoldable pub resume : (now timer : ℕ → ℕ) → Dict Stage → Pipeline → Run → Execution now timer
unfolding execute
resume now timer registry p s = execute now timer registry p true s

-- `PipelineManager.cancel`
unfoldable pub cancel_run : Option String → Run → Run
unfolding cancel
cancel_run reason s = record s {
  context = record s.context {
    bench = record s.context.bench {
      cancellation_token = cancel reason s.context.bench.cancellation_token;
    };
  };
}
