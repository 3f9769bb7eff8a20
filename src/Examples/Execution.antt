-- ===== src/Examples/Execution.antt =====
-- The theorems about the execution of a pipeline, on a stage that works and one that fails twice.
use lex_mind.Pipeline.Retry.{no_retry, immediate}
use lex_mind.Pipeline.Stage.{Stage, StageResult, PipelineResult, skipped_result, completed}
use lex_mind.Pipeline.Run.{Run, PipelineContext}
use lex_mind.Pipeline.Executor.{Pipeline, ExecuteError, execute, run_stage}
use lex_mind.Pipeline.Executor.Attempts.{run_stage_ends, count_if}
use lex_mind.Pipeline.Executor.Resume.{resume_skips}
use lex_mind.Pipeline.Executor.Traces.{metrics_at, starts, saves}
use lex_mind.Common.{
  ℕ, ◌+◌, ◌≤◌, String, true, false, ◌≡◌, refl, none, some, [], ◌∷◌, any, ltb, if◌then◌else◌, ◌&&◌,
}
use lex_mind.Common.Dict.{Dict, get}
use lex_mind.Common.Effect.{ok, err, Outcome}

abbrev clock : ℕ → ℕ
clock n = n + 100

abbrev done_with : String → StageResult
done_with id = record (skipped_result id "") { status = completed; warnings = [] }

abbrev validation : Stage
validation = record {
  id = "document_validation";
  dependencies = [];
  retry_policy = no_retry;
  validate = λ n bench. (ok true, bench);
  execute = λ n bench. (ok (done_with "document_validation"), bench);
  rollback = λ n bench. (ok tt, bench);
}

abbrev third_time : ℕ → Outcome String StageResult
third_time n = if ltb n 5 then err "engine busy" else ok (done_with "ocr")

abbrev ocr : Stage
ocr = record {
  id = "ocr";
  dependencies = "document_validation" ∷ [];
  retry_policy = record no_retry { strategy = immediate; max_attempts = 2 };
  validate = λ n bench. (ok true, bench);
  execute = λ n bench. (third_time n, bench);
  rollback = λ n bench. (err "nothing to undo", bench);
}

abbrev registry : Dict Stage
registry = ("document_validation", validation) ∷ ("ocr", ocr) ∷ []

abbrev pipeline : Pipeline
pipeline = record { name = "default"; stage_order = "document_validation" ∷ "ocr" ∷ [] }

abbrev context : PipelineContext
context = record {
  pipeline_id = "p1";
  document_id = "d1";
  statistics = record {
    start_time = none;
    end_time = none;
    skipped_stages = [];
    stage_metrics = [];
  };
  bench = record {
    shared = [];
    cancellation_token = record { is_cancelled = false; reason = none };
  };
}

abbrev start : Run
start = record {
  context = context;
  checkpoints = [];
  emitted = [];
  sleeps = [];
  readings = 0;
  ticks = 0;
  calls = 0;
}

run_stage_ends_example :
    (r : StageResult) × (s' : Run) × (run_stage clock clock ocr start ≡ some (r, s'))
    × (1 ≤ r.attempts)
    × (r.attempts ≤ 2)
    × (r.success ≡ false → r.attempts ≡ 2)
    × ((metrics_at "ocr" s').retries + 1 ≡ (metrics_at "ocr" start).retries + r.attempts)
    × ((metrics_at "ocr" s').failures + count_if r.success
        ≡ (metrics_at "ocr" start).failures + r.attempts)
    × (s'.checkpoints ≡ start.checkpoints)
run_stage_ends_example = run_stage_ends clock clock ocr start

resume_skips_example :
    (o : Outcome ExecuteError PipelineResult) × (t : Run) × (execute clock clock registry pipeline
        false start
      ≡ some (o, t))
    × (o' : Outcome ExecuteError PipelineResult) × (u : Run) × (execute clock clock registry
          pipeline true
          (record t { context = context; emitted = [] })
        ≡ some (o', u))
    × ((id : String) → (any (saves id) t.emitted && any (starts id) u.emitted) ≡ false)
unfolding get
resume_skips_example =
    resume_skips clock clock registry registry pipeline pipeline false start context refl
      (λ id c found. cc) refl
