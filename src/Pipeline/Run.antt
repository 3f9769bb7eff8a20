-- ===== src/Pipeline/Run.antt =====
-- backend/lexmind/pipeline: what a run of the executor keeps and writes, which is the context with the
-- parts of pipeline_statistics.py that a run writes, the events of pipeline_events.py, and the parts of
-- pipeline_executor.py that only write to these. A stage does not touch the statistics of its context.
use lex_mind.Pipeline.Stage.{Workbench}
use lex_mind.Pipeline.Checkpoint.{Checkpoint}
use lex_mind.Common.{
  ℕ, ◌+◌, String, Option, none, some, List, [], ◌∷◌, ◌++◌, ◌==◌, if◌then◌else◌, contains, ltb,
}
use lex_mind.Common.Texts.{concat}
use lex_mind.Common.Dict.{Dict, get, put}

pub record StageMetrics : Type 0 where
  pub start_time : Option ℕ
  pub end_time : Option ℕ
  pub cpu_time_seconds : ℕ
  pub retries : ℕ
  pub failures : ℕ

pub record PipelineStatistics : Type 0 where
  pub start_time : Option ℕ
  pub end_time : Option ℕ
  pub skipped_stages : List String
  pub stage_metrics : Dict StageMetrics

pub record PipelineContext : Type 0 where
  pub pipeline_id : String
  pub document_id : String
  pub statistics : PipelineStatistics
  pub bench : Workbench

-- pipeline_events.py, with the payloads that the executor gives
pub data PipelineEvent : Type 0 where
  pipeline_started pipeline_completed pipeline_cancelled : (pipeline_id : String) → PipelineEvent
  pipeline_failed : (pipeline_id stage : String) → PipelineEvent
  stage_started : (stage : String) → (attempt : ℕ) → PipelineEvent
  stage_completed : (stage : String) → PipelineEvent
  stage_failed : (stage : String) → (attempt : ℕ) → (error : String) → PipelineEvent
  checkpoint_created : (stage : String) → PipelineEvent

-- the context, the checkpoint store, what was emitted, the calls of `sleep`, and the numbers of
-- readings of the two clocks and of calls of stages
pub record Run : Type 0 where
  pub context : PipelineContext
  pub checkpoints : Dict Checkpoint
  pub emitted : List PipelineEvent
  pub sleeps : List ℕ
  pub readings : ℕ
  pub ticks : ℕ
  pub calls : ℕ

unfoldable pub emit : PipelineEvent → Run → Run
emit e s = record s { emitted = s.emitted ++ e ∷ [] }

abbrev pub no_metrics : StageMetrics
no_metrics = record {
  start_time = none;
  end_time = none;
  cpu_time_seconds = 0;
  retries = 0;
  failures = 0;
}

abbrev pub or_fresh : Option StageMetrics → StageMetrics
or_fresh none = no_metrics
or_fresh (some m) = m

abbrev pub with_statistics : (PipelineStatistics → PipelineStatistics) → Run → Run
with_statistics f s = record s {
  context = record s.context { statistics = f s.context.statistics };
}

-- a write to the object that `metrics_for` returns, which is the one in the dictionary
unfoldable pub measure : String → (StageMetrics → StageMetrics) → Run → Run
measure id f = with_statistics (λ st. record st {
  stage_metrics = put st.stage_metrics id (f (or_fresh (get st.stage_metrics id)));
})

-- `PipelineStatistics.mark_skipped`
unfoldable pub mark_skipped : String → Run → Run
mark_skipped id = with_statistics (λ st. record st {
  skipped_stages =
      if contains st.skipped_stages id then st.skipped_stages else st.skipped_stages ++ id ∷ [];
})

abbrev pub benched : Workbench → Run → Run
benched bench s = record s { context = record s.context { bench = bench }; calls = s.calls + 1 }

-- `"; ".join(l)`
abbrev pub joined : List String → String
joined [] = ""
joined (x ∷ []) = x
joined (x ∷ y ∷ l) = concat x (concat "; " (joined (y ∷ l)))

abbrev pub or_default : String → String
or_default text = if text == "" then "stage reported failure" else text

abbrev pub slept : ℕ → Run → Run
slept delay s = if ltb 0 delay then record s { sleeps = s.sleeps ++ delay ∷ [] } else s
