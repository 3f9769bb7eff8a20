-- ===== src/Pipeline/Executor/Traces.antt =====
-- What an execution leaves in the log, the store and the metrics.
use lex_mind.Pipeline.Run.{
  Run, PipelineEvent, StageMetrics, emit, measure, slept, or_fresh, stage_started,
  checkpoint_created,
}
use lex_mind.Common.{
  ℕ, String, Bool, false, ◌≡◌, refl, ◌∙◌, ap, [], ◌∷◌, ◌==◌, any, any-append, arith, eq_refl,
}
use lex_mind.Common.Dict.{get, get-put}

abbrev pub starts : String → PipelineEvent → Bool
starts id (stage_started j n) = j == id
starts id _ = false

abbrev pub saves : String → PipelineEvent → Bool
saves id (checkpoint_created j) = j == id
saves id _ = false

abbrev pub metrics_at : String → Run → StageMetrics
metrics_at id s = or_fresh (get s.context.statistics.stage_metrics id)

pub metrics_at-measure :
    (id : String) (f : StageMetrics → StageMetrics) (s : Run)
    → metrics_at id (measure id f s) ≡ f (metrics_at id s)
unfolding measure
metrics_at-measure id f s = simp (get-put, eq_refl)

-- what the run of `stage` leaves alone
pub record Touched (stage : String) (s s' : Run) : Type 0 where
  pub checkpoints : s'.checkpoints ≡ s.checkpoints
  pub pipeline_id : s'.context.pipeline_id ≡ s.context.pipeline_id
  pub saved : (id : String) → any (saves id) s'.emitted ≡ any (saves id) s.emitted
  pub started :
      (id : String) → (stage == id) ≡ false → any (starts id) s'.emitted ≡ any (starts id) s.emitted

pub Touched-trans :
    (stage : String) {s t u : Run} → Touched stage s t → Touched stage t u → Touched stage s u
Touched-trans stage h k = record {
  checkpoints = k.checkpoints ∙ h.checkpoints;
  pipeline_id = k.pipeline_id ∙ h.pipeline_id;
  saved = λ id. k.saved id ∙ h.saved id;
  started = λ id other. k.started id other ∙ h.started id other;
}

-- a step with the log as it was
pub quiet-Touched :
    (stage : String) (s s' : Run)
    → s'.checkpoints ≡ s.checkpoints
    → s'.context.pipeline_id ≡ s.context.pipeline_id
    → s'.emitted ≡ s.emitted
    → Touched stage s s'
quiet-Touched stage s s' c p e = record {
  checkpoints = c;
  pipeline_id = p;
  saved = λ id. ap (any (saves id)) e;
  started = λ id other. ap (any (starts id)) e;
}

-- an event that saves nothing and starts no other stage
pub Touched-emit :
    (stage : String) (e : PipelineEvent) (s : Run)
    → ((id : String) → saves id e ≡ false)
    → ((id : String) → (stage == id) ≡ false → starts id e ≡ false)
    → Touched stage s (emit e s)
unfolding emit any
Touched-emit stage e s no_save no_start = record {
  checkpoints = refl;
  pipeline_id = refl;
  saved = λ id. ground (arith, any-append (saves id) s.emitted (e ∷ []), no_save id);
  started =
      λ id other. ground (arith, any-append (starts id) s.emitted (e ∷ []), no_start id other);
}

pub Touched-slept : (stage : String) (delay : ℕ) (s : Run) → Touched stage s (slept delay s)
Touched-slept stage delay s =
    quiet-Touched stage s (slept delay s) (ground arith) (ground arith) (ground arith)

pub metrics_at-slept :
    (id : String) (delay : ℕ) (s : Run) → metrics_at id (slept delay s) ≡ metrics_at id s
metrics_at-slept id delay s = ground arith
