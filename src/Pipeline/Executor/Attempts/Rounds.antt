-- ===== src/Pipeline/Executor/Attempts/Rounds.antt =====
-- What an attempt that failed writes, alone and with the step to the next one, and the steps that
-- leave the counts of a stage as they are.
use lex_mind.Pipeline.Retry.{delay_for}
use lex_mind.Pipeline.Stage.{Stage}
use lex_mind.Pipeline.Run.{Run, StageMetrics, emit, measure, slept, stage_failed}
use lex_mind.Pipeline.Executor.Traces.{
  Touched, Touched-trans, quiet-Touched, Touched-emit, Touched-slept, metrics_at,
  metrics_at-measure, metrics_at-slept,
}
use lex_mind.Common.{ℕ, ◌+◌, String, ◌≡◌, refl, ◌∙◌, ap}

module _ (stage : Stage) where
  abbrev pub failed_round : ℕ → String → Run → Run
  failed_round a error s =
      emit (stage_failed stage.id a error)
        (measure stage.id (λ m. record m { failures = m.failures + 1 }) s)

  pub failed_round-Touched :
      (a : ℕ) (error : String) (s : Run) → Touched stage.id s (failed_round a error s)
  unfolding measure
  failed_round-Touched a error s =
      let counted = measure stage.id (λ m. record m { failures = m.failures + 1 }) s in
      Touched-trans stage.id (quiet-Touched stage.id s counted refl refl refl) (
        Touched-emit stage.id (stage_failed stage.id a error) counted (λ id. refl)
          (λ id other. refl))

  pub failed_round-metrics :
      (a : ℕ) (error : String) (s : Run)
      → metrics_at stage.id (failed_round a error s)
        ≡ record (metrics_at stage.id s) { failures = (metrics_at stage.id s).failures + 1 }
  unfolding emit
  failed_round-metrics a error s = metrics_at-measure stage.id _ s

  abbrev pub next_round : ℕ → String → Run → Run
  next_round a error s =
      slept (delay_for stage.retry_policy (a + 1))
        (measure stage.id (λ m. record m { retries = m.retries + 1 }) (failed_round a error s))

  pub next_round-Touched :
      (a : ℕ) (error : String) (s : Run) → Touched stage.id s (next_round a error s)
  unfolding measure
  next_round-Touched a error s =
      let failed = failed_round a error s in
      let counted = measure stage.id (λ m. record m { retries = m.retries + 1 }) failed in
      Touched-trans stage.id (failed_round-Touched a error s) (
        Touched-trans stage.id (quiet-Touched stage.id failed counted refl refl refl)
          (Touched-slept stage.id (delay_for stage.retry_policy (a + 1)) counted))

  abbrev more_retries : StageMetrics → StageMetrics
  more_retries m = record m { retries = m.retries + 1 }

  pub next_round-metrics :
      (a : ℕ) (error : String) (s : Run)
      → metrics_at stage.id (next_round a error s) ≡ record (metrics_at stage.id s) {
        failures = (metrics_at stage.id s).failures + 1;
        retries = (metrics_at stage.id s).retries + 1;
      }
  next_round-metrics a error s =
      metrics_at-slept stage.id (delay_for stage.retry_policy (a + 1)) _
      ∙ metrics_at-measure stage.id _ (failed_round a error s)
      ∙ ap more_retries (failed_round-metrics a error s)

  -- a step that leaves the log, the store and the counts of the stage as they are
  pub record Quiet (s s' : Run) : Type 0 where
    pub touched : Touched stage.id s s'
    pub retries : (metrics_at stage.id s').retries ≡ (metrics_at stage.id s).retries
    pub failures : (metrics_at stage.id s').failures ≡ (metrics_at stage.id s).failures

  pub measure-Quiet :
      (f : StageMetrics → StageMetrics) (s : Run)
      → ((m : StageMetrics) → (f m).retries ≡ m.retries)
      → ((m : StageMetrics) → (f m).failures ≡ m.failures)
      → Quiet s (measure stage.id f s)
  unfolding measure
  measure-Quiet f s same_retries same_failures =
      let m = metrics_at-measure stage.id f s in
      record {
        touched = quiet-Touched stage.id s (measure stage.id f s) refl refl refl;
        retries = ap (λ (m : StageMetrics). m.retries) m ∙ same_retries (metrics_at stage.id s);
        failures = ap (λ (m : StageMetrics). m.failures) m ∙ same_failures (metrics_at stage.id s);
      }
