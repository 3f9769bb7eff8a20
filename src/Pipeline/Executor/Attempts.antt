-- ===== src/Pipeline/Executor/Attempts.antt =====
-- How often a stage is executed, and what its metrics say.
pub mod Rounds
use lex_mind.Pipeline.Retry.{attempt_limit, should_retry-Admits, attempt_limit-bounds, delay_for}
use lex_mind.Pipeline.Stage.{Stage, StageResult, Workbench, failed_result}
use lex_mind.Pipeline.Run.{
  Run, StageMetrics, emit, measure, slept, stage_started, stage_completed, stage_failed, benched,
  or_default, joined,
}
use lex_mind.Pipeline.Executor.{
  StageRun, begin, stamped, finished_at, after_failure, after_execute, attempts_loop, run_stage,
}
use lex_mind.Pipeline.Executor.Traces.{
  Touched, Touched-trans, quiet-Touched, Touched-emit, Touched-slept, metrics_at,
  metrics_at-measure, metrics_at-slept,
}
use lex_mind.Pipeline.Executor.Attempts.Rounds.{
  failed_round, failed_round-Touched, failed_round-metrics, next_round, next_round-Touched,
  next_round-metrics, Quiet, measure-Quiet,
}
use lex_mind.Common.{
  ℕ, zero, suc, ◌+◌, ◌-◌, ◌≤◌, ◌<◌, String, Bool, true, false, ◌≡◌, refl, ◌∙◌, ap, inl, inr, some,
  arith, if◌then◌else◌, Bool-cases,
}
use lex_mind.Common.Effect.{ok, err, Outcome}

abbrev pub count_if : Bool → ℕ
count_if b = if b then 1 else 0

-- what comes of a stage from its attempt number `a` on
pub record Attempted (stage : Stage) (a : ℕ) (s : Run) (r : StageResult) (s' : Run) : Type 0 where
  pub more : a ≤ r.attempts
  pub bounded : r.attempts ≤ attempt_limit stage.retry_policy
  pub exhausted : r.success ≡ false → r.attempts ≡ attempt_limit stage.retry_policy
  pub retried : (metrics_at stage.id s').retries + a ≡ (metrics_at stage.id s).retries + r.attempts
  pub failed :
      (metrics_at stage.id s').failures + a + count_if r.success
      ≡ (metrics_at stage.id s).failures + r.attempts + 1
  pub touched : Touched stage.id s s'

module _ (now timer : ℕ → ℕ) (stage : Stage) where
  abbrev Attempts : ℕ → Run → StageRun now timer → Type 0
  Attempts a s run =
      (r : StageResult) × (s' : Run) × (run ≡ some (r, s')) × Attempted stage a s r s'

  -- a round that failed, from what the next one comes to
  after_failure-Attempts :
      (loop : ℕ → Run → StageRun now timer) (a : ℕ) (error : String) (s : Run)
      → 1 ≤ a
      → a ≤ attempt_limit stage.retry_policy
      → (a < attempt_limit stage.retry_policy → (s2 : Run) → Attempts (a + 1) s2 (loop a s2))
      → Attempts a s (after_failure now timer loop stage a error s)
  unfolding failed_result
  after_failure-Attempts loop a error s low up rest =
      elim (should_retry-Admits stage.retry_policy a low up) [
        | inl (again, below) ↦
            let (r, s', runs, t) = rest below (next_round stage a error s) in
            let counted = next_round-metrics stage a error s in
            let f = ap (λ (m : StageMetrics). m.failures) counted in
            let n = ap (λ (m : StageMetrics). m.retries) counted in
            (
              r,
              s',
              rw again runs,
              record {
                more = omega (arith, t.more);
                bounded = t.bounded;
                exhausted = t.exhausted;
                retried = omega (arith, t.retried, n);
                failed = omega (arith, t.failed, f);
                touched = Touched-trans stage.id (next_round-Touched stage a error s) t.touched;
              },
            )
        | inr (over, same) ↦
            let counted = failed_round-metrics stage a error s in
            let f = ap (λ (m : StageMetrics). m.failures) counted in
            let n = ap (λ (m : StageMetrics). m.retries) counted in
            (
              record (failed_result stage.id error) { attempts = a },
              failed_round stage a error s,
              rw over refl,
              record {
                more = omega arith;
                bounded = up;
                exhausted = λ q. same;
                retried = omega (arith, n);
                failed = omega (arith, f);
                touched = failed_round-Touched stage a error s;
              },
            )
      ]

  after-Quiet :
      (a : ℕ) (s t : Run) (run : StageRun now timer)
      → Quiet stage s t
      → Attempts a t run
      → Attempts a s run
  after-Quiet a s t run q (r, s', runs, h) = (
    r,
    s',
    runs,
    record {
      more = h.more;
      bounded = h.bounded;
      exhausted = h.exhausted;
      retried = omega (arith, h.retried, q.retries);
      failed = omega (arith, h.failed, q.failures);
      touched = Touched-trans stage.id q.touched h.touched;
    },
  )

  abbrev SameCounts : (ℕ → StageMetrics → StageMetrics) → Type 0
  SameCounts f =
      (time : ℕ) (m : StageMetrics)
      → ((f time m).retries ≡ m.retries) × ((f time m).failures ≡ m.failures)

  stamped-Quiet :
      (f : ℕ → StageMetrics → StageMetrics) (bench : Workbench) (ticks : ℕ) (s : Run)
      → SameCounts f
      → Quiet stage s (record (stamped now timer stage.id f (benched bench s)) { ticks = ticks })
  unfolding measure
  stamped-Quiet f bench ticks s same =
      let m = metrics_at-measure stage.id (f (now s.readings)) s in
      let t = record (stamped now timer stage.id f (benched bench s)) { ticks = ticks } in
      record {
        touched = quiet-Touched stage.id s t refl refl refl;
        retries = ap (λ (m : StageMetrics). m.retries) m ∙ (same _ _).0;
        failures = ap (λ (m : StageMetrics). m.failures) m ∙ (same _ _).1;
      }

  begin-Touched : (a : ℕ) (s : Run) → Touched stage.id s (begin now timer stage a s)
  unfolding begin measure
  begin-Touched a s =
      let event = stage_started stage.id a in
      Touched-trans stage.id (Touched-emit stage.id event s (λ id. refl) (λ id other. other))
        (quiet-Touched stage.id (emit event s) (begin now timer stage a s) refl refl refl)

  begin-Quiet : (a : ℕ) (s : Run) → Quiet stage s (begin now timer stage a s)
  unfolding begin emit
  begin-Quiet a s =
      let m =
        metrics_at-measure stage.id (λ m. record m { start_time = some (now s.readings) }) s in
      record {
        touched = begin-Touched a s;
        retries = ap (λ (m : StageMetrics). m.retries) m;
        failures = ap (λ (m : StageMetrics). m.failures) m;
      }

  -- the end of the last round, where the stage succeeds
  succeeded-Attempted :
      (a : ℕ) (s : Run) (r : StageResult)
      → a ≤ attempt_limit stage.retry_policy
      → r.attempts ≡ a
      → r.success ≡ true
      → Attempted stage a s r (emit (stage_completed stage.id) s)
  unfolding emit
  succeeded-Attempted a s r up same success = record {
    more = omega arith;
    bounded = omega arith;
    exhausted = λ q. cc;
    retried = omega arith;
    failed = rw success (omega arith);
    touched = Touched-emit stage.id (stage_completed stage.id) s (λ id. refl) (λ id other. refl);
  }

  after_execute-Attempts :
      (loop : ℕ → Run → StageRun now timer) (a : ℕ)
      (answer : Outcome String StageResult × Workbench) (s : Run)
      → 1 ≤ a
      → a ≤ attempt_limit stage.retry_policy
      → (a < attempt_limit stage.retry_policy → (s2 : Run) → Attempts (a + 1) s2 (loop a s2))
      → Attempts a s (after_execute now timer loop stage a answer s)
  unfolding measure
  after_execute-Attempts loop a (err message, bench) s low up rest =
      let t = stamped now timer stage.id (finished_at now timer) (benched bench s) in
      after-Quiet a s t _
        (stamped-Quiet (finished_at now timer) bench s.ticks s (λ time m. (refl, refl)))
        (after_failure-Attempts loop a message t low up rest)
  after_execute-Attempts loop a (ok result, bench) s low up rest =
      let elapsed = timer s.ticks - timer (s.ticks - 1) in
      let f : ℕ → StageMetrics → StageMetrics =
        λ time m. record (finished_at now timer time m) { cpu_time_seconds = elapsed } in
      let t : Run = record (stamped now timer stage.id f (benched bench s)) {
        ticks = s.ticks + 1;
      } in
      let q = stamped-Quiet f bench (s.ticks + 1) s (λ time m. (refl, refl)) in
      elim (Bool-cases result.success) [
        | inl success ↦
            let r : StageResult = record result {
              attempts = a;
              execution_time_seconds = elapsed;
            } in
            after-Quiet a s t _ q (
              r,
              emit (stage_completed stage.id) t,
              rw success refl,
              succeeded-Attempted a t r up refl success,
            )
        | inr failure ↦
            let (r, s', runs, h) =
              after-Quiet a s t _ q
                (after_failure-Attempts loop a (or_default (joined result.errors)) t low up rest) in
            (r, s', rw failure runs, h)
      ]

  loop-Attempts :
      (fuel before : ℕ) (s : Run)
      → before < attempt_limit stage.retry_policy
      → attempt_limit stage.retry_policy ≤ before + fuel
      → Attempts (before + 1) s (attempts_loop now timer stage fuel before s)
  unfolding attempts_loop
  loop-Attempts zero before s low enough = absurd (omega arith)
  loop-Attempts (suc fuel) before s low enough =
      let a = before + 1 in
      let t = begin now timer stage a s in
      after-Quiet a s t _ (begin-Quiet a s) (
        after_execute-Attempts (attempts_loop now timer stage fuel) a
          (stage.execute s.calls s.context.bench) t (omega arith) (omega arith)
          (λ below s2. loop-Attempts fuel a s2 below (omega arith)))

  pub run_stage-Attempts : (s : Run) → Attempts 1 s (run_stage now timer stage s)
  unfolding run_stage
  run_stage-Attempts s =
      let limits = attempt_limit-bounds stage.retry_policy in
      let t = measure stage.id (λ m. m) s in
      after-Quiet 1 s t _ (measure-Quiet stage (λ m. m) s (λ m. refl) (λ m. refl)) (
        loop-Attempts (suc stage.retry_policy.max_attempts) 0 t (omega (arith, limits.0))
          (omega (arith, limits.1)))

-- A stage is executed at least once and at most as often as its retry policy admits, which is once
-- where it never retries or admits less than two attempts, and else `max_attempts` times. It is
-- given up only after all of these. Whatever it answers, raises or changes, the run of it ends
-- within its fuel; its metrics count one retry for each further attempt and one failure for each
-- attempt that failed; the checkpoints are as before.
pub run_stage_ends :
    (now timer : ℕ → ℕ) (stage : Stage) (s : Run)
    → (r : StageResult) × (s' : Run) × (run_stage now timer stage s ≡ some (r, s'))
      × (1 ≤ r.attempts)
      × (r.attempts ≤ attempt_limit stage.retry_policy)
      × (r.success ≡ false → r.attempts ≡ attempt_limit stage.retry_policy)
      × ((metrics_at stage.id s').retries + 1 ≡ (metrics_at stage.id s).retries + r.attempts)
      × ((metrics_at stage.id s').failures + count_if r.success
          ≡ (metrics_at stage.id s).failures + r.attempts)
      × (s'.checkpoints ≡ s.checkpoints)
run_stage_ends now timer stage s =
    let (r, s', runs, h) = run_stage-Attempts now timer stage s in
    (
      r,
      s',
      runs,
      h.more,
      h.bounded,
      h.exhausted,
      h.retried,
      omega (arith, h.failed),
      h.touched.checkpoints,
    )
