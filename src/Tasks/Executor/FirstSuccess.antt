-- ===== src/Tasks/Executor/FirstSuccess.antt =====
-- What a task says after its first attempt that succeeds.
use lex_mind.Tasks.Task.{Task, completed, running, moved_to, pending}
use lex_mind.Common.{
  ℕ, zero, suc, ◌+◌, ◌≤◌, ◌<◌, ◌≡◌, refl, inl, inr, true, some, [], ◌∷◌, ◌++◌, arith, leb,
  Bool-cases, String, ap, ◌∙◌, eqb, sym,
}
use lex_mind.Common.Effect.{ok, err, Outcome}
use lex_mind.Tasks.Executor.{
  TaskHandler, Desk, attempts_loop, emit, completed, running, started, completed_event, retried,
  execute, Dict, pending, submitted,
}
use lex_mind.Common.Dict.{Dict, get}
use lex_mind.Tasks.Executor.Attempts.{end_completed, started_run, moved_to-max_retries}

-- A handler whose answer depends on the number of the attempt alone, and its first success.
module _ (now : ℕ → ℕ) (handler : TaskHandler) (g : ℕ → Outcome String String)
    (answers : (t : Task) → handler t ≡ g t.attempts) (n : ℕ) (r : String) (good : g n ≡ ok r) where
  -- what the loop returns, after `before` calls
  pub record Succeeded (before : ℕ) (task k : Task) : Type 0 where
    pub status : k.status ≡ completed
    pub attempts : k.attempts ≡ n
    pub result : k.result ≡ r
    pub first : n ≡ before + 1 → k.error_message ≡ task.error_message
    pub stale : (m : ℕ) (e : String) → n ≡ m + 1 → before < m → g m ≡ err e → k.error_message ≡ e

  stale_step :
      (before m : ℕ) {broken k : Task} (message e : String)
      → Succeeded (before + 1) broken k
      → broken.error_message ≡ message
      → n ≡ m + 1
      → before < m
      → g m ≡ err e
      → g (before + 1) ≡ err message
      → k.error_message ≡ e
  stale_step before m message e s made p q b f = elim (Bool-cases (eqb (before + 1) m)) [
    | inl same ↦
        let at : before + 1 ≡ m = ground arith in
        let one : message ≡ e = cc (sym f ∙ ap g at ∙ b) in s.first (omega arith) ∙ made ∙ one
    | inr other ↦ s.stale m e p (ground arith) b
  ]

  first_success :
      (fuel before : ℕ) (task : Task) (d : Desk)
      → task.status ≡ running
      → before < n
      → n ≤ task.max_retries + 1
      → task.max_retries < before + fuel
      → ((i : ℕ) → before < i → i < n → (e : String) × (g i ≡ err e))
      → (k : Task) × (d' : Desk) × (attempts_loop now handler fuel before task d ≡ some (ok k, d'))
        × Succeeded before task k
  unfolding attempts_loop emit
  first_success zero before task d run low high enough bad = absurd (omega arith)
  first_success (suc fuel) before task d run low high enough bad =
      let tried = record task { attempts = before + 1 } in
      let d1 = emit (started task.task_id task.task_type (before + 1)) d in
      elim (Bool-cases (eqb (before + 1) n)) [
        | inl now_good ↦
            let same : before + 1 ≡ n = ground arith in
            let called = answers tried ∙ ap g same ∙ good in
            let t = record tried { result = r } in
            let event = λ (t : Task). completed_event t.task_id t.task_type r (before + 1) in
            (
              moved_to completed (now d1.readings) t,
              emit (event (moved_to completed (now d1.readings) t))
                  (record d1 { readings = d1.readings + 1 }),
              rw (called, end_completed now handler event t d1 run) refl,
              record {
                status = refl;
                attempts = same;
                result = refl;
                first = λ _. refl;
                stale = λ m e p q. absurd (omega arith);
              },
            )
        | inr later ↦
            let (message, failed_now) = bad (before + 1) (omega arith) (ground arith) in
            let called = answers tried ∙ failed_now in
            let broken = record tried { error_message = message } in
            let d2 = record (emit (retried task.task_id task.task_type (before + 1 + 1)) d1) {
              delays = d1.delays ++ task.timeout_seconds ∷ [];
            } in
            let again : leb (before + 1) task.max_retries ≡ true = ground arith in
            let (k, d', runs, s) =
              first_success fuel (before + 1) broken d2 run (ground arith) high (omega arith)
                (λ i p q. bad i (omega arith) q) in
            (
              k,
              d',
              rw (called, again) runs,
              record {
                status = s.status;
                attempts = s.attempts;
                result = s.result;
                first = λ p. absurd (ground arith);
                stale = λ m e p q b. stale_step before m message e s refl p q b failed_now;
              },
            )
      ]

-- Where the handler's answer depends on the number of the attempt alone, and attempt `n`, within
-- the limit of `max_retries + 1`, is the first that succeeds, `execute` completes the task with
-- `n` attempts and that attempt's result. If `n` is not the first attempt, the completed task
-- still carries the error message of the attempt before.
pub execute_first_success :
    (now : ℕ → ℕ) (handlers : Dict TaskHandler) (handler : TaskHandler)
    (g : ℕ → Outcome String String) (n : ℕ) (r : String) (task : Task) (d : Desk)
    → ((t : Task) → handler t ≡ g t.attempts)
    → g n ≡ ok r
    → ((i : ℕ) → 0 < i → i < n → (e : String) × (g i ≡ err e))
    → 0 < n
    → n ≤ task.max_retries + 1
    → task.status ≡ pending
    → get handlers task.task_type ≡ some handler
    → (k : Task) × (d' : Desk) × (execute now handlers task d ≡ some (ok k, d'))
      × (k.status ≡ completed)
      × (k.attempts ≡ n)
      × (k.result ≡ r)
      × ((m : ℕ) (e : String) → n ≡ m + 1 → 0 < m → g m ≡ err e → k.error_message ≡ e)
execute_first_success now handlers handler g n r task d answers good bad low high p known =
    let t = moved_to running (now d.readings) task in
    let d1 = record (emit (submitted task.task_id task.task_type) d) {
      readings = d.readings + 1;
    } in
    let kept = moved_to-max_retries running (now d.readings) task in
    let (k, d', runs, s) =
      first_success now handler g answers n r good (suc (suc task.max_retries)) 0 t d1 refl low
        (omega (arith, kept)) (omega (arith, kept)) bad in
    (
      k,
      d',
      started_run now handlers handler task d p known ∙ runs,
      s.status,
      s.attempts,
      s.result,
      s.stale,
    )
