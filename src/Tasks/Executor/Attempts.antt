-- ===== src/Tasks/Executor/Attempts.antt =====
-- How often a handler is called, and what the task says afterwards.
use lex_mind.Tasks.Task.{
  Task, transition_to, can_transition, status_eq, completed, running, failed, moved_to, TaskStatus,
  pending,
}
use lex_mind.Common.{
  ℕ, zero, suc, ◌+◌, ◌≤◌, ◌<◌, ◌≡◌, refl, inl, inr, true, ◌||◌, some, [], ◌∷◌, ◌++◌, arith, leb,
  length, any, Bool-cases, ap, ◌∙◌, length-append,
}
use lex_mind.Common.Effect.{ok, Outcome-cases}
use lex_mind.Tasks.Executor.{
  TaskHandler, Desk, transition_to, attempts_loop, status_eq, emit, completed, running, failed,
  TaskEvent, started, end_with, completed_event, retried, failed_event, TaskStatus, execute, Dict,
  get_handler, pending, submitted,
}
use lex_mind.Common.Dict.{Dict, get}

module _ (now : ℕ → ℕ) (handler : TaskHandler) where
  -- what the loop makes of `task`, after `before` calls
  pub record Ran (before : ℕ) (task : Task) (d : Desk) (k : Task) (d' : Desk) : Type 0 where
    pub ended : status_eq k.status completed || status_eq k.status failed ≡ true
    pub more : before < k.attempts
    pub bounded : k.attempts ≤ task.max_retries + 1
    pub exhausted : k.status ≡ failed → k.attempts ≡ task.max_retries + 1
    pub delayed : length d'.delays + before + 1 ≡ length d.delays + k.attempts
    pub same_id : k.task_id ≡ task.task_id

  pub end_completed :
      (event : Task → TaskEvent) (task : Task) (d : Desk)
      → task.status ≡ running
      → end_with now completed event task d ≡ (
        ok (moved_to completed (now d.readings) task),
        emit
            (event (moved_to completed (now d.readings) task))
            (record d { readings = d.readings + 1 }),
      )
  unfolding transition_to can_transition any
  end_completed event task d run = ground arith

  pub end_failed :
      (event : Task → TaskEvent) (task : Task) (d : Desk)
      → task.status ≡ running
      → end_with now failed event task d ≡ (
        ok (moved_to failed (now d.readings) task),
        emit
            (event (moved_to failed (now d.readings) task))
            (record d { readings = d.readings + 1 }),
      )
  unfolding transition_to can_transition any
  end_failed event task d run = ground arith

  loop_ends :
      (fuel before : ℕ) (task : Task) (d : Desk)
      → task.status ≡ running
      → before ≤ task.max_retries
      → task.max_retries < before + fuel
      → (k : Task) × (d' : Desk) × (attempts_loop now handler fuel before task d ≡ some (ok k, d'))
        × Ran before task d k d'
  unfolding attempts_loop emit
  loop_ends zero before task d run low enough = absurd (omega arith)
  loop_ends (suc fuel) before task d run low enough =
      let tried = record task { attempts = before + 1 } in
      let d1 = emit (started task.task_id task.task_type (before + 1)) d in
      elim (Outcome-cases (handler tried)) [
        | inl (result, e) ↦
            let t = record tried { result = result } in
            let event = λ (t : Task). completed_event t.task_id t.task_type result (before + 1) in
            (
              moved_to completed (now d1.readings) t,
              emit (event (moved_to completed (now d1.readings) t))
                  (record d1 { readings = d1.readings + 1 }),
              rw (e, end_completed event t d1 run) refl,
              record {
                ended = refl;
                more = omega arith;
                bounded = omega arith;
                exhausted = λ q. cc;
                delayed = omega arith;
                same_id = refl;
              },
            )
        | inr (message, e) ↦
            let broken = record tried { error_message = message } in
            elim (Bool-cases (leb (before + 1) task.max_retries)) [
              | inl again ↦
                  let d2 = record (emit (retried task.task_id task.task_type (before + 1 + 1)) d1) {
                    delays = d1.delays ++ task.timeout_seconds ∷ [];
                  } in
                  let (k, d', runs, r) =
                    loop_ends fuel (before + 1) broken d2 run (ground arith) (omega arith) in
                  (
                    k,
                    d',
                    rw (e, again) runs,
                    record {
                      ended = r.ended;
                      more = omega (arith, r.more);
                      bounded = r.bounded;
                      exhausted = r.exhausted;
                      delayed =
                          omega
                            (arith, r.delayed, length-append d1.delays (task.timeout_seconds ∷ []));
                      same_id = r.same_id;
                    },
                  )
              | inr over ↦
                  let event =
                    λ (t : Task). failed_event t.task_id t.task_type t.error_message (before + 1) in
                  (
                    moved_to failed (now d1.readings) broken,
                    emit (event (moved_to failed (now d1.readings) broken))
                        (record d1 { readings = d1.readings + 1 }),
                    rw (e, over, end_failed event broken d1 run) refl,
                    record {
                      ended = refl;
                      more = omega arith;
                      bounded = omega arith;
                      exhausted = λ q. ground arith;
                      delayed = omega arith;
                      same_id = refl;
                    },
                  )
            ]
      ]

pub moved_to-max_retries :
    (target : TaskStatus) (now : ℕ) (task : Task)
    → (moved_to target now task).max_retries ≡ task.max_retries
moved_to-max_retries running now task = ground arith
moved_to-max_retries _ now task = refl

pub emit-delays : (e : TaskEvent) (d : Desk) → length (emit e d).delays ≡ length d.delays
unfolding emit
emit-delays e d = refl

pub started_run :
    (now : ℕ → ℕ) (handlers : Dict TaskHandler) (handler : TaskHandler) (task : Task) (d : Desk)
    → task.status ≡ pending
    → get handlers task.task_type ≡ some handler
    → execute now handlers task d
      ≡ attempts_loop now handler
          (suc (suc task.max_retries))
          0
          (moved_to running (now d.readings) task)
          (record (emit (submitted task.task_id task.task_type) d) { readings = d.readings + 1 })
unfolding execute get_handler transition_to can_transition any
started_run now handlers handler task d p known = rw known (ground arith)

-- A pending task whose type has a handler is executed to its end, whatever the handler answers:
-- it ends as completed or failed, after at least one and at most `max_retries + 1` attempts, as
-- failed only when all of these were made, with one delay between two attempts.
pub execute_ends :
    (now : ℕ → ℕ) (handlers : Dict TaskHandler) (handler : TaskHandler) (task : Task) (d : Desk)
    → task.status ≡ pending
    → get handlers task.task_type ≡ some handler
    → (k : Task) × (d' : Desk) × (execute now handlers task d ≡ some (ok k, d'))
      × (status_eq k.status completed || status_eq k.status failed ≡ true)
      × (0 < k.attempts)
      × (k.attempts ≤ task.max_retries + 1)
      × (k.status ≡ failed → k.attempts ≡ task.max_retries + 1)
      × (length d'.delays + 1 ≡ length d.delays + k.attempts)
execute_ends now handlers handler task d p known =
    let t = moved_to running (now d.readings) task in
    let d1 = record (emit (submitted task.task_id task.task_type) d) {
      readings = d.readings + 1;
    } in
    let kept = moved_to-max_retries running (now d.readings) task in
    let (k, d', runs, r) =
      loop_ends now handler (suc (suc task.max_retries)) 0 t d1 refl (omega arith)
        (omega (arith, kept)) in
    (
      k,
      d',
      started_run now handlers handler task d p known ∙ runs,
      r.ended,
      r.more,
      omega (arith, r.bounded, kept),
      λ q. r.exhausted q ∙ ap (λ m. m + 1) kept,
      omega (arith, r.delayed, emit-delays (submitted task.task_id task.task_type) d),
    )
