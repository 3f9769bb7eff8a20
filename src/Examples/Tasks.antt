-- ===== src/Examples/Tasks.antt =====
-- The theorems about tasks, at a handler that succeeds with its second call.
use lex_mind.Tasks.Task.{running, invalid_task_state, Task, pending, status_eq, completed, failed}
use lex_mind.Common.{
  List, ℕ, ◌+◌, ◌≤◌, ◌<◌, String, ◌≡◌, refl, true, ◌||◌, none, some, [], ◌∷◌, arith, eqb,
  if◌then◌else◌, length,
}
use lex_mind.Common.Effect.{ok, err, Outcome}
use lex_mind.Tasks.Executor.{TaskHandler, Desk, execute, execute_batch}
use lex_mind.Tasks.Executor.Batch.{AllReady, AllEnd, total_attempts, execute_batch_stops}
use lex_mind.Common.Dict.{Dict, get}
use lex_mind.Tasks.Executor.Attempts.{execute_ends}
use lex_mind.Tasks.Executor.FirstSuccess.{execute_first_success}

abbrev clock : ℕ → ℕ
clock n = n + 10

abbrev second_time : ℕ → Outcome String String
second_time n = if eqb n 2 then ok "text" else err "timeout"

abbrev flaky : TaskHandler
flaky t = second_time t.attempts

abbrev handlers : Dict TaskHandler
handlers = ("ocr", flaky) ∷ []

abbrev scan : Task
scan = record {
  task_type = "ocr";
  name = "scan";
  task_id = "t1";
  workspace_id = "w1";
  payload = [];
  status = pending;
  attempts = 0;
  max_retries = 3;
  timeout_seconds = 5;
  result = "";
  error_message = "";
  created_at = 1;
  started_at = none;
  completed_at = none;
}

abbrev desk : Desk
desk = record { bus = some []; readings = 0; delays = [] }

execute_ends_example :
    (k : Task) × (d' : Desk) × (execute clock handlers scan desk ≡ some (ok k, d'))
    × (status_eq k.status completed || status_eq k.status failed ≡ true)
    × (0 < k.attempts)
    × (k.attempts ≤ 4)
    × (k.status ≡ failed → k.attempts ≡ 4)
    × (length d'.delays + 1 ≡ 0 + k.attempts)
unfolding get
execute_ends_example = execute_ends clock handlers flaky scan desk refl refl

execute_first_success_example :
    (k : Task) × (d' : Desk) × (execute clock handlers scan desk ≡ some (ok k, d'))
    × (k.status ≡ completed)
    × (k.attempts ≡ 2)
    × (k.result ≡ "text")
    × ((m : ℕ) (e : String) → 2 ≡ m + 1 → 0 < m → second_time m ≡ err e → k.error_message ≡ e)
unfolding get
execute_first_success_example =
    execute_first_success clock handlers flaky second_time 2 "text" scan desk (λ t. refl) refl
      (λ i p q. ("timeout", ground arith)) (omega arith) (omega arith) refl refl

abbrev busy : Task
busy = record scan { status = running }

scan-AllReady : AllReady handlers (scan ∷ [])
unfolding get
scan-AllReady = ((refl, (flaky, refl)), tt)

execute_batch_stops_example :
    (ended : List Task) × (d' : Desk) × AllEnd (scan ∷ []) ended
    × (execute_batch clock handlers (scan ∷ []) desk ≡ some (ok ended, d'))
    × (execute_batch clock handlers (scan ∷ busy ∷ scan ∷ []) desk
        ≡ some (err invalid_task_state, d'))
    × (length d'.delays + 1 ≡ 0 + total_attempts ended)
execute_batch_stops_example =
    execute_batch_stops clock handlers (scan ∷ []) busy (scan ∷ []) desk scan-AllReady refl
