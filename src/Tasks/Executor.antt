-- ===== src/Tasks/Executor.antt =====
-- backend/lexmind/task_executor/task_executor.py and task_registry.py. A handler gets the task,
-- whose attempts count the calls, and returns a result or raises, with `str(exc)` as the error.
-- The `while True` loop runs on fuel; `none` means that the fuel ran out.
pub mod Attempts
pub mod FirstSuccess
pub mod Batch
use lex_mind.Tasks.Task.{
  Task, TaskError, TaskStatus, completed, transition_to, status_eq, value_error, handler_not_found,
  failed, running, pending, is_terminal, invalid_task_state, cancelled,
}
use lex_mind.Common.Dict.{Dict, get, put}
use lex_mind.Common.{
  ℕ, zero, suc, ◌+◌, String, not, Option, none, some, List, [], ◌∷◌, ◌++◌, ◌==◌, leb, if◌then◌else◌,
}
use lex_mind.Common.Effect.{ok, err, Outcome}

abbrev pub TaskHandler : Type 0
TaskHandler = Task → Outcome String String

-- TaskRegistry.register; `none` for the handler is `None`
unfoldable pub register :
    String → Option TaskHandler → Dict TaskHandler → Outcome TaskError (Dict TaskHandler)
register task_type none handlers = err value_error
register task_type (some handler) handlers =
    if task_type == "" then err value_error else ok (put handlers task_type handler)

abbrev or_not_found : Option TaskHandler → Outcome TaskError TaskHandler
or_not_found none = err handler_not_found
or_not_found (some handler) = ok handler

-- TaskRegistry.get
unfoldable pub get_handler : String → Dict TaskHandler → Outcome TaskError TaskHandler
get_handler task_type handlers = or_not_found (get handlers task_type)

-- task_events.py, without the id and the time that the base class draws for each
pub data TaskEvent : Type 0 where
  submitted : (task_id task_type : String) → TaskEvent
  started retried : (task_id task_type : String) → (attempt : ℕ) → TaskEvent
  completed_event : (task_id task_type result : String) → (attempts : ℕ) → TaskEvent
  failed_event : (task_id task_type error_message : String) → (attempts : ℕ) → TaskEvent
  cancelled_event : (task_id task_type : String) → (previous_status : TaskStatus) → TaskEvent

-- the bus, the clock, and the arguments of the calls of `delay`
pub record Desk : Type 0 where
  pub bus : Option (List TaskEvent)
  pub readings : ℕ
  pub delays : List ℕ

abbrev pub told : Option (List TaskEvent) → TaskEvent → Option (List TaskEvent)
told none e = none
told (some l) e = some (l ++ e ∷ [])

-- `_emit`
unfoldable pub emit : TaskEvent → Desk → Desk
emit e d = record d { bus = told d.bus e }

-- `now` gives the n-th reading of the clock
module _ (now : ℕ → ℕ) where
  -- the end of a run: a transition of the running task, which cannot fail, and an event
  abbrev pub end_with :
      TaskStatus → (Task → TaskEvent) → Task → Desk → Outcome TaskError Task × Desk
  end_with target event task d = elim (transition_to target (now d.readings) task) [
    | err e ↦ (err e, d)
    | ok task' ↦ (ok task', emit (event task') (record d { readings = d.readings + 1 }))
  ]

  abbrev pub Run : Type 0
  Run = Option (Outcome TaskError Task × Desk)

  -- the rest of one round, from the outcome of the handler's call
  abbrev after_call : (ℕ → Task → Desk → Run) → ℕ → Task → Desk → Outcome String String → Run
  after_call loop attempt task d (ok result) = some (
      end_with completed (λ t. completed_event t.task_id t.task_type result attempt)
        (record task { result = result }) d)
  after_call loop attempt task d (err message) =
      let broken = record task { error_message = message } in
      if leb attempt task.max_retries
      then loop attempt broken
          (record (emit (retried task.task_id task.task_type (attempt + 1)) d) {
            delays = d.delays ++ task.timeout_seconds ∷ [];
          })
      else some (
          end_with failed (λ t. failed_event t.task_id t.task_type t.error_message attempt) broken
            d)

  -- one round of the loop: `attempt` is the number of calls made before
  unfoldable pub attempts_loop : TaskHandler → ℕ → ℕ → Task → Desk → Run
  unfolding emit
  attempts_loop handler zero attempt task d = none
  attempts_loop handler (suc fuel) attempt task d =
      let tried = record task { attempts = attempt + 1 } in
      after_call (attempts_loop handler fuel) (attempt + 1) tried
        (emit (started task.task_id task.task_type (attempt + 1)) d) (handler tried)

  -- `execute`, from the handler that was found: fuel for each attempt that the task may take
  abbrev pub execute_with : TaskHandler → Task → Desk → Run
  execute_with handler task d = elim (transition_to running (now d.readings) task) [
    | err e ↦ some (err e, d)
    | ok task' ↦
        attempts_loop handler (suc (suc task.max_retries)) 0 task'
          (record d { readings = d.readings + 1 })
  ]

  unfoldable pub execute : Dict TaskHandler → Task → Desk → Run
  unfolding attempts_loop get_handler emit
  execute handlers task d =
      if not (status_eq task.status pending)
      then some (err invalid_task_state, d)
      else let d' = emit (submitted task.task_id task.task_type) d in
        elim (get_handler task.task_type handlers) [
          | err e ↦ some (err e, d')
          | ok handler ↦ execute_with handler task d'
        ]

  unfoldable pub cancel : Task → Desk → Outcome TaskError Task × Desk
  unfolding emit
  cancel task d =
      if is_terminal task
      then (err invalid_task_state, d)
      else end_with cancelled (λ t. cancelled_event t.task_id t.task_type task.status) task d

  abbrev pub BatchRun : Type 0
  BatchRun = Option (Outcome TaskError (List Task) × Desk)

  abbrev pub listed : Task → BatchRun → BatchRun
  listed k none = none
  listed k (some (err e, d)) = some (err e, d)
  listed k (some (ok l, d)) = some (ok (k ∷ l), d)

  -- the next tasks, after the first was executed
  abbrev pub and_rest : Run → (Desk → BatchRun) → BatchRun
  and_rest none rest = none
  and_rest (some (err e, d)) rest = some (err e, d)
  and_rest (some (ok k, d)) rest = listed k (rest d)

  -- the tasks of a batch are distinct objects
  unfoldable pub execute_batch : Dict TaskHandler → List Task → Desk → BatchRun
  unfolding execute
  execute_batch handlers [] d = some (ok [], d)
  execute_batch handlers (task ∷ l) d =
      and_rest (execute handlers task d) (execute_batch handlers l)
