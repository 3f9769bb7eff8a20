-- ===== src/Tasks/Executor/Batch.antt =====
-- A batch of tasks is executed up to the first one that cannot be.
use mathlib.Core.List.{append-nil}
use lex_mind.Tasks.Task.{TaskError, Task, completed, failed, pending, status_eq, invalid_task_state}
use lex_mind.Tasks.Executor.{TaskHandler, Desk, BatchRun, listed, and_rest, execute, execute_batch}
use lex_mind.Tasks.Executor.Attempts.{execute_ends}
use lex_mind.Common.{
  ap, ◌∙◌, subst, ℕ, ◌+◌, ◌≤◌, ◌<◌, false, true, ◌||◌, ◌≡◌, refl, some, List, [], ◌∷◌, ◌++◌, arith,
  length,
}
use lex_mind.Common.Dict.{Dict, get}
use lex_mind.Common.Effect.{ok, err}

-- a task that can be executed
abbrev pub IsReady : Dict TaskHandler → Task → Type 0
IsReady handlers task =
    (task.status ≡ pending)
    × ((handler : TaskHandler) × (get handlers task.task_type ≡ some handler))

abbrev pub AllReady : Dict TaskHandler → List Task → Type 0
AllReady handlers [] = Unit
AllReady handlers (task ∷ l) = IsReady handlers task × AllReady handlers l

-- how a task ends
abbrev pub EndsAs : Task → Task → Type 0
EndsAs task k =
    (status_eq k.status completed || status_eq k.status failed ≡ true)
    × (0 < k.attempts)
    × (k.attempts ≤ task.max_retries + 1)
    × (k.status ≡ failed → k.attempts ≡ task.max_retries + 1)

abbrev pub AllEnd : List Task → List Task → Type 0
AllEnd [] [] = Unit
AllEnd (task ∷ l) (k ∷ m) = EndsAs task k × AllEnd l m
AllEnd _ _ = ⊥

abbrev pub total_attempts : List Task → ℕ
total_attempts [] = 0
total_attempts (k ∷ l) = k.attempts + total_attempts l

module _ (now : ℕ → ℕ) (handlers : Dict TaskHandler) where
  abbrev prepended : List Task → BatchRun now → BatchRun now
  prepended [] run = run
  prepended (k ∷ l) run = listed now k (prepended l run)

  prepended-ok : (l m : List Task) (d : Desk) → prepended l (some (ok m, d)) ≡ some (ok (l ++ m), d)
  prepended-ok [] m d = refl
  prepended-ok (k ∷ l) m d = ap (listed now k) (prepended-ok l m d)

  prepended-err :
      (l : List Task) (e : TaskError) (d : Desk) → prepended l (some (err e, d)) ≡ some (err e, d)
  prepended-err [] e d = refl
  prepended-err (k ∷ l) e d = ap (listed now k) (prepended-err l e d)

  -- the tasks at the front are executed to their ends before any other
  record Finished (l : List Task) (d : Desk) : Type 0 where
    tasks : List Task
    desk : Desk
    ended : AllEnd l tasks
    delayed : length desk.delays + length l ≡ length d.delays + total_attempts tasks
    runs :
        (more : List Task)
        → execute_batch now handlers (l ++ more) d
          ≡ prepended tasks (execute_batch now handlers more desk)

  finish : (l : List Task) (d : Desk) → AllReady handlers l → Finished l d
  unfolding execute_batch
  finish [] d ready = record {
    tasks = [];
    desk = d;
    ended = tt;
    delayed = omega arith;
    runs = λ more. refl;
  }
  finish (task ∷ l) d ((waits, (handler, known)), ready) =
      let (k, d1, run, ended, more, bounded, exhausted, delayed) =
        execute_ends now handlers handler task d waits known in
      let rest = finish l d1 ready in
      record {
        tasks = k ∷ rest.tasks;
        desk = rest.desk;
        ended = ((ended, more, bounded, exhausted), rest.ended);
        delayed = omega (arith, delayed, rest.delayed);
        runs = λ m.
            ap (λ r. and_rest now r (execute_batch now handlers (l ++ m))) run
            ∙ ap (listed now k) (rest.runs m);
      }

-- A batch whose first tasks are pending and have handlers, and whose next one is not pending: the first
-- ones are executed to their ends, as completed or failed, as failed only when all attempts were made,
-- with one delay between two attempts of a task; then the batch raises InvalidTaskStateError, with
-- nothing published or waited for by the task that is not pending or any after it. Without that task and
-- those after it the batch returns the first ones, as they ended, in their order.
pub execute_batch_stops :
    (now : ℕ → ℕ) (handlers : Dict TaskHandler) (l : List Task) (task : Task) (rest : List Task)
    (d : Desk)
    → AllReady handlers l
    → status_eq task.status pending ≡ false
    → (ended : List Task) × (d' : Desk) × AllEnd l ended
      × (execute_batch now handlers l d ≡ some (ok ended, d'))
      × (execute_batch now handlers (l ++ task ∷ rest) d ≡ some (err invalid_task_state, d'))
      × (length d'.delays + length l ≡ length d.delays + total_attempts ended)
unfolding execute_batch execute
execute_batch_stops now handlers l task rest d ready busy =
    let h = finish now handlers l d ready in
    let refused : execute_batch now handlers (task ∷ rest) h.desk
        ≡ some (err invalid_task_state, h.desk) =
      rw busy refl in
    (
      h.tasks,
      h.desk,
      h.ended,
      subst (λ (x : List Task). execute_batch now handlers x d ≡ some (ok h.tasks, h.desk))
          (append-nil l)
          (h.runs []
            ∙ prepended-ok now handlers h.tasks [] h.desk
            ∙ ap (λ (x : List Task). some (ok x, h.desk)) (append-nil h.tasks)),
      h.runs (task ∷ rest)
          ∙ ap (prepended now handlers h.tasks) refused
          ∙ prepended-err now handlers h.tasks invalid_task_state h.desk,
      h.delayed,
    )
