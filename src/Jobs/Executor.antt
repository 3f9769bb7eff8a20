-- ===== src/Jobs/Executor.antt =====
-- backend/lexmind/scheduler/job_executor.py. A handler gets the running job and returns a result,
-- which may be `None`, or raises, with `str(exc)` as the error; it does not touch the store.
pub mod Runs
use lex_mind.Jobs.State.{State, emit, World, write, timed, job_completed, job_started, job_failed}
use lex_mind.Common.{String, Bool, Option, none, some, if◌then◌else◌, is_some}
use lex_mind.Jobs.Job.{Job, Error, value_error, transition_to, completed, running, failed}
use lex_mind.Common.Dict.{Dict, put, pop, has, get}
use lex_mind.Jobs.Repository.{JobRepository}
use lex_mind.Common.Effect.{Outcome, Action, raise, ok, err, pure, gets, ◌>>=◌, ◌>>◌}

abbrev pub JobHandler : Type 0
JobHandler = Job → Outcome String (Option String)

-- the fields of `JobExecutor` that do not change in `execute`; `persists` says whether it was
-- given a repository, which then is the scheduler's
pub record Executor : Type 0 where
  pub handlers : Dict JobHandler
  pub persists : Bool

unfoldable pub register : String → JobHandler → Executor → Executor
register job_type handler ex = record ex { handlers = put ex.handlers job_type handler }

unfoldable pub unregister : String → Executor → Executor
unregister job_type ex = record ex { handlers = pop ex.handlers job_type }

unfoldable pub has_handler : String → Executor → Bool
has_handler job_type ex = has ex.handlers job_type

-- `result or ""`
abbrev or_empty : Option String → String
or_empty none = ""
or_empty (some t) = t

module _ {r : JobRepository} where
  -- `_persist`
  unfoldable pub persist : Executor → Job → Action Error (State r) (Unit {0})
  persist ex job =
      if ex.persists
      then (do
        existing ← gets (λ s. r.get_by_id job.id s.store)
        write (if is_some existing then r.update job else r.create job))
      else pure tt

  -- the `try` statement, from the handler's outcome: a running job can move to both states, so
  -- nothing in it but the handler raises
  unfoldable pub conclude :
      World → Outcome String (Option String) → Job → Action Error (State r) Job
  unfolding emit
  conclude w (ok result) job = do
    done ← timed w (λ now. transition_to completed now (record job { result = or_empty result }))
    emit (job_completed done.id done.workspace_id done.job_type done.result)
    pure done
  conclude w (err message) job = do
    broken ← timed w (λ now. transition_to failed now (record job { error_message = message }))
    emit (job_failed broken.id broken.workspace_id broken.job_type broken.error_message)
    pure broken

  unfoldable pub run_with : World → Executor → JobHandler → Job → Action Error (State r) Job
  unfolding emit
  run_with w ex handler job = do
    started ← timed w (λ now. transition_to running now job)
    emit (job_started started.id started.workspace_id started.job_type)
    persist ex started
    finished ← conclude w (handler started) started
    persist ex finished
    pure finished

  unfoldable pub execute : World → Executor → Job → Action Error (State r) Job
  unfolding run_with
  execute w ex job = elim (get ex.handlers job.job_type) [
    | none ↦ raise value_error
    | some handler ↦ run_with w ex handler job
  ]
