-- ===== src/Workers/Service.antt =====
-- backend/lexmind/workers/worker.py, `WorkerService`, and worker_registry.py. The registry maps
-- job types to handlers; the executor has a table of its own, to which `register` writes too.
pub mod Runs
use lex_mind.Jobs.State.{State, World}
use lex_mind.Common.{
  ℕ, zero, suc, String, Bool, true, false, Option, none, some, List, [], ◌∷◌, ◌++◌, if◌then◌else◌,
}
use lex_mind.Common.Effect.{ok, err, Outcome}
use lex_mind.Jobs.Repository.{JobRepository}
use lex_mind.Jobs.Executor.{register, JobHandler, Executor}
use lex_mind.Jobs.Job.{Job, status_eq, failed, Error}
use lex_mind.Common.Dict.{Dict, put, get, has, pop}
use lex_mind.Jobs.Scheduler.{process_next}
use lex_mind.Jobs.Queue.{size}

-- worker_events.py
pub data WorkerEvent : Type 0 where
  worker_started worker_stopped : (worker_id : String) → WorkerEvent
  task_assigned : (job_id job_type workspace_id : String) → WorkerEvent
  task_completed : (job_id job_type result : String) → WorkerEvent
  task_failed : (job_id job_type error_message : String) → WorkerEvent

pub record Worker : Type 0 where
  pub worker_id : String
  pub is_running : Bool

-- the scheduler's objects and the worker's bus
pub record Floor (r : JobRepository) : Type 0 where
  pub jobs : State r
  pub worker_bus : Option (List WorkerEvent)

abbrev pub told : Option (List WorkerEvent) → WorkerEvent → Option (List WorkerEvent)
told none e = none
told (some l) e = some (l ++ e ∷ [])

-- WorkerRegistry: what `register_handler` and the look-ups do to its dictionary
unfoldable pub unregister : String → Dict JobHandler → Dict JobHandler
unregister job_type registry = pop registry job_type

unfoldable pub get_handler : String → Dict JobHandler → Option JobHandler
get_handler job_type registry = get registry job_type

unfoldable pub has_handler : String → Dict JobHandler → Bool
has_handler job_type registry = has registry job_type

unfoldable pub job_types : Dict JobHandler → List String
job_types [] = []
job_types ((job_type, handler) ∷ rest) = job_type ∷ job_types rest

-- `WorkerService.register` and `WorkerPool.register`
unfoldable pub register_handler :
    String → JobHandler → Dict JobHandler × Executor → Dict JobHandler × Executor
unfolding register
register_handler job_type handler (registry, ex) =
    (put registry job_type handler, register job_type handler ex)

unfoldable pub start : Worker → Option (List WorkerEvent) → Worker × Option (List WorkerEvent)
start worker bus = (record worker { is_running = true }, told bus (worker_started worker.worker_id))

unfoldable pub stop : Worker → Option (List WorkerEvent) → Worker × Option (List WorkerEvent)
stop worker bus = (record worker { is_running = false }, told bus (worker_stopped worker.worker_id))

-- the event after the run of a job
abbrev pub outcome_event : Job → WorkerEvent
outcome_event job =
    if status_eq job.status failed
    then task_failed job.id job.job_type job.error_message
    else task_completed job.id job.job_type job.result

module _ {r : JobRepository} (w : World) (ex : Executor) where
  -- `run_once`, from what `process_next` gave; the `except` clause catches all that it raises
  abbrev pub report :
      Option (List WorkerEvent) → Outcome Error (Option Job) × State r → Option Job × Floor r
  report bus (err e, s) =
      (none, record { jobs = s; worker_bus = told bus (task_failed "" "" (w.describe e)) })
  report bus (ok none, s) = (none, record { jobs = s; worker_bus = bus })
  report bus (ok (some job), s) = (
    some job,
    record {
      jobs = s;
      worker_bus =
          told (told bus (task_assigned job.id job.job_type job.workspace_id)) (outcome_event job);
    },
  )

  unfoldable pub run_once : Floor r → Option Job × Floor r
  run_once f = report f.worker_bus (process_next w ex f.jobs)

  -- one round of the loop of `run_all`, from what `run_once` gave
  abbrev next_job :
      (List Job → Floor r → Option (List Job × Floor r))
      → List Job
      → Option Job × Floor r
      → Option (List Job × Floor r)
  next_job loop results (none, f) = some (results, f)
  next_job loop results (some job, f) = loop (results ++ job ∷ []) f

  unfoldable pub run_all_loop : ℕ → List Job → Floor r → Option (List Job × Floor r)
  run_all_loop zero results f = none
  run_all_loop (suc fuel) results f = next_job (run_all_loop fuel) results (run_once f)

  unfoldable pub run_all : Floor r → Option (List Job × Floor r)
  run_all f = run_all_loop (suc (size f.jobs)) [] f
