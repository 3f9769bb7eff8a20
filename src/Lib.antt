-- ===== src/Lib.antt =====
-- A model of the core of the LexMind backend, a Python program that keeps legal documents: how work
-- is submitted, ordered, executed and retried, how files are accepted for import, how components
-- learn of each other's events, and how the versions of an artifact are kept.
--
-- The parts, and how they meet. The scheduler (backend/lexmind/scheduler) stores jobs through a
-- repository, hands out the pending job of the highest priority, and has the executor run the
-- handler for its type. Workers (backend/lexmind/workers) drive the scheduler, alone or as a pool
-- that goes round. The task executor (backend/lexmind/task_executor) runs a task with its own
-- retries, without a store. The import queue (backend/lexmind/import_queue) takes requests, refuses
-- duplicates, and hands out requests, which come back as completed or failed. The event bus
-- (backend/lexmind/events) calls the handlers of an event, and artifacts
-- (backend/lexmind/artifacts) are the results that are kept, with a graph of what came from
-- what. Workspaces (backend/lexmind/workspace) are opened, under a lock, and closed by a manager.
-- A pipeline (backend/lexmind/pipeline) runs stages in an order, with retries, and keeps checkpoints
-- from which it can be resumed. An ingestion job (backend/lexmind/ingestion) takes the files of a
-- source through validation and the search for duplicates. The storage (backend/lexmind/storage) hands
-- objects, which URIs name, to a provider, and a watcher (backend/lexmind/watcher) reports what changes
-- under such a URI.
--
-- The files. Each names the source file it is about.
--   Jobs/Job: scheduler/job.py; Job/Lifecycle has the lives of a job as a relation
--   Jobs/Repository: scheduler/job_repository.py, the contract and its laws; Repository/Sqlite is
--     SqliteJobRepositoryImpl over a database that is a parameter, Repository/Row the rows of
--     metadata/models.py and how they are written and read; Repository/Reading and
--     Repository/Rows have the lemmas on rows with distinct ids
--   Jobs/State: the store, the bus, the clock and the ids that the scheduler's objects share
--   Jobs/Queue, Jobs/Executor, Jobs/Scheduler: job_queue.py, job_executor.py, job_scheduler.py;
--     Queue/Order, Executor/Runs, Scheduler/Drain, Scheduler/Commands, Scheduler/Retry and
--     Scheduler/Blocked have their theorems
--   Workers/Service, Workers/Pool: workers/worker.py
--   Tasks/Task, Tasks/Executor: task_executor/task.py and task_executor.py;
--     Executor/Attempts, Executor/FirstSuccess and Executor/Batch have their theorems
--   Imports/Request, Imports/Queue: import_queue/import_request.py and import_queue.py
--   Events/Subscriptions, Events/Dispatcher, Events/Bus: the files of those names in events
--   Artifacts/Artifact, Artifacts/Graph, Artifacts/Lineage: artifacts/artifact.py,
--     artifact_dependency.py and artifact_lineage.py; Graph/Search, Graph/Acyclic, Graph/Removal,
--     Lineage/Relatives and Lineage/Duality have their theorems, Lineage/Walks their lemmas
--   Workspaces/Workspace, Workspaces/Lock, Workspaces/Manager: workspace/workspace.py,
--     workspace_lock.py and workspace_manager.py
--   Pipeline/Retry, Pipeline/Stage, Pipeline/Registry, Pipeline/Checkpoint, Pipeline/Executor,
--     Pipeline/Manager: the files pipeline/pipeline_*.py of those names; Pipeline/Stage has the results
--     and the workbench of a stage, Pipeline/Run the state of a run with its statistics and events.
--     Executor/Attempts is about one stage, Executor/Resume about two runs of a pipeline,
--     Executor/Endings about one; Executor/Traces and Executor/Tracks carry them
--   Ingestion/Job, Ingestion/Mime, Ingestion/Pipeline, Ingestion/Manager: ingestion/ingestion_job.py,
--     mime_detector.py, ingestion_pipeline.py and ingestion_manager.py; Pipeline/Accounts,
--     Pipeline/Entries, Pipeline/Totals and Pipeline/Balance lead to the accounts of a run,
--     Manager/Ends to its end
--   Watcher/Config, Watcher/Backend, Watcher/Service: watcher/watch_config.py,
--     storage_watch_backend.py and file_watcher.py; Backend/Unique, Backend/Bounds, Backend/Replay,
--     Service/Delivery and Service/Last have their theorems
--   Storage/Paths: pathlib.PurePosixPath; Storage/Uri, Storage/Manager, Storage/Filesystem:
--     storage/uri.py, manager.py and filesystem.py
--   Common: lists, dictionaries and integers over the native numbers, and Common/Effect, the monad
--     of methods that change a state and may raise
--   Examples: an in-memory database, and the theorems at concrete inputs
--
-- How state is modelled. A method takes the state of the objects it uses and gives an outcome, a
-- value or an exception, with the new state: what was written before a raise stays written. A clock
-- and a source of ids are functions of the number of readings. A `datetime` is a number of ticks.
-- An optional bus is the list of what was published, or nothing.
--
-- Fuel. process_all and run_all run with one unit more than the number of pending jobs, enough
-- where each pending job has a handler, since each round ends one pending job. The attempts of a
-- task run with max_retries + 2, one more than the attempts that the code makes. The search for a
-- cycle runs with two units more than the number of edges, each of which is put on the stack once,
-- and so does the search for ancestors or descendants, which meets each node once.
-- The order of the stages is found with one unit more than the number of stages, the depth of the
-- recursion. The attempts of a stage run with max_attempts + 1, and the policy admits at most the
-- greater of max_attempts and one. The search of a watched location runs on fuel
-- that is given to it; one unit more than the number of its folders is enough.
--
-- Not modelled: log lines; the id and the time that the base class of events draws for each event;
-- SQLAlchemy, a parameter with the laws of a table with a primary key; handlers that call back into
-- the store or the bus; the raise of a publication in the ingestion pipeline and the task executor,
-- and of a watcher's callback; objects that a repository shares with its callers; floats. Durations in
-- the pipeline are whole numbers. OCR, layout and language detection have no model here, since most of
-- them is calls of third-party engines and scores in floats; nor have the domain's value objects and
-- the settings, which hold and check data, the repositories and, but for the row of a job, the
-- metadata, which translate to SQL, the plugins, whose code is imported when they are found, and the
-- start-up.
pub mod Common
pub mod Jobs
pub mod Workers
pub mod Tasks
pub mod Imports
pub mod Events
pub mod Artifacts
pub mod Pipeline
pub mod Workspaces
pub mod Storage
pub mod Ingestion
pub mod Watcher
pub mod Examples
