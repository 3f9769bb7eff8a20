-- ===== src/Jobs.antt =====
-- backend/lexmind/scheduler: the job entity, its queue, executor and scheduler.
pub mod Job
pub mod Repository
pub mod State
pub mod Queue
pub mod Executor
pub mod Scheduler
