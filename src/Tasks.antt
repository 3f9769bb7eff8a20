-- ===== src/Tasks.antt =====
-- backend/lexmind/task_executor: tasks, their registry, and the executor with its retries.
pub mod Task
pub mod Executor
