-- ===== src/Pipeline.antt =====
-- backend/lexmind/pipeline: the stages, their registry and order, and the execution of a pipeline with
-- retries and checkpoints.
pub mod Retry
pub mod Stage
pub mod Registry
pub mod Checkpoint
pub mod Run
pub mod Executor
pub mod Manager
