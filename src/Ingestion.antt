-- ===== src/Ingestion.antt =====
-- backend/lexmind/ingestion: the job, the pipeline that its files go through, and the manager.
pub mod Job
pub mod Mime
pub mod Pipeline
pub mod Manager
