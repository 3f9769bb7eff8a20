-- ===== src/Workers.antt =====
-- backend/lexmind/workers: the runtime that takes jobs from the scheduler, and the pool.
pub mod Service
pub mod Pool
