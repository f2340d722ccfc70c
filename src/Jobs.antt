-- ===== src/Jobs.antt =====
-- The job queue (jobs/): data types, the SQL store, the worker pool, and what is proved of them.
pub mod Types
pub mod Store
pub mod Pool
pub mod Service
