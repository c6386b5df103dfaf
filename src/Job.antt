-- ===== src/Job.antt =====
-- source/core/source/core_job.c: the jobs of the core service, their pool and their queue.
pub mod Pool
pub mod Queue
mod Tests
