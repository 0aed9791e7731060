-- ===== src/Job.antt =====
-- internal/job: the asynchronous jobs, their queue, and the workers that run them.
pub mod Types
pub mod Identity
pub mod Queue
pub mod Memory
pub mod Submit
pub mod Dispatch
