-- ===== src/Jobs.antt =====
-- src/pipeline/jobs.py: the queue of backup runs. Each operation is one transaction of the control
-- database; the children give the operations, and below them what is proved of them.
pub mod Enqueue
pub mod Lease
pub mod Cancel
pub mod Retry
pub mod Finish
pub mod Stages
pub mod Held
pub mod Calls
