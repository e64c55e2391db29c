-- ===== src/Jobs.antt =====
-- The queue of jobs: `claim_job`, `finish_job` and `fail_job` of backend/src/extrio/store.py, and
-- job_control.py. A job is owned by the attempt that leased it last. An operation is stored under the
-- id by which it is found.
pub mod Tables
pub mod Finish
pub mod Queue
pub mod Cancel
pub mod Reach
pub mod Forward
pub mod Ownership
pub mod Claiming
mod Examples
