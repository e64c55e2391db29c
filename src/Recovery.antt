-- ===== src/Recovery.antt =====
-- backend/src/extrio/bounded_recovery.py and the progress records of coverage.py: the automatic
-- continuation of a collection run that the source has rate limited.
-- Instants are numbers of seconds. `context` is the digest `context(source)`, `hosts` the value of
-- `hosts(store, source, connection)`, and `resume_host` the host name in a progress' `resumeUrl`.
pub mod Values
pub mod Batch
pub mod Tick
pub mod Commands
pub mod Invariant
pub mod Rounds
pub mod Life
pub mod Halting
pub mod Starting
mod Examples
