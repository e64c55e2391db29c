-- ===== src/Worker.antt =====
-- backend/src/extrio/worker.py: what the items of a run are to those collected before, how the run
-- ends, and which deliveries it enqueues.
pub mod Values
mod Classify
mod Unchanged
mod Counts
mod Deliveries
mod Sent
mod Examples
