-- ===== src/Delivery.antt =====
-- Webhook deliveries: the tables and operations of backend/src/extrio/store.py, the dispatcher of
-- delivery.py, and the enqueueing and the delivery cycle of worker.py.
-- Instants are numbers of seconds; an operation reads the clock once, as `now`. `sha256` and `show`
-- (a number in an f-string) are parameters, and so is `by_due`, the database's
-- `ORDER BY d.next_attempt_at, d.id`.
pub mod Tables
pub mod Store
pub mod Queue
pub mod Dispatch
pub mod Finishing
pub mod History
pub mod Operations
pub mod Branches
pub mod Outcomes
pub mod Requests
pub mod Claiming
pub mod Effects
pub mod Cycle
pub mod Rounds
pub mod Sinks
pub mod Replaced
pub mod Served
pub mod Ends
mod Examples
