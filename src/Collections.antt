-- ===== src/Collections.antt =====
-- backend/src/extrio/store.py: collections, their revisions and versions, and the receipts that make
-- their commands safe to repeat.
mod Tables
mod Store
mod Commands
mod Changing
mod Replay
mod Rows
mod Guards
mod Numbers
mod Invariant
mod Examples
pub use Tables.*
pub use Store.*
pub use Commands.*
