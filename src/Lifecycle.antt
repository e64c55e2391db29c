-- ===== src/Lifecycle.antt =====
-- backend/src/extrio/collector_lifecycle.py, collection_workflows.py and collector_history.py: sources
-- that are archived, restored, deleted, redefined, moved to another collection and migrated to another
-- version of their fields.
mod Tables
mod Store
mod History
mod Plans
mod Changes
mod Moves
mod Values
mod Commands
mod Rows
mod Effects
mod Writes
mod Steps
mod Parts
mod Commanded
mod Moved
mod Refines
mod Kept
mod Pause
mod Final
mod Stale
mod Returns
mod Reset
mod Examples
pub use Tables.*
pub use Store.*
pub use History.*
pub use Plans.*
pub use Changes.*
pub use Moves.*
pub use Values.*
pub use Commands.*
