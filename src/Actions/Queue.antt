-- ===== src/Actions/Queue.antt =====
-- The timer that executes the queued transactions.
pub mod Defs
pub mod Overlap
unfoldable pub use Defs.*
