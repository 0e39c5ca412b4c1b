-- ===== src/Server.antt =====
-- The API worker's state and monad, and the steps that only read.
pub mod Defs
pub mod Reads
unfoldable pub use Defs.*
