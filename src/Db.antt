-- ===== src/Db.antt =====
-- The database layer, server/api/db.
pub mod Reconnect
pub mod Students
pub mod Transactions
pub mod Balance
pub mod Connected
pub mod Index
