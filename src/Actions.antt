-- ===== src/Actions.antt =====
-- The actions of the API server, server/api/actions.
pub mod Common
pub mod Transactions
pub mod Queue
pub mod Accounts
pub mod Students
pub mod Registration
pub mod Polling
pub mod Passwords
