-- ===== src/Ledger.antt =====
-- The money, the queue and the answers of server/api/actions/transactions.js together.
pub mod Entries
pub mod Solvency
pub mod Callbacks
pub mod Requests
pub mod Chain
pub mod Rounds
pub mod Runs
pub mod Settled
pub mod Finished
pub mod Conservation
pub mod Answers
pub mod Expired
