-- ===== src/Tests.antt =====
-- Concrete inputs: the theorems at a small world, and runs of the code on it.
mod World
mod Money
mod Ledger
mod Services
mod Clients
mod Students
mod Pages
mod Cards
mod Desk
