-- ===== src/Tests.antt =====
-- The theorems at concrete inputs.
mod Data
mod Batches
mod Rules
mod Calls
mod Ledgers
mod Machines
mod Documents
mod Runs
mod Stores
