-- ===== src/Execution.antt =====
-- Production execution: services/central-api/app/repositories/execution.py over the tables of
-- services/central-api/app/core/phase3_schema.py. Model has the tables, Access the reads and checks
-- that the operations share, Status the change of a task's status, Tasks the operations on tasks.
pub mod Model
pub mod Access
pub mod Status
pub mod Tasks
pub mod Lookups
pub mod Effects
pub mod Soundness
pub mod Governed
pub mod Calls
pub mod Orders
pub mod Keys
pub mod Runs
pub mod Holds
pub mod Readiness
mod Samples
mod Tests
