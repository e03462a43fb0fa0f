-- ===== src/Execution/Tasks.antt =====
-- The operations on operation tasks of services/central-api/app/repositories/execution.py, each
-- without the look-up of its idempotency key. `now` is an argument.
pub mod Payloads
pub mod Setup
pub mod Running
pub mod Holds
pub mod Reports
pub mod Completion
pub mod Downtimes
