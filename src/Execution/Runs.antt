-- ===== src/Execution/Runs.antt =====
-- Sequences of calls on the operations of
-- services/central-api/app/repositories/execution.py.
pub mod Steps
pub mod Sound
pub mod History
pub mod Settled
