-- ===== src/Commands/Manager.antt =====
-- The methods of services/central-api/app/command_manager.py as calls, and what sequences of calls do.
pub mod Calls
pub mod Effects
pub mod Open
pub mod Ids
pub mod Lifecycle
pub mod Requests
pub mod Claims
pub mod Reports
mod Tests
