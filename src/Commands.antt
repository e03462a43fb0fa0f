-- ===== src/Commands.antt =====
-- Node commands: services/central-api/app/models.py (NodeCommand) in Model, the life cycle of
-- services/central-api/app/command_manager.py in Methods and Manager, the effect of a command, as
-- services/central-api/app/command_verifier.py judges it, in Evidence and Verifier.
pub mod Evidence
pub mod Model
pub mod Methods
pub mod Manager
pub mod Verifier
