-- ===== src/Commands/Methods.antt =====
-- CommandManager of services/central-api/app/command_manager.py, method by method. The list of
-- commands that a method changes in place is returned; a command is found by its number, so the
-- object that the source changes is the first of the list with that number. `now` is given.
mod Values
mod Creation
mod Claims
mod Finding
mod Results
mod Decisions
mod Upkeep
unfoldable pub use Values.*
unfoldable pub use Creation.*
unfoldable pub use Claims.*
unfoldable pub use Finding.*
unfoldable pub use Results.*
unfoldable pub use Decisions.*
unfoldable pub use Upkeep.*
