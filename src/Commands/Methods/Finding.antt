-- ===== src/Commands/Methods/Finding.antt =====
-- services/central-api/app/command_manager.py: a command is found by its number.
use mini_ogas.Prelude.{ℕ, Bool, ◌&&◌, String, str_eq, ◌==◌, find, Result, or_raise}
use mini_ogas.Commands.Model.{NodeCommand}
use mini_ogas.Commands.Methods.Values.{CommandError, Commands}

abbrev pub has_id : ℕ → NodeCommand → Bool
has_id n c = c.id == n

abbrev pub has_id_on : String → ℕ → NodeCommand → Bool
has_id_on node n c = c.id == n && str_eq c.node_code node

-- `CommandManager._find`, `CommandManager._find_for_node`
unfoldable pub find_command : Commands → ℕ → Result CommandError NodeCommand
find_command commands n = or_raise (find (has_id n) commands) (CommandError.not_found n)

unfoldable pub find_for_node : Commands → String → ℕ → Result CommandError NodeCommand
find_for_node commands node n =
    or_raise (find (has_id_on node n) commands) (CommandError.not_found_for_node n node)
