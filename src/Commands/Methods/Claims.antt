-- ===== src/Commands/Methods/Claims.antt =====
-- services/central-api/app/command_manager.py: the commands that a node or a person waits for.
use mini_ogas.Prelude.{ℕ, ◌+◌, Bool, ◌&&◌, some, String, str_eq, select, change_all}
use mini_ogas.Commands.Model.{Status, NodeCommand, is_claimable, is_waiting}
use mini_ogas.Commands.Methods.Values.{Commands, or_text, or_now, changed}

unfoldable pub pending_for_node : Commands → String → Commands
pending_for_node commands node =
    select (λ c. str_eq c.node_code node && is_claimable c.status) commands

unfoldable pub pending_approvals : Commands → Commands
pending_approvals commands = select (λ c. is_waiting c.status) commands

abbrev pub is_claimable_by : String → NodeCommand → Bool
is_claimable_by node c = str_eq c.node_code node && is_claimable c.status

abbrev pub claimed : String → String → ℕ → NodeCommand → NodeCommand
claimed node agent now c = record c {
  status = Status.claimed;
  claimed_by = or_text agent node;
  dispatched_at = or_now c.dispatched_at now;
  received_at = some now;
  attempt_count = c.attempt_count + 1;
  updated_at = now;
}

unfoldable pub claim_for_node : Commands → String → String → ℕ → Commands × Commands
claim_for_node commands node agent now =
    let test = is_claimable_by node in
    let change = claimed node agent now in
    (change_all test change commands, changed test change commands)
