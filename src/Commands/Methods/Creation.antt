-- ===== src/Commands/Methods/Creation.antt =====
-- services/central-api/app/command_manager.py: a command is created.
use mini_ogas.Prelude.{
  ℕ, ◌+◌, ◌-◌, ◌*◌, max, Bool, true, false, ◌&&◌, Option, none, some, List, [], ◌∷◌, ◌++◌, String,
  str_eq, is_empty, if◌then◌else◌, length, drop, find,
}
use mini_ogas.Commands.Model.{
  Status, VerificationStatus, ResultMessage, Parameters, Production, NodeCommand,
}
use mini_ogas.Commands.Methods.Values.{
  CommandTransition, Commands, second, text_or_empty, has_key, set_default, ttl_or_default, max_id,
  supersede_pending,
}

-- The command that an idempotency key already stands for.
abbrev pub is_same_request : String → String → String → NodeCommand → Bool
is_same_request node type key c =
    str_eq c.node_code node
    && str_eq c.command_type type
    && has_key c.parameters.idempotency_key key

unfoldable pub find_existing : Commands → String → String → String → Option NodeCommand
find_existing commands node type key =
    if is_empty key then none else find (is_same_request node type key) commands

-- `commands.append(command); del commands[:-100]`
unfoldable pub append_bounded : Commands → NodeCommand → Commands
append_bounded commands c = let all = commands ++ c ∷ [] in drop (length all - 100) all

-- `f"command-{next_id}"`: how the source writes a number is a parameter of the model.
module _ (numbered_key : ℕ → String) where
  -- The new command of `create_command`, before it joins the list.
  unfoldable pub new_command :
      ℕ
      → String
      → String
      → String
      → Status
      → String
      → Parameters
      → List (String × Production)
      → ℕ
      → NodeCommand
  new_command next_id node type risk status operator parameters baseline now = record {
    id = next_id;
    node_code = node;
    command_type = type;
    risk_level = risk;
    status = status;
    operator = operator;
    parameters = record parameters {
      idempotency_key = set_default parameters.idempotency_key (numbered_key next_id);
    };
    claimed_by = "";
    result_message = ResultMessage.text "";
    version = 1;
    expires_at = some (now + second * max 1 (ttl_or_default parameters.ttl_seconds));
    dispatched_at = none;
    received_at = none;
    applied_at = none;
    verified_at = none;
    attempt_count = 0;
    verification_status = VerificationStatus.not_started;
    verification_baseline = baseline;
    verification_evidence = none;
    created_at = now;
    updated_at = now;
  }

  -- The list, the command, the transitions, and whether the command is new.
  unfoldable pub create_command :
      Commands
      → String
      → String
      → String
      → Status
      → String
      → Parameters
      → List (String × Production)
      → ℕ
      → Commands × NodeCommand × List CommandTransition × Bool
  create_command commands node type risk status operator parameters baseline now =
      elim (find_existing commands node type (text_or_empty parameters.idempotency_key)) [
        | some c ↦ (commands, c, [], false)
        | none ↦
            let next_id = max_id commands + 1 in
            let c = new_command next_id node type risk status operator parameters baseline now in
            let (commands', transitions) = supersede_pending commands node type next_id now in
            (append_bounded commands' c, c, transitions, true)
      ]
