-- ===== src/Commands/Methods/Upkeep.antt =====
-- services/central-api/app/command_manager.py: claims expire and rates are verified.
use mini_ogas.Prelude.{
  ℕ, ◌+◌, ◌-◌, ◌*◌, Bool, false, ◌&&◌, Option, none, some, List, String, str_eq, ltb, leb,
  change_all,
}
use mini_ogas.Commands.Model.{Status, ResultMessage, NodeCommand, is_claimed, is_applied}
use mini_ogas.Commands.Methods.Values.{
  Stage, CommandTransition, Commands, second, changed, transitions_of,
}

-- `updated_at < now - ttl`, with the subtraction moved over to the other side.
abbrev pub is_stale : ℕ → ℕ → NodeCommand → Bool
is_stale ttl now c = is_claimed c.status && ltb (c.updated_at + second * ttl) now

abbrev pub expired : ℕ → ℕ → NodeCommand → NodeCommand
expired ttl now c = record c {
  status = Status.expired;
  result_message = ResultMessage.claim_timed_out ttl;
  updated_at = now;
}

unfoldable pub expire_stale_claims : Commands → ℕ → ℕ → Commands × List CommandTransition
expire_stale_claims commands ttl now =
    let test = is_stale ttl now in
    let change = expired ttl now in
    (
      change_all test change commands,
      transitions_of Stage.command_expired (changed test change commands),
    )

-- `abs(target_rate - expected) <= 0.001`, in millionths.
abbrev pub is_near : ℕ → Option ℕ → Bool
is_near rate none = false
is_near rate (some expected) = leb (rate - expected) 1000 && leb (expected - rate) 1000

abbrev pub is_reached : String → ℕ → NodeCommand → Bool
is_reached node rate c =
    str_eq c.node_code node
    && str_eq c.command_type "set_target_rate"
    && is_applied c.status
    && is_near rate c.parameters.target_rate

abbrev pub reached : ℕ → ℕ → NodeCommand → NodeCommand
reached rate now c = record c {
  status = Status.verified;
  result_message = ResultMessage.rate_verified rate;
  updated_at = now;
}

unfoldable pub verify_target_rate : Commands → String → ℕ → ℕ → Commands × List CommandTransition
verify_target_rate commands node rate now =
    let test = is_reached node rate in
    let change = reached rate now in
    (
      change_all test change commands,
      transitions_of Stage.command_verified (changed test change commands),
    )
