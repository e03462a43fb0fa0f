-- ===== src/Commands/Methods/Results.antt =====
-- services/central-api/app/command_manager.py: a node reports a result.
use mini_ogas.Prelude.{
  ℕ, Bool, true, false, not, ◌&&◌, ◌||◌, some, String, if◌then◌else◌, update_first, Result, ok,
  ◌>>=◌, ◌>>◌, require,
}
use mini_ogas.Commands.Model.{
  Status, VerificationStatus, ResultMessage, NodeCommand, is_dead, accepts_result, is_verified,
  is_message,
}
use mini_ogas.Commands.Methods.Values.{CommandError, Commands}
use mini_ogas.Commands.Methods.Finding.{has_id_on, find_for_node}

-- `status in RESULT_STATUSES | {"applied"}`
abbrev pub is_result : Status → Bool
is_result Status.executed = true
is_result Status.failed = true
is_result Status.applied = true
is_result _ = false

abbrev pub normalized : Status → Status
normalized Status.executed = Status.applied
normalized s = s

-- `command.status == normalized_status`, where the latter is "applied" or "failed".
abbrev pub same_result : Status → Status → Bool
same_result Status.applied Status.applied = true
same_result Status.failed Status.failed = true
same_result _ _ = false

abbrev pub is_repeat : Status → String → NodeCommand → Bool
is_repeat status message c = same_result c.status status && is_message c.result_message message

abbrev pub with_result : Status → String → ℕ → NodeCommand → NodeCommand
with_result Status.applied message now c = record c {
  status = Status.applied;
  result_message = ResultMessage.text message;
  applied_at = some now;
  verification_status = VerificationStatus.observing;
  updated_at = now;
}
with_result status message now c = record c {
  status = status;
  result_message = ResultMessage.text message;
  updated_at = now;
}

unfoldable pub record_result :
    Commands
    → String
    → ℕ
    → Status
    → String
    → ℕ
    → Result CommandError (Commands × NodeCommand × Bool)
record_result commands node n status message now = do
  c ← find_for_node commands node n
  require (is_result status) (CommandError.unsupported_result status)
  let change = with_result (normalized status) message now
  (if is_verified c.status || is_repeat (normalized status) message c
      then ok (commands, c, false)
      else do
        require (not (is_dead c.status)) (CommandError.not_executable n c.status)
        require (accepts_result c.status) (CommandError.cannot_accept_result n c.status)
        ok (update_first (has_id_on node n) change commands, change c, true))
