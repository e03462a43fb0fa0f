-- ===== src/Commands/Methods/Decisions.antt =====
-- services/central-api/app/command_manager.py: a person approves, rejects, cancels or retries a command.
use mini_ogas.Prelude.{
  ℕ, Bool, true, false, not, ◌||◌, none, some, List, [], String, if◌then◌else◌, update_first,
  Result, ok, ◌>>=◌, ◌>>◌, require,
}
use mini_ogas.Commands.Model.{
  Status, VerificationStatus, ResultMessage, Parameters, NodeCommand, is_waiting, is_terminal,
  is_retryable, is_cancelled,
}
use mini_ogas.Commands.Methods.Values.{CommandTransition, CommandError, Commands, has_key, or_text}
use mini_ogas.Commands.Methods.Creation.{create_command}
use mini_ogas.Commands.Methods.Finding.{has_id, find_command}

abbrev pub approved : String → ℕ → NodeCommand → NodeCommand
approved actor now c = record c { status = Status.pending; operator = actor; updated_at = now }

unfoldable pub approve : Commands → ℕ → String → ℕ → Result CommandError (Commands × NodeCommand)
approve commands n actor now = do
  c ← find_command commands n
  require (is_waiting c.status) (CommandError.not_waiting_approval n c.status)
  ok (update_first (has_id n) (approved actor now) commands, approved actor now c)

abbrev pub accepted : String → ℕ → NodeCommand → NodeCommand
accepted actor now c = record c {
  status = Status.verified;
  operator = actor;
  result_message = ResultMessage.accepted_by actor;
  verification_status = VerificationStatus.verified;
  verified_at = some now;
  updated_at = now;
}

unfoldable pub approve_human_review :
    Commands → ℕ → String → ℕ → Result CommandError (Commands × NodeCommand)
approve_human_review commands n actor now = do
  c ← find_command commands n
  require (is_waiting c.status) (CommandError.not_waiting_approval n c.status)
  require (has_key c.parameters.workflow_kind "ai_suggestion_review") CommandError.not_human_review
  ok (update_first (has_id n) (accepted actor now) commands, accepted actor now c)

abbrev pub rejected : String → ℕ → NodeCommand → NodeCommand
rejected actor now c = record c { status = Status.rejected; operator = actor; updated_at = now }

unfoldable pub reject : Commands → ℕ → String → ℕ → Result CommandError (Commands × NodeCommand)
reject commands n actor now = do
  c ← find_command commands n
  require (is_waiting c.status) (CommandError.not_waiting_approval n c.status)
  ok (update_first (has_id n) (rejected actor now) commands, rejected actor now c)

abbrev pub is_executed : Status → Bool
is_executed Status.executed = true
is_executed _ = false

abbrev pub cancelled : String → String → ℕ → NodeCommand → NodeCommand
cancelled actor reason now c = record c {
  status = Status.cancelled;
  operator = actor;
  result_message = ResultMessage.cancelled_by actor (or_text reason "no reason provided");
  updated_at = now;
}

unfoldable pub cancel :
    Commands → ℕ → String → String → ℕ → Result CommandError (Commands × NodeCommand × Bool)
cancel commands n actor reason now = do
  c ← find_command commands n
  let change = cancelled actor reason now
  (if is_cancelled c.status then ok (commands, c, false) else do
    require (not (is_terminal c.status || is_executed c.status))
        (CommandError.cannot_cancel n c.status)
    ok (update_first (has_id n) change commands, change c, true))

-- `parameters.pop("idempotency_key", None); parameters["retry_of"] = source.id`
abbrev pub retry_parameters : NodeCommand → Parameters
retry_parameters c = record (c.parameters) { idempotency_key = none; retry_of = some c.id }

unfoldable pub retry :
    (ℕ → String)
    → Commands
    → ℕ
    → String
    → ℕ
    → Result CommandError (Commands × NodeCommand × List CommandTransition)
retry numbered_key commands n actor now = do
  c ← find_command commands n
  require (is_retryable c.status) (CommandError.cannot_retry n c.status)
  let (commands', command, transitions, _) =
      create_command numbered_key commands c.node_code c.command_type c.risk_level Status.pending
        actor (retry_parameters c) [] now
  ok (commands', command, transitions)
