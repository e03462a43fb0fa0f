-- ===== src/Commands/Manager/Tests.antt =====
-- Runs of services/central-api/app/command_manager.py, and its theorems at concrete commands.
use mini_ogas.Prelude.{
  ℕ, ◌≡◌, ◌≢◌, refl, true, false, none, some, List, [], ◌∷◌, map, String, eq_iff, ok, arith,
}
use mini_ogas.Commands.Model.{Status, VerificationStatus, ResultMessage, Parameters, NodeCommand}
use mini_ogas.Commands.Methods.{
  Commands, create_command, claim_for_node, pending_for_node, record_result, claimed, superseded,
  with_result, find_existing, new_command, supersede_pending, append_bounded, max_id, find_for_node,
  find_command,
}
use mini_ogas.Commands.Methods
use mini_ogas.Commands.Manager.Calls.{Call, apply, run}
use mini_ogas.Commands.Manager.Open.{OneOpen, run-OneOpen}
use mini_ogas.Commands.Manager.Ids.{IsNumbered, run-IsNumbered}
use mini_ogas.Commands.Manager.Lifecycle.{History, run-History, run-is_final}
use mini_ogas.Commands.Manager.Requests.{create_command_again}
use mini_ogas.Commands.Manager.Claims.{claim_for_node_lem}
use mini_ogas.Commands.Manager.Reports.{record_result_again}

abbrev any_key : ℕ → String
any_key n = "command"

abbrev unkeyed : Parameters
unkeyed = record {
  idempotency_key = none;
  ttl_seconds = none;
  target_rate = some 1_500_000;
  workflow_kind = none;
  retry_of = none;
  others = [];
}

abbrev keyed : Parameters
keyed = record unkeyed { idempotency_key = some "dispatch:7" }

abbrev command : ℕ → String → Status → NodeCommand
command n node status = record {
  id = n;
  node_code = node;
  command_type = "set_target_rate";
  risk_level = "low";
  status = status;
  operator = "user:ada";
  parameters = unkeyed;
  claimed_by = "";
  result_message = ResultMessage.text "";
  version = 1;
  expires_at = none;
  dispatched_at = none;
  received_at = none;
  applied_at = none;
  verified_at = none;
  attempt_count = 0;
  verification_status = VerificationStatus.not_started;
  verification_baseline = [];
  verification_evidence = none;
  created_at = 5;
  updated_at = 5;
}

abbrev commands : Commands
commands = command 3 "milling" Status.pending ∷ command 4 "turning" Status.rejected ∷ []

-- A second order for the node supersedes the first; the third call finds nothing to approve.
abbrev calls : List (Call × ℕ)
calls =
    (Call.create "milling" "set_target_rate" "low" Status.pending "user:ada" keyed [], 7)
    ∷ (Call.claim "milling" "", 8)
    ∷ (Call.approve 5 "user:bob", 9)
    ∷ (Call.result "milling" 5 Status.executed "done", 10)
    ∷ (Call.retry 4 "user:bob", 11)
    ∷ []

abbrev statuses : Commands → List (ℕ × Status)
statuses cs = map (λ c. (c.id, c.status)) cs

run-calls :
    statuses (run any_key calls commands)
    ≡ (3, Status.superseded) ∷ (4, Status.rejected) ∷ (5, Status.applied) ∷ (6, Status.pending) ∷ []
unfolding run apply create_command find_existing new_command supersede_pending append_bounded max_id
    claim_for_node record_result find_for_node find_command Methods.approve Methods.retry
run-calls = refl

empty-OneOpen : OneOpen []
empty-OneOpen node type = omega arith

run-OneOpen_example : OneOpen (run any_key calls [])
run-OneOpen_example = run-OneOpen any_key calls [] empty-OneOpen

commands-IsNumbered : IsNumbered commands
commands-IsNumbered = omega arith

run-IsNumbered_example : IsNumbered (run any_key calls commands)
run-IsNumbered_example = run-IsNumbered any_key calls commands commands-IsNumbered

run-History_example :
    History
      (command 3 "milling" Status.pending)
      (superseded 5 7 (command 3 "milling" Status.pending))
unfolding run apply create_command find_existing new_command supersede_pending append_bounded max_id
    claim_for_node record_result find_for_node find_command Methods.approve Methods.retry
run-History_example =
    run-History any_key calls 3 commands (command 3 "milling" Status.pending)
      (superseded 5 7 (command 3 "milling" Status.pending)) commands-IsNumbered refl refl

run-is_final_example : (command 4 "turning" Status.rejected).status ≡ Status.rejected
unfolding run apply create_command find_existing new_command supersede_pending append_bounded max_id
    claim_for_node record_result find_for_node find_command Methods.approve Methods.retry
run-is_final_example =
    run-is_final any_key calls 4 commands (command 4 "turning" Status.rejected)
      (command 4 "turning" Status.rejected) commands-IsNumbered refl refl refl

-- The second order of the same key, with another status and another person.
create_command_again_example :
    let (cs, c, _, _) =
      create_command any_key commands "milling" "set_target_rate" "low" Status.pending "user:ada"
        keyed [] 7 in
    create_command any_key cs "milling" "set_target_rate" "high" Status.waiting_approval "user:bob"
      keyed [] 9
    ≡ (cs, c, [], false)
create_command_again_example =
    create_command_again any_key commands "milling" "set_target_rate" "dispatch:7" keyed keyed "low"
      "high" Status.pending Status.waiting_approval "user:ada" "user:bob" [] [] 7 9 refl refl refl

milling_not_turning : ◌≢◌ {A = String} "turning" "milling"
milling_not_turning = ground (arith, eq_iff "turning" "milling")

claim_for_node_example :
    let (cs, handed) = claim_for_node commands "milling" "agent" 9 in
    (handed ≡ map (claimed "milling" "agent" 9) (pending_for_node commands "milling"))
    × (pending_for_node cs "milling" ≡ [])
    × (pending_for_node cs "turning" ≡ pending_for_node commands "turning")
claim_for_node_example =
    claim_for_node_lem commands "milling" "agent" "turning" 9 milling_not_turning

abbrev reported : NodeCommand
reported = with_result Status.applied "done" 9 (command 3 "milling" Status.pending)

record_result_again_example :
    record_result
      (reported ∷ command 4 "turning" Status.rejected ∷ [])
      "milling"
      3
      Status.executed
      "done"
      12
    ≡ ok (reported ∷ command 4 "turning" Status.rejected ∷ [], reported, false)
unfolding record_result find_for_node
record_result_again_example =
    record_result_again commands (reported ∷ command 4 "turning" Status.rejected ∷ []) "milling" 3
      Status.executed "done" 9 12 reported true refl
