-- ===== src/Commands/Verifier/Tests.antt =====
-- A command's observations (services/central-api/app/command_verifier.py), and the theorems there.
use mini_ogas.Prelude.{ℕ, ◌≡◌, refl, true, none, some, List, [], ◌∷◌, String, arith}
use mini_ogas.Commands.Model.{Status, VerificationStatus, ResultMessage, Production, NodeCommand}
use mini_ogas.Commands.Verifier.{is_verdict, observe, watch}
use mini_ogas.Commands.Verifier.Window.{watch-decides}

abbrev readings : ℕ → ℕ → Production
readings target actual = record {
  wip_input = some 9_000_000;
  wip_output = some 4_000_000;
  target_rate = some target;
  actual_rate = some actual;
  utilization = some 800_000;
}

-- Grinding at 1, told to make 1.5.
abbrev command : NodeCommand
command = record {
  id = 3;
  node_code = "grinding-workshop-01";
  command_type = "set_target_rate";
  risk_level = "low";
  status = Status.applied;
  operator = "user:ada";
  parameters = record {
    idempotency_key = none;
    ttl_seconds = none;
    target_rate = some 1_500_000;
    workflow_kind = none;
    retry_of = none;
    others = [];
  };
  claimed_by = "agent";
  result_message = ResultMessage.text "done";
  version = 1;
  expires_at = none;
  dispatched_at = none;
  received_at = none;
  applied_at = some 6;
  verified_at = none;
  attempt_count = 1;
  verification_status = VerificationStatus.not_started;
  verification_baseline = ("grinding-workshop-01", readings 1_000_000 1_000_000) ∷ [];
  verification_evidence = none;
  created_at = 5;
  updated_at = 6;
}

abbrev system : List (String × Production)
system = ("grinding-workshop-01", readings 1_500_000 1_400_000) ∷ []

abbrev three_times : List (List (String × Production) × ℕ)
three_times = (system, 7) ∷ (system, 8) ∷ (system, 9) ∷ []

-- The rate is there and the node makes more: effective with the third observation.
watch-three : (watch 3 5 three_times command).verification_status ≡ VerificationStatus.effective
unfolding watch observe
watch-three = refl

watch-decides_example : is_verdict (watch 2 3 three_times command).verification_status ≡ true
watch-decides_example =
    watch-decides 2 3 three_times command (omega arith) (omega arith) (omega arith) refl refl refl
