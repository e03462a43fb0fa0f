-- ===== src/Safety/Tests.antt =====
-- Decisions of services/central-api/app/safety_governor.py, and its theorems at a request.
use mini_ogas.Prelude.{
  ◌≡◌, ◌↔◌, ◌⊎◌, refl, true, false, List, [], ◌∷◌, String, none, some, codes, codes_eq, lower,
}
use mini_ogas.Safety.{
  Request, RiskLevel, ReasonCode, normalize_risk, is_high_risk, is_control_plane, is_emergency,
  confirmation_gate, review_control_action, review_manual_approval,
}
use mini_ogas.Safety.Gate.{
  IsKnownTarget, SparesControlPlane, IsCleared, AsksHuman, review_control_action-allow,
  review-AsksHuman,
}
use mini_ogas.Safety.Risk.{normalize_risk-high, normalize_risk-low}

abbrev nodes : List String
nodes = "milling-workshop-01" ∷ "cloud-db-01" ∷ []

abbrev isolate : Request
isolate = record {
  action = "isolate_node";
  target_node = some "milling-workshop-01";
  risk_level = "low";
  actor_role = "system_admin";
  actor_id = "user:ada";
  confirmation_code = some "CONFIRM";
  run_mode = "normal";
}

isolate_allowed : (review_control_action nodes isolate).reason_code ≡ ReasonCode.allowed
unfolding review_control_action confirmation_gate normalize_risk is_high_risk is_control_plane
    is_emergency
isolate_allowed = refl

-- The database node is refused although the code and the role are right.
isolate_database :
    (review_control_action nodes (record isolate { target_node = some "cloud-db-01" })).reason_code
    ≡ ReasonCode.control_plane_isolation_blocked
unfolding review_control_action confirmation_gate normalize_risk is_high_risk is_control_plane
isolate_database = refl

isolate_unconfirmed :
    (review_control_action nodes (record isolate { confirmation_code = none })).reason_code
    ≡ ReasonCode.confirmation_code_required
unfolding review_control_action confirmation_gate normalize_risk is_high_risk is_control_plane
    is_emergency
isolate_unconfirmed = refl

review_control_action-allow_example :
    ((review_control_action nodes isolate).allow ≡ true)
    ↔ (IsKnownTarget nodes isolate × SparesControlPlane isolate × IsCleared isolate)
review_control_action-allow_example = review_control_action-allow nodes isolate

review-AsksHuman_example :
    AsksHuman isolate (review_control_action nodes isolate)
    × AsksHuman isolate (review_manual_approval isolate)
review-AsksHuman_example = review-AsksHuman nodes isolate

normalize_risk-low_example :
    ((normalize_risk "set_target_rate" "Medium" ≡ RiskLevel.medium) ↔ (
      (is_high_risk "set_target_rate" ≡ false)
      × (codes_eq (lower "Medium") (codes "medium") ≡ true)))
    × ((normalize_risk "set_target_rate" "Medium" ≡ RiskLevel.low) ↔ (
        (is_high_risk "set_target_rate" ≡ false)
        × (codes_eq (lower "Medium") (codes "medium") ≡ false)
        × (codes_eq (lower "Medium") (codes "high") ≡ false)
        × (codes_eq (lower "Medium") (codes "critical") ≡ false)))
normalize_risk-low_example = normalize_risk-low "set_target_rate" "Medium"

normalize_risk-high_example : (normalize_risk "set_target_rate" "Critical" ≡ RiskLevel.high) ↔ (
    (is_high_risk "set_target_rate" ≡ true)
    ⊎ (codes_eq (lower "Critical") (codes "high") ≡ true)
    ⊎ (codes_eq (lower "Critical") (codes "critical") ≡ true))
normalize_risk-high_example = normalize_risk-high "set_target_rate" "Critical"
