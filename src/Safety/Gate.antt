-- ===== src/Safety/Gate.antt =====
-- What the safety gate lets through (services/central-api/app/safety_governor.py).
use mini_ogas.Prelude.{◌≡◌, ◌↔◌, ◌⊎◌, true, false, List, String, str_eq, is_empty, arith}
use mini_ogas.Safety.{
  Request, SafetyDecision, RiskLevel, is_high_risk, is_control_plane, or_empty, is_emergency,
  is_confirmed, contains, normalize_risk, confirmation_gate, review_control_action,
  review_manual_approval,
}

-- Who passes the confirmation gate: the emergency containment, an action below the high level, or
-- a system administrator who gave the confirmation code.
abbrev pub IsCleared : Request → Type 0
IsCleared r =
    (is_emergency r ≡ true)
    ⊎ (normalize_risk r.action r.risk_level ≡ RiskLevel.low)
    ⊎ (normalize_risk r.action r.risk_level ≡ RiskLevel.medium)
    ⊎ ((is_confirmed r.confirmation_code ≡ true) × (str_eq r.actor_role "system_admin" ≡ true))

-- The target is not named, or it is registered.
abbrev pub IsKnownTarget : List String → Request → Type 0
IsKnownTarget known r =
    (is_empty (or_empty r.target_node) ≡ true) ⊎ (contains (or_empty r.target_node) known ≡ true)

-- The action does not isolate a node of the control plane.
abbrev pub SparesControlPlane : Request → Type 0
SparesControlPlane r =
    (str_eq r.action "isolate_node" ≡ false) ⊎ (is_control_plane (or_empty r.target_node) ≡ false)

-- The fixed high-risk actions are high whatever level the caller names.
normalize-high_risk :
    (action risk : String)
    → is_high_risk action ≡ true
    → normalize_risk action risk ≡ RiskLevel.high
unfolding normalize_risk
normalize-high_risk action risk h = rw h

-- A control action is allowed exactly when its target is unnamed or registered, it does not
-- isolate a node of the control plane, and it is the emergency containment, or below the high
-- level, or confirmed with the code by a system administrator.
pub review_control_action-allow :
    (known : List String) (r : Request)
    → ((review_control_action known r).allow ≡ true)
      ↔ (IsKnownTarget known r × SparesControlPlane r × IsCleared r)
unfolding review_control_action confirmation_gate
review_control_action-allow known r = ground (arith, normalize-high_risk r.action r.risk_level)

-- What a decision promises about people: every refusal asks for one, and so does every high level
-- that is let through, except for the emergency containment.
abbrev pub AsksHuman : Request → SafetyDecision → Type 0
AsksHuman r d =
    (d.allow ≡ false → d.requires_human ≡ true)
    × (d.risk_level ≡ RiskLevel.high → is_emergency r ≡ false → d.requires_human ≡ true)

-- Both reviews ask for a human on every refusal and on every high level outside the emergency
-- containment.
pub review-AsksHuman :
    (known : List String) (r : Request)
    → AsksHuman r (review_control_action known r) × AsksHuman r (review_manual_approval r)
unfolding review_control_action review_manual_approval confirmation_gate
review-AsksHuman known r = ground arith
