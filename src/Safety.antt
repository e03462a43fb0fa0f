-- ===== src/Safety.antt =====
-- services/central-api/app/safety_governor.py: the approval gate in front of risky actions.
-- Texts that are compared whole (actions, nodes, roles, codes) are native strings. The risk text
-- is lowered before it is compared, so it goes through its code points; what the gate reports
-- back is one of three levels. The display texts of a decision are left out.
pub mod Gate
pub mod Risk
mod Tests
use mini_ogas.Prelude.{
  ◌≡◌, Bool, true, false, not, ◌&&◌, ◌||◌, List, [], ◌∷◌, String, Option, none, some, str_eq,
  is_empty, lower, codes, codes_eq, if◌then◌else◌,
}

abbrev pub confirmation_code : String
confirmation_code = "CONFIRM"

abbrev pub high_risk_actions : List String
high_risk_actions =
    "isolate_node" ∷ "restore_node" ∷ "retire_node" ∷ "emergency_stop" ∷ "simulate_hostile_attack"
    ∷ "dispatch_plan_approve" ∷ "escalation_approve" ∷ []

abbrev pub control_plane_nodes : List String
control_plane_nodes = "cloud-workshop-01" ∷ "cloud-db-01" ∷ []

-- `text in texts`
abbrev pub contains : String → List String → Bool
contains s [] = false
contains s (t ∷ ts) = str_eq s t || contains s ts

pub data RiskLevel : Type 0 where
  low medium high : RiskLevel

abbrev pub is_high : RiskLevel → Bool
is_high high = true
is_high _ = false

pub data ReasonCode : Type 0 where
  target_node_not_found : ReasonCode
  control_plane_isolation_blocked : ReasonCode
  emergency_containment_allowed : ReasonCode
  confirmation_code_required : ReasonCode
  insufficient_role : ReasonCode
  allowed : ReasonCode

pub record SafetyDecision : Type 0 where
  pub allow : Bool
  pub requires_human : Bool
  pub confirmation_required : Bool
  pub reason_code : ReasonCode
  pub action : String
  pub target_node : String
  pub risk_level : RiskLevel
  pub actor_role : String
  pub actor_id : String
  pub run_mode : String

-- What a caller hands to a review: `target_node` and `confirmation_code` may be missing.
pub record Request : Type 0 where
  pub action : String
  pub target_node : Option String
  pub risk_level : String
  pub actor_role : String
  pub actor_id : String
  pub confirmation_code : Option String
  pub run_mode : String

abbrev pub or_empty : Option String → String
or_empty none = ""
or_empty (some s) = s

abbrev pub or_low : String → String
or_low s = if is_empty s then "low" else s

-- `code == CONFIRMATION_CODE` at a code that may be missing.
abbrev pub is_confirmed : Option String → Bool
is_confirmed none = false
is_confirmed (some c) = str_eq c confirmation_code

unfoldable pub is_high_risk : String → Bool
is_high_risk action = contains action high_risk_actions

unfoldable pub is_control_plane : String → Bool
is_control_plane node = contains node control_plane_nodes

-- `SafetyGovernor._normalize_risk`: a text outside the four levels counts as low.
unfoldable pub normalize_risk : String → String → RiskLevel
normalize_risk action risk_level =
    let risk = lower (or_low risk_level) in
    if is_high_risk action
    then high
    else if not (
        codes_eq risk (codes "low")
        || codes_eq risk (codes "medium")
        || codes_eq risk (codes "high")
        || codes_eq risk (codes "critical"))
    then low
    else if codes_eq risk (codes "critical")
    then high
    else if codes_eq risk (codes "high")
    then high
    else if codes_eq risk (codes "medium")
    then medium
    else low

-- A decision on a request, with the target and the level that the caller has settled.
abbrev decide : Request → String → RiskLevel → Bool → Bool → Bool → ReasonCode → SafetyDecision
decide r target risk allow requires_human confirmation_required reason_code = record {
  allow = allow;
  requires_human = requires_human;
  confirmation_required = confirmation_required;
  reason_code = reason_code;
  action = r.action;
  target_node = target;
  risk_level = risk;
  actor_role = r.actor_role;
  actor_id = r.actor_id;
  run_mode = r.run_mode;
}

unfoldable pub is_emergency : Request → Bool
is_emergency r =
    str_eq r.run_mode "emergency_containment"
    && str_eq r.actor_role "safety_automation"
    && str_eq r.action "isolate_node"

-- `SafetyGovernor._confirmation_gate`
unfoldable pub confirmation_gate : Request → String → RiskLevel → SafetyDecision
confirmation_gate r target risk =
    let requires_confirmation = is_high risk || is_high_risk r.action in
    if is_emergency r
    then decide r target risk true false false emergency_containment_allowed
    else if requires_confirmation && not (is_confirmed r.confirmation_code)
    then decide r target risk false true true confirmation_code_required
    else if requires_confirmation && not (str_eq r.actor_role "system_admin")
    then decide r target risk false true false insufficient_role
    else decide r target risk true requires_confirmation false allowed

-- `SafetyGovernor._deny`
abbrev deny : Request → String → RiskLevel → ReasonCode → SafetyDecision
deny r target risk reason_code = decide r target risk false true false reason_code

-- `SafetyGovernor.review_control_action`
unfoldable pub review_control_action : List String → Request → SafetyDecision
review_control_action known_nodes r =
    let target = or_empty r.target_node in
    let risk = normalize_risk r.action r.risk_level in
    if not (is_empty target) && not (contains target known_nodes)
    then deny r target risk target_node_not_found
    else if str_eq r.action "isolate_node" && is_control_plane target
    then deny r target risk control_plane_isolation_blocked
    else confirmation_gate r target risk

-- `SafetyGovernor.review_manual_approval`; its default target is the empty text.
unfoldable pub review_manual_approval : Request → SafetyDecision
review_manual_approval r =
    confirmation_gate r (or_empty r.target_node) (normalize_risk r.action r.risk_level)
