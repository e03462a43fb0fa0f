-- ===== src/Material/Adjustments.antt =====
-- services/central-api/app/repositories/material_flow.py: a balance is adjusted to a snapshot.
use mini_ogas.Prelude.{
  ℕ, ◌+◌, ◌-◌, Bool, true, false, not, ◌&&◌, Option, none, some, String, str_eq, ltb, ◌==◌, find,
  any, update_first,
}
use mini_ogas.Prelude.Actions.{pure, gets, or_fail, check, modify, ◌>>=◌, ◌>>◌}
use mini_ogas.Material.Model.{
  Location, Container, Lot, Movement, MovementType, Source, ReconciliationCase, CaseStatus,
  MaterialFlowError,
}
use mini_ogas.Material.Access.{
  Action, same_quantity, require_lot, require_location, resolve_container, container_code, decimal,
  write_audit,
}
use mini_ogas.Material.Balances.{quantity_at}
use mini_ogas.Material.Postings.{text_or_empty, location_id, post_entry}

-- `ReconciliationAdjustmentIn`, as it is read.
pub record AdjustmentIn : Type 0 where
  pub movement_id : String
  pub reason : String
  pub evidence_reference : String

abbrev pub is_case : ℕ → ReconciliationCase → Bool
is_case n c = c.id == n

abbrev pub is_open_case : CaseStatus → Bool
is_open_case CaseStatus.open_case = true
is_open_case _ = false

abbrev pub is_same_id : Option String → String → Bool
is_same_id none id = false
is_same_id (some a) id = str_eq a id

-- The movement of the adjustment is there, with the digest of the request.
abbrev pub is_request : String → String → Movement → Bool
is_request id hash m = str_eq m.movement_id id && str_eq m.request_hash hash

-- A location where a test holds.
abbrev pub given_if {ℓ} : {A : Type ℓ} → Bool → A → Option A
given_if true a = some a
given_if false a = none

abbrev pub container_if : Bool → Option Container → Option Container
container_if true c = c
container_if false c = none

abbrev pub adjusted_case : AdjustmentIn → String → ReconciliationCase → ReconciliationCase
adjusted_case p actor c = record c {
  status = CaseStatus.adjusted;
  adjustment_movement_id = some p.movement_id;
  adjusted_by = some actor;
}

-- `observed - expected`, as its size and whether it is below zero.
abbrev pub adjustment_of :
    AdjustmentIn
    → ReconciliationCase
    → Lot
    → Location
    → Option Container
    → String
    → String
    → Movement
adjustment_of p c l location container hash actor =
    let lower = ltb c.observed_quantity c.expected_quantity in
    record {
      movement_id = p.movement_id;
      movement_type = MovementType.adjustment;
      lot_id = l.id;
      quantity =
          (c.observed_quantity - c.expected_quantity) + (c.expected_quantity - c.observed_quantity);
      from_location = location_id (given_if lower location);
      to_location = location_id (given_if (not lower) location);
      from_container = container_code (container_if lower container);
      to_container = container_code (container_if (not lower) container);
      operation_task_id = none;
      maintenance_order_code = none;
      transformation_id = none;
      reconciliation_case_id = some c.id;
      source = Source.reconciliation;
      request_hash = hash;
      recorded_by = actor;
    }

-- The digest of `_hash` is a parameter.
module _ (adjustment_hash : ℕ → AdjustmentIn → String) where
  -- A request that comes again, when the case is no longer open.
  abbrev pub adjusted_again : ℕ → AdjustmentIn → ReconciliationCase → Action ReconciliationCase
  adjusted_again n p c = do
    s ← gets (λ t. t)
    check
        (is_same_id c.adjustment_movement_id p.movement_id
          && any (is_request p.movement_id (adjustment_hash n p)) s.movements)
        MaterialFlowError.reconciliation_already_resolved
    pure c

  unfoldable pub write_adjustment :
      ℕ
      → AdjustmentIn
      → String
      → ReconciliationCase
      → Lot
      → Location
      → Option Container
      → Action ReconciliationCase
  unfolding decimal
  write_adjustment n p actor c l location container = do
    let lower = ltb c.observed_quantity c.expected_quantity
    post_entry l (given_if lower location) (container_if lower container)
        (given_if (not lower) location) (container_if (not lower) container)
        (adjustment_of p c l location container (adjustment_hash n p) actor)
    modify (λ s. record s { cases = update_first (is_case n) (adjusted_case p actor) s.cases })
    write_audit actor "material-flow:reconciliation-adjusted" (decimal n n)
    pure (adjusted_case p actor c)

  unfoldable pub adjust_open_case :
      ℕ → AdjustmentIn → String → ReconciliationCase → Action ReconciliationCase
  unfolding require_lot require_location resolve_container
  adjust_open_case n p actor c = do
    l ← require_lot c.lot_code
    location ← require_location c.location_code
    container ← resolve_container c.container_code (some location)
    current ← gets (λ s. quantity_at l.id location.id (text_or_empty c.container_code) s.balances)
    check (same_quantity current c.expected_quantity) MaterialFlowError.reconciliation_stale
    check (not (same_quantity c.observed_quantity c.expected_quantity))
        MaterialFlowError.reconciliation_has_no_variance
    write_adjustment n p actor c l location container

  -- `adjust_reconciliation`
  unfoldable pub adjust_reconciliation : ℕ → AdjustmentIn → String → Action ReconciliationCase
  adjust_reconciliation n p actor = do
    s ← gets (λ t. t)
    c ← or_fail (find (is_case n) s.cases) MaterialFlowError.reconciliation_not_found
    elim (is_open_case c.status) [
      | true ↦ adjust_open_case n p actor c
      | false ↦ adjusted_again n p c
    ]
