-- ===== src/Material/Reads.antt =====
-- What the methods of services/central-api/app/repositories/material_flow.py look up leaves the tables
-- as they are.
use mini_ogas.Prelude.{
  ℕ, ◌≡◌, Bool, Option, none, some, String, str_eq, is_empty, arith, find, ok, Bool-cases,
  Option-cases, inl, inr,
}
use mini_ogas.Prelude.Actions.{Reads}
use mini_ogas.Execution.Model.{TaskStatus}
use mini_ogas.Material.Model.{Location, Lot, Stock, MovementType}
use mini_ogas.Material.Access.{
  require_lot, require_location, require_some_location, require_container, resolve_container,
  allowed_for_movement, require_operation_task, require_maintenance_order,
}
use mini_ogas.Material.Movements.{MovementIn}
use mini_ogas.Material.Movements.Recording.{
  require_authority, require_order, require_movable_lot, validate_location_semantics,
}

pub require_lot_found :
    (code : String) (s : Stock) (l : Lot) (s' : Stock)
    → require_lot code s ≡ ok (l, s')
    → (find (λ k. str_eq k.lot_code code) s.lots ≡ some l) × (s' ≡ s)
unfolding require_lot
require_lot_found code s l s' h = ground arith

pub require_location-Reads : (code : String) → Reads (require_location code)
unfolding require_location
require_location-Reads code s l s' h = ground arith

require_container-Reads :
    (code : String) (location : Option Location) → Reads (require_container code location)
unfolding require_container
require_container-Reads code location s c s' h = ground arith

pub require_some_location-Reads : (code : Option String) → Reads (require_some_location code)
unfolding require_some_location
require_some_location-Reads none s l s' h = ground arith
require_some_location-Reads (some code) s l s' h = elim (Bool-cases (is_empty code)) [
  | inl e ↦ ground (arith, e)
  | inr e ↦ ground (arith, e, require_location-Reads code s)
]

pub resolve_container-Reads :
    (code : Option String) (location : Option Location) → Reads (resolve_container code location)
unfolding resolve_container
resolve_container-Reads none location s c s' h = ground arith
resolve_container-Reads (some code) location s c s' h =
    ground (arith, require_container-Reads code location s)

pub require_operation_task-Reads :
    (n : ℕ) (allowed : TaskStatus → Bool) → Reads (require_operation_task n allowed)
unfolding require_operation_task
require_operation_task-Reads n allowed s t s' h = ground arith

pub require_authority-Reads : (p : MovementIn) → Reads (require_authority p)
unfolding require_authority
require_authority-Reads p s t s' h = elim (Option-cases p.operation_task_id) [
  | inl e ↦ ground (arith, e)
  | inr (n, e) ↦
      ground (arith, e, require_operation_task-Reads n (allowed_for_movement p.movement_type) s)
]

pub require_order-Reads : (code : Option String) → Reads (require_order code)
unfolding require_order require_maintenance_order
require_order-Reads none s t s' h = ground arith
require_order-Reads (some code) s t s' h = ground arith

pub validate_location_semantics-Reads :
    (t : MovementType) (to : Option Location) → Reads (validate_location_semantics t to)
validate_location_semantics-Reads t to s r s' h = ground arith

pub require_movable_lot_found :
    (code : String) (q : ℕ) (s : Stock) (l : Lot) (s' : Stock)
    → require_movable_lot code q s ≡ ok (l, s')
    → (find (λ k. str_eq k.lot_code code) s.lots ≡ some l) × (s' ≡ s)
unfolding require_movable_lot require_lot
require_movable_lot_found code q s l s' h = ground arith
