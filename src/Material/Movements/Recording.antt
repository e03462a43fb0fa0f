-- ===== src/Material/Movements/Recording.antt =====
-- services/central-api/app/repositories/material_flow.py: a movement of material is recorded.
use mini_ogas.Prelude.{
  ℕ, Bool, true, false, not, ◌||◌, Option, none, some, String, str_eq, find, err,
}
use mini_ogas.Prelude.Actions.{pure, check, ◌>>=◌, ◌>>◌}
use mini_ogas.Material.Model.{
  LocationType, Location, Container, Lot, Movement, MovementType, MaterialFlowError,
}
use mini_ogas.Material.Access.{
  Action, one, same_quantity, is_serial, is_active_lot, require_lot, assert_no_quality_hold,
  require_some_location, resolve_container, container_code, allowed_for_movement,
  require_operation_task, require_maintenance_order, write_audit,
}
use mini_ogas.Material.Postings.{location_id, post_entry}
use mini_ogas.Material.Movements.{MovementIn, is_execution}

-- `_validate_location_semantics`
abbrev pub is_wip : LocationType → Bool
is_wip LocationType.wip = true
is_wip _ = false

abbrev pub is_wip_or_staging : LocationType → Bool
is_wip_or_staging LocationType.wip = true
is_wip_or_staging LocationType.staging = true
is_wip_or_staging _ = false

abbrev pub is_scrap : LocationType → Bool
is_scrap LocationType.scrap = true
is_scrap _ = false

abbrev pub leads_to : (LocationType → Bool) → Option Location → Bool
leads_to test none = true
leads_to test (some l) = test l.location_type

abbrev pub validate_location_semantics : MovementType → Option Location → Action (Unit {0})
validate_location_semantics MovementType.issue to =
    check (leads_to is_wip_or_staging to) MaterialFlowError.invalid_issue_destination
validate_location_semantics MovementType.scrap to =
    check (leads_to is_scrap to) MaterialFlowError.invalid_scrap_destination
validate_location_semantics MovementType.rework to =
    check (leads_to is_wip to) MaterialFlowError.invalid_rework_destination
validate_location_semantics _ to = pure tt

unfoldable pub require_authority : MovementIn → Action (Unit {0})
unfolding require_operation_task
require_authority p = elim p.operation_task_id [
  | some n ↦ require_operation_task n (allowed_for_movement p.movement_type) >>= λ t. pure tt
  | none ↦ check (not (is_execution p.source)) MaterialFlowError.operation_task_required
]

unfoldable pub require_order : Option String → Action (Unit {0})
unfolding require_maintenance_order
require_order none = pure tt
require_order (some code) = require_maintenance_order code >>= λ o. pure tt

abbrev pub movement_of :
    MovementIn
    → Lot
    → Option Location
    → Option Location
    → Option Container
    → Option Container
    → String
    → String
    → Movement
movement_of p l from to from_container to_container hash actor = record {
  movement_id = p.movement_id;
  movement_type = p.movement_type;
  lot_id = l.id;
  quantity = p.quantity;
  from_location = location_id from;
  to_location = location_id to;
  from_container = container_code from_container;
  to_container = container_code to_container;
  operation_task_id = p.operation_task_id;
  maintenance_order_code = p.maintenance_order_code;
  transformation_id = none;
  reconciliation_case_id = none;
  source = p.source;
  request_hash = hash;
  recorded_by = actor;
}

-- `_format_movement`: the row, without the codes that it is joined with.
abbrev pub is_movement : String → Movement → Bool
is_movement key m = str_eq m.movement_id key

-- The lot of a movement, once it may move.
unfoldable pub require_movable_lot : String → ℕ → Action Lot
unfolding require_lot
require_movable_lot code quantity = do
  l ← require_lot code
  check (is_active_lot l.status) MaterialFlowError.lot_not_active
  assert_no_quality_hold l
  check (not (is_serial l.tracking_kind) || same_quantity quantity one)
      MaterialFlowError.serial_quantity_invalid
  pure l

-- The part of `record_movement` that moves, after the lot and the places were found.
unfoldable pub post_movement :
    MovementIn
    → Lot
    → Option Location
    → Option Location
    → Option Container
    → Option Container
    → String
    → String
    → Action Movement
post_movement p l from to from_container to_container hash actor = do
  let m = movement_of p l from to from_container to_container hash actor
  post_entry l from from_container to to_container m
  write_audit actor "material-flow:movement-recorded" p.movement_id
  pure m

unfoldable pub accept_movement : MovementIn → String → String → Action Movement
accept_movement p hash actor = do
  l ← require_movable_lot p.lot_code p.quantity
  require_authority p
  require_order p.maintenance_order_code
  from ← require_some_location p.from_location_code
  to ← require_some_location p.to_location_code
  from_container ← resolve_container p.from_container_code from
  to_container ← resolve_container p.to_container_code to
  validate_location_semantics p.movement_type to
  post_movement p l from to from_container to_container hash actor

-- `_hash` is a parameter: the digest of the payload's canonical JSON.
module _ (request_hash : MovementIn → String) where
  -- `record_movement`
  unfoldable pub record_movement : MovementIn → String → Action Movement
  record_movement p actor s = elim (find (is_movement p.movement_id) s.movements) [
    | some m ↦ elim (str_eq m.request_hash (request_hash p)) [
      | true ↦ pure m s
      | false ↦ err MaterialFlowError.idempotency_key_reused
    ]
    | none ↦ accept_movement p (request_hash p) actor s
  ]
