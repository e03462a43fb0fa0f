-- ===== src/Material/Movements.antt =====
-- services/central-api/app/repositories/material_flow.py: the request to move material.
pub mod Recording
use mini_ogas.Prelude.{
  ℕ, Bool, true, false, not, ◌&&◌, ◌||◌, Option, none, some, String, str_eq, ltb, find, is_empty,
  if◌then◌else◌, err,
}
use mini_ogas.Prelude.Actions.{pure, check, ◌>>=◌, ◌>>◌}
use mini_ogas.Material.Model.{
  LocationType, Location, Container, Lot, Movement, MovementType, Source, MaterialFlowError,
}
use mini_ogas.Material.Access.{
  Action, one, same_quantity, is_serial, is_active_lot, require_lot, assert_no_quality_hold,
  require_some_location, resolve_container, container_code, allowed_for_movement,
  require_operation_task, require_maintenance_order, write_audit,
}
use mini_ogas.Material.Postings.{text_or_empty, location_id, post_entry}

-- `MovementIn`, as it is read; the time and the evidence go unread.
pub record MovementIn : Type 0 where
  pub movement_id : String
  pub movement_type : MovementType
  pub lot_code : String
  pub quantity : ℕ
  pub from_location_code : Option String
  pub to_location_code : Option String
  pub from_container_code : Option String
  pub to_container_code : Option String
  pub operation_task_id : Option ℕ
  pub maintenance_order_code : Option String
  pub source : Source
  pub reason : String
  pub evidence_reference : String

abbrev pub is_given {ℓ} : {A : Type ℓ} → Option A → Bool
is_given none = false
is_given (some a) = true

abbrev pub is_inbound : MovementType → Bool
is_inbound MovementType.receipt = true
is_inbound MovementType.produce = true
is_inbound _ = false

abbrev pub is_outbound : MovementType → Bool
is_outbound MovementType.consume = true
is_outbound _ = false

abbrev pub is_bidirectional : MovementType → Bool
is_bidirectional MovementType.issue = true
is_bidirectional MovementType.return_ = true
is_bidirectional MovementType.transfer = true
is_bidirectional MovementType.scrap = true
is_bidirectional MovementType.rework = true
is_bidirectional _ = false

abbrev pub same_code : Option String → Option String → Bool
same_code none none = true
same_code (some a) (some b) = str_eq a b
same_code _ _ = false

-- The ends of a movement, of `MovementIn.validate_direction`.
abbrev pub has_ends : MovementIn → Bool
has_ends p =
    not (
      is_inbound p.movement_type
      && (is_given p.from_location_code || not (is_given p.to_location_code)))
    && not (
        is_outbound p.movement_type
        && (not (is_given p.from_location_code) || is_given p.to_location_code))
    && not (
        is_bidirectional p.movement_type
        && (not (is_given p.from_location_code) || not (is_given p.to_location_code)))

abbrev pub has_places : MovementIn → Bool
has_places p =
    not (
      not (is_empty (text_or_empty p.from_container_code))
      && is_empty (text_or_empty p.from_location_code))
    && not (
        not (is_empty (text_or_empty p.to_container_code))
        && is_empty (text_or_empty p.to_location_code))
    && not (
        same_code p.from_location_code p.to_location_code
        && str_eq (text_or_empty p.from_container_code) (text_or_empty p.to_container_code))

abbrev pub is_execution : Source → Bool
is_execution Source.execution = true
is_execution _ = false

abbrev pub is_manual : Source → Bool
is_manual Source.manual = true
is_manual _ = false

abbrev pub is_of_task : MovementType → Bool
is_of_task MovementType.produce = true
is_of_task MovementType.rework = true
is_of_task _ = false

-- Who stands behind a movement: a task or a maintenance order.
abbrev pub has_authority : MovementIn → Bool
has_authority p =
    if is_outbound p.movement_type
    then (if is_given p.operation_task_id
        then not (is_given p.maintenance_order_code) && is_execution p.source
        else is_given p.maintenance_order_code && is_manual p.source)
    else if is_of_task p.movement_type
    then is_given p.operation_task_id && is_execution p.source
    else not (is_given p.maintenance_order_code)

-- What a `MovementIn` has passed: its fields' patterns leave no code empty, its quantity is
-- positive, it is of the types that are asked for, and `validate_direction`.
abbrev pub is_code : Option String → Bool
is_code none = true
is_code (some t) = not (is_empty t)

abbrev pub is_requested : MovementType → Bool
is_requested t = is_inbound t || is_outbound t || is_bidirectional t

abbrev pub is_requested_source : Source → Bool
is_requested_source Source.reconciliation = false
is_requested_source _ = true

unfoldable pub is_valid_movement : MovementIn → Bool
is_valid_movement p =
    is_code p.from_location_code
    && is_code p.to_location_code
    && is_code p.from_container_code
    && is_code p.to_container_code
    && ltb 0 p.quantity
    && is_requested p.movement_type
    && is_requested_source p.source
    && has_ends p
    && has_places p
    && has_authority p
