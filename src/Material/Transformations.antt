-- ===== src/Material/Transformations.antt =====
-- services/central-api/app/repositories/material_flow.py: lots are transformed into lots.
pub mod Recording
pub mod Acyclic
use mini_ogas.Prelude.{
  ℕ, zero, suc, ◌+◌, Bool, true, false, not, ◌&&◌, ◌||◌, Option, none, some, List, [], ◌∷◌, ◌++◌,
  map, String, str_eq, ltb, leb, ◌==◌, find, any, is_empty, length, if◌then◌else◌, ok, err,
}
use mini_ogas.Prelude.Actions.{pure, gets, check, modify, ◌>>=◌, ◌>>◌}
use mini_ogas.Execution.Model.{TaskStatus}
use mini_ogas.Material.Model.{
  Location, Container, Lot, Movement, MovementType, Source, TransformationType, Transformation,
  GenealogyEdge, Stock, MaterialFlowError,
}
use mini_ogas.Material.Access.{
  Action, one, same_quantity, is_serial, is_active_lot, is_at_work, is_finished_task, is_not_held,
  require_lot, assert_no_quality_hold, require_location, resolve_container, container_code,
  require_operation_task, write_audit,
}
use mini_ogas.Material.Postings.{text_or_empty}

-- `TransformationLegIn`
pub record LegIn : Type 0 where
  pub lot_code : String
  pub quantity : ℕ
  pub location_code : String
  pub container_code : Option String

-- `TransformationIn`, as it is read.
pub record TransformationIn : Type 0 where
  pub transformation_id : String
  pub transformation_type : TransformationType
  pub inputs : List LegIn
  pub outputs : List LegIn
  pub operation_task_id : Option ℕ
  pub conversion_evidence_reference : String

-- What `_resolve_transformation_leg` returns.
pub record Leg : Type 0 where
  pub lot : Lot
  pub location : Location
  pub container : Option Container
  pub quantity : ℕ

-- `TransformationIn.validate_shape`
abbrev pub is_given_task : Option ℕ → Bool
is_given_task none = false
is_given_task (some n) = true

abbrev pub same_leg : LegIn → LegIn → Bool
same_leg a b =
    str_eq a.lot_code b.lot_code
    && str_eq a.location_code b.location_code
    && str_eq (text_or_empty a.container_code) (text_or_empty b.container_code)

abbrev pub are_unique : List LegIn → Bool
are_unique [] = true
are_unique (l ∷ ls) = not (any (same_leg l) ls) && are_unique ls

abbrev pub has_shape : TransformationType → ℕ → ℕ → Option ℕ → Bool
has_shape TransformationType.split inputs outputs task = inputs == 1 && leb 2 outputs
has_shape TransformationType.merge inputs outputs task = leb 2 inputs && outputs == 1
has_shape TransformationType.rework inputs outputs task =
    inputs == 1 && outputs == 1 && is_given_task task
has_shape TransformationType.consume_produce inputs outputs task = is_given_task task

abbrev pub are_positive : List LegIn → Bool
are_positive [] = true
are_positive (l ∷ ls) = ltb 0 l.quantity && are_positive ls

-- Of the fields' bounds those that are read here: one to a hundred legs of positive quantities.
unfoldable pub is_valid_transformation : TransformationIn → Bool
is_valid_transformation p =
    leb 1 (length p.inputs)
    && leb (length p.inputs) 100
    && leb 1 (length p.outputs)
    && leb (length p.outputs) 100
    && are_positive p.inputs
    && are_positive p.outputs
    && has_shape p.transformation_type (length p.inputs) (length p.outputs) p.operation_task_id
    && are_unique p.inputs
    && are_unique p.outputs

-- `_resolve_transformation_leg`
unfoldable pub resolve_leg : LegIn → Action Leg
unfolding require_lot require_location resolve_container
resolve_leg leg = do
  l ← require_lot leg.lot_code
  location ← require_location leg.location_code
  container ← resolve_container leg.container_code (some location)
  check (is_active_lot l.status) MaterialFlowError.lot_not_active
  assert_no_quality_hold l
  check (not (is_serial l.tracking_kind) || same_quantity leg.quantity one)
      MaterialFlowError.serial_quantity_invalid
  pure record { lot = l; location = location; container = container; quantity = leg.quantity }

unfoldable pub resolve_legs : List LegIn → Action (List Leg)
unfolding resolve_leg
resolve_legs [] = pure []
resolve_legs (leg ∷ legs) = do
  first ← resolve_leg leg
  rest ← resolve_legs legs
  pure (first ∷ rest)

-- `_validate_transformation_semantics`
abbrev pub total_of : List Leg → ℕ
total_of [] = 0
total_of (l ∷ ls) = l.quantity + total_of ls

abbrev pub same_material : Leg → Leg → Bool
same_material a b = a.lot.material_id == b.lot.material_id && a.lot.uom_id == b.lot.uom_id

-- `len(inputs | outputs) == 1`
abbrev pub all_of_one : List Leg → Bool
all_of_one [] = false
all_of_one (l ∷ ls) = not (any (λ m. not (same_material l m)) ls)

abbrev pub among_materials : List Leg → List Leg → Bool
among_materials xs ys = not (any (λ x. not (any (same_material x) ys)) xs)

abbrev pub keeps_material : TransformationType → Bool
keeps_material TransformationType.consume_produce = false
keeps_material _ = true

abbrev pub is_conversion : List Leg → List Leg → Bool
is_conversion inputs outputs =
    not (among_materials inputs outputs && among_materials outputs inputs)
    || not (same_quantity (total_of inputs) (total_of outputs))

abbrev pub same_lot : Leg → Leg → Bool
same_lot a b = a.lot.id == b.lot.id

abbrev pub share_lot : List Leg → List Leg → Bool
share_lot inputs outputs = any (λ i. any (same_lot i) outputs) inputs

unfoldable pub validate_semantics : TransformationIn → List Leg → List Leg → Action (Unit {0})
validate_semantics p inputs outputs = do
  check (not (keeps_material p.transformation_type) || all_of_one (inputs ++ outputs))
      MaterialFlowError.material_conservation_violation
  check
      (not (keeps_material p.transformation_type)
        || same_quantity (total_of inputs) (total_of outputs))
      MaterialFlowError.quantity_conservation_violation
  check
      (keeps_material p.transformation_type
        || not (is_conversion inputs outputs)
        || not (is_empty p.conversion_evidence_reference))
      MaterialFlowError.conversion_evidence_required
  check (not (share_lot inputs outputs)) MaterialFlowError.genealogy_self_reference

-- The statuses of a task that a transformation allows, of `_require_operation_task`.
abbrev pub allowed_for_transformation : TransformationType → TaskStatus → Bool
allowed_for_transformation TransformationType.rework s = is_at_work s
allowed_for_transformation TransformationType.consume_produce s = is_finished_task s
allowed_for_transformation _ s = is_not_held s

unfoldable pub require_task_of : TransformationIn → Action (Unit {0})
unfolding require_operation_task
require_task_of p = elim p.operation_task_id [
  | none ↦ pure tt
  | some n ↦
      require_operation_task n (allowed_for_transformation p.transformation_type) >>= λ t. pure tt
]
