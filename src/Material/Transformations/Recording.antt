-- ===== src/Material/Transformations/Recording.antt =====
-- services/central-api/app/repositories/material_flow.py: a transformation is recorded.
use Prim.Native.String.{◌++◌ as str_append}
use mini_ogas.Prelude.{
  ℕ, ◌+◌, Bool, true, false, not, Option, none, some, List, [], ◌∷◌, ◌++◌, map, String, str_eq,
  find, any, err,
}
use mini_ogas.Prelude.Actions.{pure, gets, check, modify, ◌>>=◌, ◌>>◌}
use mini_ogas.Material.Model.{
  Container, Movement, MovementType, Source, TransformationType, Transformation, GenealogyEdge,
  MaterialFlowError,
}
use mini_ogas.Material.Access.{Action, container_code, decimal, write_audit}
use mini_ogas.Material.Genealogy.{assert_no_cycles, insert_edges}
use mini_ogas.Material.Postings.{location_id, post_entry}
use mini_ogas.Material.Transformations.{
  TransformationIn, Leg, resolve_legs, validate_semantics, require_task_of,
}

pub data Direction : Type 0 where
  inward outward : Direction

abbrev pub is_inward : Direction → Bool
is_inward Direction.inward = true
is_inward Direction.outward = false

-- `movement_types`
abbrev pub movement_type_of : TransformationType → Direction → MovementType
movement_type_of TransformationType.split Direction.inward = MovementType.split_input
movement_type_of TransformationType.split Direction.outward = MovementType.split_output
movement_type_of TransformationType.merge Direction.inward = MovementType.merge_input
movement_type_of TransformationType.merge Direction.outward = MovementType.merge_output
movement_type_of _ Direction.inward = MovementType.transform_input
movement_type_of _ Direction.outward = MovementType.transform_output

abbrev pub source_of : Option ℕ → Source
source_of none = Source.manual
source_of (some n) = Source.execution

-- `f"{transformation_id}-{direction}-{index}"`
unfoldable pub leg_movement_id : String → Direction → ℕ → String
unfolding decimal
leg_movement_id id Direction.inward index = str_append id (str_append "-IN-" (decimal index index))
leg_movement_id id Direction.outward index =
    str_append id (str_append "-OUT-" (decimal index index))

-- An end of the movement of a leg: material leaves from where an input is, and comes to where an
-- output is.
abbrev pub at_input {ℓ} : {A : Type ℓ} → Direction → A → Option A
at_input Direction.inward a = some a
at_input Direction.outward a = none

abbrev pub at_output {ℓ} : {A : Type ℓ} → Direction → A → Option A
at_output Direction.inward a = none
at_output Direction.outward a = some a

abbrev pub container_at_input : Direction → Option Container → Option Container
container_at_input Direction.inward c = c
container_at_input Direction.outward c = none

abbrev pub container_at_output : Direction → Option Container → Option Container
container_at_output Direction.inward c = none
container_at_output Direction.outward c = c

abbrev pub edge_of : TransformationIn → Leg → Leg → GenealogyEdge
edge_of p parent child = record {
  transformation_id = p.transformation_id;
  parent_lot_id = parent.lot.id;
  child_lot_id = child.lot.id;
  parent_quantity = parent.quantity;
  child_quantity = child.quantity;
}

abbrev pub edges_of : TransformationIn → List Leg → List Leg → List GenealogyEdge
edges_of p [] outputs = []
edges_of p (i ∷ inputs) outputs = map (edge_of p i) outputs ++ edges_of p inputs outputs

abbrev pub lot_ids : List Leg → List ℕ
lot_ids = map (λ l. l.lot.id)

abbrev pub is_transformation : String → Transformation → Bool
is_transformation id t = str_eq t.transformation_id id

unfoldable pub insert_transformation : Transformation → Action (Unit {0})
insert_transformation t = do
  s ← gets (λ u. u)
  check (not (any (is_transformation t.transformation_id) s.transformations))
      MaterialFlowError.duplicate_transformation
  modify (λ u. record u { transformations = u.transformations ++ t ∷ [] })

abbrev pub transformation_of : TransformationIn → String → String → Transformation
transformation_of p hash actor = record {
  transformation_id = p.transformation_id;
  transformation_type = p.transformation_type;
  operation_task_id = p.operation_task_id;
  conversion_evidence_reference = p.conversion_evidence_reference;
  request_hash = hash;
  recorded_by = actor;
}

-- The digests of `_hash` are parameters: of the payload, and of a leg under the payload's digest.
module _ (request_hash : TransformationIn → String)
    (leg_hash : String → Direction → ℕ → String) where
  abbrev pub leg_movement : TransformationIn → String → Direction → ℕ → Leg → Movement
  leg_movement p actor direction index leg = record {
    movement_id = leg_movement_id p.transformation_id direction index;
    movement_type = movement_type_of p.transformation_type direction;
    lot_id = leg.lot.id;
    quantity = leg.quantity;
    from_location = location_id (at_input direction leg.location);
    to_location = location_id (at_output direction leg.location);
    from_container = container_code (container_at_input direction leg.container);
    to_container = container_code (container_at_output direction leg.container);
    operation_task_id = p.operation_task_id;
    maintenance_order_code = none;
    transformation_id = some p.transformation_id;
    reconciliation_case_id = none;
    source = source_of p.operation_task_id;
    request_hash = leg_hash (request_hash p) direction index;
    recorded_by = actor;
  }

  unfoldable pub post_leg : TransformationIn → String → Direction → ℕ → Leg → Action (Unit {0})
  post_leg p actor direction index leg =
      post_entry leg.lot (at_input direction leg.location)
        (container_at_input direction leg.container) (at_output direction leg.location)
        (container_at_output direction leg.container) (leg_movement p actor direction index leg)

  -- `for index, leg in enumerate(legs, start=1)`
  unfoldable pub post_legs :
      TransformationIn → String → Direction → ℕ → List Leg → Action (Unit {0})
  post_legs p actor direction index [] = pure tt
  post_legs p actor direction index (leg ∷ legs) =
      post_leg p actor direction index leg >> post_legs p actor direction (index + 1) legs

  -- `record_transformation` after its legs were resolved and validated.
  unfoldable pub write_transformation :
      TransformationIn → String → List Leg → List Leg → Action Transformation
  write_transformation p actor inputs outputs = do
    assert_no_cycles (lot_ids inputs) (lot_ids outputs)
    let t = transformation_of p (request_hash p) actor
    insert_transformation t
    post_legs p actor Direction.inward 1 inputs
    post_legs p actor Direction.outward 1 outputs
    insert_edges (edges_of p inputs outputs)
    write_audit actor "material-flow:transformation-recorded" p.transformation_id
    pure t

  unfoldable pub accept_transformation : TransformationIn → String → Action Transformation
  accept_transformation p actor = do
    require_task_of p
    inputs ← resolve_legs p.inputs
    outputs ← resolve_legs p.outputs
    validate_semantics p inputs outputs
    write_transformation p actor inputs outputs

  -- `record_transformation`
  unfoldable pub record_transformation : TransformationIn → String → Action Transformation
  record_transformation p actor s =
      elim (find (is_transformation p.transformation_id) s.transformations) [
        | some t ↦ elim (str_eq t.request_hash (request_hash p)) [
          | true ↦ pure t s
          | false ↦ err MaterialFlowError.idempotency_key_reused
        ]
        | none ↦ accept_transformation p actor s
      ]
