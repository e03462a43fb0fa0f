-- ===== src/Material/Catalog.antt =====
-- services/central-api/app/repositories/material_flow.py: warehouses, locations, containers and lots are
-- created.
use mini_ogas.Prelude.{ℕ, ◌+◌, max, true, not, List, [], ◌∷◌, ◌++◌, String, str_eq, find, any}
use mini_ogas.Prelude.Actions.{pure, gets, or_fail, check, modify, ◌>>=◌, ◌>>◌}
use mini_ogas.Material.Model.{
  Warehouse, Location, LocationType, Container, ContainerStatus, Lot, LotStatus, TrackingKind,
  Material, MaterialFlowError,
}
use mini_ogas.Material.Access.{Action, require_location, write_audit}

-- `WarehouseIn`, `LocationIn`, `ContainerIn` and `LotIn`
pub record WarehouseIn : Type 0 where
  pub warehouse_code : String
  pub name : String
  pub warehouse_type : String

pub record LocationIn : Type 0 where
  pub location_code : String
  pub warehouse_code : String
  pub name : String
  pub location_type : LocationType

pub record ContainerIn : Type 0 where
  pub container_code : String
  pub location_code : String
  pub container_type : String

pub record LotIn : Type 0 where
  pub lot_code : String
  pub material_code : String
  pub tracking_kind : TrackingKind
  pub evidence_reference : String

-- A number that no row of a table has yet.
abbrev pub fresh_id : {A : Type 0} → (A → ℕ) → List A → ℕ
fresh_id id [] = 1
fresh_id id (a ∷ rest) = max (id a + 1) (fresh_id id rest)

unfoldable pub create_warehouse : WarehouseIn → String → Action Warehouse
create_warehouse p actor = do
  s ← gets (λ t. t)
  check (not (any (λ w. str_eq w.warehouse_code p.warehouse_code) s.warehouses))
      MaterialFlowError.duplicate_material_resource
  let w : Warehouse = record {
    id = fresh_id (λ (v : Warehouse). v.id) s.warehouses;
    warehouse_code = p.warehouse_code;
    name = p.name;
    warehouse_type = p.warehouse_type;
  }
  modify (λ t. record t { warehouses = t.warehouses ++ w ∷ [] })
  write_audit actor "material-flow:warehouse-created" p.warehouse_code
  pure w

abbrev pub location_of : LocationIn → Warehouse → ℕ → Location
location_of p w n = record {
  id = n;
  location_code = p.location_code;
  warehouse_id = w.id;
  name = p.name;
  location_type = p.location_type;
  active = true;
}

unfoldable pub create_location : LocationIn → String → Action Location
create_location p actor = do
  s ← gets (λ t. t)
  w ←
      or_fail (find (λ v. str_eq v.warehouse_code p.warehouse_code) s.warehouses)
        MaterialFlowError.reference_not_found
  check (not (any (λ l. str_eq l.location_code p.location_code) s.locations))
      MaterialFlowError.duplicate_material_resource
  let l = location_of p w (fresh_id (λ (k : Location). k.id) s.locations)
  modify (λ t. record t { locations = t.locations ++ l ∷ [] })
  write_audit actor "material-flow:location-created" p.location_code
  pure l

abbrev pub container_of : ContainerIn → Location → ℕ → Container
container_of p l n = record {
  id = n;
  container_code = p.container_code;
  container_type = p.container_type;
  location_id = l.id;
  status = ContainerStatus.active;
}

unfoldable pub create_container : ContainerIn → String → Action Container
unfolding require_location
create_container p actor = do
  l ← require_location p.location_code
  s ← gets (λ t. t)
  check (not (any (λ c. str_eq c.container_code p.container_code) s.containers))
      MaterialFlowError.duplicate_material_resource
  let c = container_of p l (fresh_id (λ (k : Container). k.id) s.containers)
  modify (λ t. record t { containers = t.containers ++ c ∷ [] })
  write_audit actor "material-flow:container-created" p.container_code
  pure c

abbrev pub lot_of : LotIn → Material → ℕ → Lot
lot_of p m n = record {
  id = n;
  lot_code = p.lot_code;
  material_id = m.id;
  uom_id = m.base_uom_id;
  tracking_kind = p.tracking_kind;
  status = LotStatus.active;
  evidence_reference = p.evidence_reference;
}

unfoldable pub create_lot : LotIn → String → Action Lot
create_lot p actor = do
  s ← gets (λ t. t)
  m ←
      or_fail (find (λ n. str_eq n.material_code p.material_code) s.materials)
        MaterialFlowError.reference_not_found
  check (not (any (λ l. str_eq l.lot_code p.lot_code) s.lots))
      MaterialFlowError.duplicate_material_resource
  let l = lot_of p m (fresh_id (λ (k : Lot). k.id) s.lots)
  modify (λ t. record t { lots = t.lots ++ l ∷ [] })
  write_audit actor "material-flow:lot-created" p.lot_code
  pure l
