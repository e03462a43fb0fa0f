-- ===== src/Material/Model.antt =====
-- The tables of services/central-api/app/core/phase4_schema.py, for the one tenant and site that every
-- query is scoped to, and of other tables the columns that the material flow reads. Quantities are
-- whole units of 10⁻⁹, the tolerance of the source. A container is referred to by its code, which is
-- unique, also where a row keeps its number; a maintenance order likewise.
use mini_ogas.Prelude.{ℕ, Bool, Option, List, String}
use mini_ogas.Execution.Model.{Task, MaintenanceOrder}

pub data LocationType : Type 0 where
  storage staging wip quarantine scrap shipping : LocationType

pub record Warehouse : Type 0 where
  pub id : ℕ
  pub warehouse_code : String
  pub name : String
  pub warehouse_type : String

-- `inventory_locations`
pub record Location : Type 0 where
  pub id : ℕ
  pub location_code : String
  pub warehouse_id : ℕ
  pub name : String
  pub location_type : LocationType
  pub active : Bool

pub data ContainerStatus : Type 0 where
  active closed quarantined : ContainerStatus

-- `material_containers`
pub record Container : Type 0 where
  pub id : ℕ
  pub container_code : String
  pub container_type : String
  pub location_id : ℕ
  pub status : ContainerStatus

pub data TrackingKind : Type 0 where
  lot serial : TrackingKind

pub data LotStatus : Type 0 where
  active quarantined closed : LotStatus

-- `material_lots`
pub record Lot : Type 0 where
  pub id : ℕ
  pub lot_code : String
  pub material_id : ℕ
  pub uom_id : ℕ
  pub tracking_kind : TrackingKind
  pub status : LotStatus
  pub evidence_reference : String

-- Of `materials`
pub record Material : Type 0 where
  pub id : ℕ
  pub material_code : String
  pub base_uom_id : ℕ

-- `inventory_balances`
pub record Balance : Type 0 where
  pub lot_id : ℕ
  pub location_id : ℕ
  pub container_key : String
  pub quantity : ℕ

pub data MovementType : Type 0 where
  receipt issue consume produce return_ transfer scrap rework adjustment : MovementType
  split_input split_output merge_input merge_output transform_input transform_output : MovementType

pub data Source : Type 0 where
  manual execution erp_simulated wms_simulated reconciliation : Source

-- `inventory_movements`
pub record Movement : Type 0 where
  pub movement_id : String
  pub movement_type : MovementType
  pub lot_id : ℕ
  pub quantity : ℕ
  pub from_location : Option ℕ
  pub to_location : Option ℕ
  pub from_container : Option String
  pub to_container : Option String
  pub operation_task_id : Option ℕ
  pub maintenance_order_code : Option String
  pub transformation_id : Option String
  pub reconciliation_case_id : Option ℕ
  pub source : Source
  pub request_hash : String
  pub recorded_by : String

pub data TransformationType : Type 0 where
  split merge consume_produce rework : TransformationType

-- `material_transformations`
pub record Transformation : Type 0 where
  pub transformation_id : String
  pub transformation_type : TransformationType
  pub operation_task_id : Option ℕ
  pub conversion_evidence_reference : String
  pub request_hash : String
  pub recorded_by : String

-- `genealogy_edges`
pub record GenealogyEdge : Type 0 where
  pub transformation_id : String
  pub parent_lot_id : ℕ
  pub child_lot_id : ℕ
  pub parent_quantity : ℕ
  pub child_quantity : ℕ

-- `external_inventory_imports`
pub record ExternalImport : Type 0 where
  pub id : ℕ
  pub import_id : String
  pub payload_hash : String
  pub created_by : String

pub data CaseStatus : Type 0 where
  open_case adjusted closed : CaseStatus

-- `inventory_reconciliation_cases`
pub record ReconciliationCase : Type 0 where
  pub id : ℕ
  pub external_import_id : ℕ
  pub lot_code : String
  pub location_code : String
  pub container_code : Option String
  pub expected_quantity : ℕ
  pub observed_quantity : ℕ
  pub status : CaseStatus
  pub adjustment_movement_id : Option String
  pub adjusted_by : Option String

-- Of `quality_holds`
pub record QualityHold : Type 0 where
  pub hold_code : String
  pub lot_id : ℕ
  pub is_open : Bool

pub record AuditEntry : Type 0 where
  pub actor : String
  pub action : String
  pub resource_id : String

-- The tables that the material flow reads and writes.
pub record Stock : Type 0 where
  pub warehouses : List Warehouse
  pub locations : List Location
  pub containers : List Container
  pub materials : List Material
  pub lots : List Lot
  pub balances : List Balance
  pub movements : List Movement
  pub transformations : List Transformation
  pub edges : List GenealogyEdge
  pub imports : List ExternalImport
  pub cases : List ReconciliationCase
  pub quality_holds : List QualityHold
  pub tasks : List Task
  pub maintenance_orders : List MaintenanceOrder
  pub audit : List AuditEntry

-- `MaterialFlowError`, by its code, and a constraint or trigger of the database that refuses.
pub data MaterialFlowError : Type 0 where
  duplicate_material_resource duplicate_movement duplicate_transformation : MaterialFlowError
  duplicate_external_import duplicate_genealogy_edge : MaterialFlowError
  reference_not_found lot_not_found location_not_found location_inactive : MaterialFlowError
  container_not_active container_location_mismatch quality_hold_active : MaterialFlowError
  operation_task_not_found execution_state_incompatible operation_task_required : MaterialFlowError
  maintenance_order_not_found maintenance_order_not_active lot_not_active : MaterialFlowError
  serial_quantity_invalid idempotency_key_reused : MaterialFlowError
  negative_inventory : ℕ → MaterialFlowError
  invalid_issue_destination invalid_scrap_destination invalid_rework_destination : MaterialFlowError
  material_conservation_violation quantity_conservation_violation : MaterialFlowError
  conversion_evidence_required genealogy_self_reference genealogy_cycle : MaterialFlowError
  reconciliation_not_found reconciliation_already_resolved : MaterialFlowError
  reconciliation_stale reconciliation_has_no_variance : MaterialFlowError
  constraint_violated : MaterialFlowError
