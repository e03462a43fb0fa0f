-- ===== src/Material/Samples.antt =====
-- A small store for services/central-api/app/repositories/material_flow.py, and requests to it.
use mini_ogas.Prelude.{ℕ, ◌*◌, true, none, some, [], ◌∷◌, String}
use mini_ogas.Prelude.Actions.{state_of}
use mini_ogas.Material.Model.{
  Location, LocationType, Stock, TrackingKind, MovementType, Source, TransformationType,
}
use mini_ogas.Material.Access.{one}
use mini_ogas.Material.Catalog.{LotIn, create_lot}
use mini_ogas.Material.Movements.{MovementIn}
use mini_ogas.Material.Movements.Recording.{record_movement}
use mini_ogas.Material.Transformations.{LegIn, TransformationIn}
use mini_ogas.Material.Transformations.Recording.{record_transformation}
use mini_ogas.Material.Ledger.Runs.{Digests}

abbrev pub digests : Digests
digests = record {
  of_movement = λ p. p.evidence_reference;
  of_transformation = λ p. p.conversion_evidence_reference;
  of_leg = λ hash direction index. hash;
  of_snapshot = λ p. p.import_id;
  of_adjustment = λ n p. p.evidence_reference;
}

abbrev pub shelf : Location
shelf = record {
  id = 1;
  location_code = "shelf";
  warehouse_id = 1;
  name = "shelf";
  location_type = LocationType.storage;
  active = true;
}

abbrev pub empty_stock : Stock
empty_stock = record {
  warehouses = [];
  locations = shelf ∷ [];
  containers = [];
  materials = record { id = 1; material_code = "steel"; base_uom_id = 1 } ∷ [];
  lots = [];
  balances = [];
  movements = [];
  transformations = [];
  edges = [];
  imports = [];
  cases = [];
  quality_holds = [];
  tasks = [];
  maintenance_orders = [];
  audit = [];
}

abbrev pub lot_in : String → TrackingKind → LotIn
lot_in code kind = record {
  lot_code = code;
  material_code = "steel";
  tracking_kind = kind;
  evidence_reference = "note";
}

abbrev pub receipt : MovementIn
receipt = record {
  movement_id = "m-1";
  movement_type = MovementType.receipt;
  lot_code = "sheet";
  quantity = 3 * one;
  from_location_code = none;
  to_location_code = some "shelf";
  from_container_code = none;
  to_container_code = none;
  operation_task_id = none;
  maintenance_order_code = none;
  source = Source.manual;
  reason = "delivered";
  evidence_reference = "note-1";
}

abbrev pub leg_in : String → ℕ → LegIn
leg_in code q = record {
  lot_code = code;
  quantity = q;
  location_code = "shelf";
  container_code = none;
}

abbrev pub cutting : TransformationIn
cutting = record {
  transformation_id = "t-1";
  transformation_type = TransformationType.split;
  inputs = leg_in "sheet" (3 * one) ∷ [];
  outputs = leg_in "plate" one ∷ leg_in "rest" (2 * one) ∷ [];
  operation_task_id = none;
  conversion_evidence_reference = "";
}

-- Three lots, a receipt of the first, and the first split into the others.
unfoldable pub with_sheet : Stock
with_sheet = state_of (create_lot (lot_in "sheet" TrackingKind.lot) "ada" empty_stock) empty_stock

unfoldable pub with_plate : Stock
with_plate = state_of (create_lot (lot_in "plate" TrackingKind.serial) "ada" with_sheet) with_sheet

unfoldable pub with_lots : Stock
with_lots = state_of (create_lot (lot_in "rest" TrackingKind.lot) "ada" with_plate) with_plate

unfoldable pub received : Stock
received = state_of (record_movement digests.of_movement receipt "ada" with_lots) with_lots

unfoldable pub divided : Stock
divided =
    state_of (record_transformation digests.of_transformation digests.of_leg cutting "ada" received)
      received

-- The received lot is put on hold, and another lot is received.
unfoldable pub on_hold : Stock
on_hold = record received {
  quality_holds = record { hold_code = "h-1"; lot_id = 1; is_open = true } ∷ [];
}

abbrev pub rest_receipt : MovementIn
rest_receipt = record receipt { movement_id = "m-2"; lot_code = "rest" }

unfoldable pub rest_received : Stock
rest_received = state_of (record_movement digests.of_movement rest_receipt "ada" on_hold) on_hold
