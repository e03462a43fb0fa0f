-- ===== src/Material/Tests.antt =====
-- Runs of services/central-api/app/repositories/material_flow.py on a small store, and its theorems at
-- these runs.
use mini_ogas.Prelude.{
  ◌+◌, ◌*◌, ◌≤◌, ◌≡◌, ◌↔◌, refl, true, none, some, find, str_eq, ok, err, if◌then◌else◌,
}
use mini_ogas.Prelude.Actions.{is_ok, ran}
use mini_ogas.Material.Model.{Lot, Movement, TrackingKind, MaterialFlowError}
use mini_ogas.Material.Access.{
  one, is_serial, decimal, require_lot, require_location, require_some_location, resolve_container,
}
use mini_ogas.Material.Balances.{quantity_at, lot_total, apply_balance_delta, insert_movement}
use mini_ogas.Material.Catalog.{lot_of, create_lot}
use mini_ogas.Material.Postings.{post_entry}
use mini_ogas.Material.Movements.{is_valid_movement}
use mini_ogas.Material.Movements.Recording.{
  is_movement, record_movement, accept_movement, post_movement, require_authority, require_order,
  require_movable_lot,
}
use mini_ogas.Material.Genealogy.{is_descendant}
use mini_ogas.Material.Genealogy.Lineage.{Descends, is_descendant-Descends}
use mini_ogas.Material.Transformations.{
  resolve_leg, resolve_legs, validate_semantics, require_task_of,
}
use mini_ogas.Material.Transformations.Recording.{
  record_transformation, accept_transformation, write_transformation, insert_transformation,
  post_legs, post_leg, leg_movement_id,
}
use mini_ogas.Material.Ledger.{inflow, outflow}
use mini_ogas.Material.Ledger.Consistency.{lot_by_id, is_held}
use mini_ogas.Material.Ledger.Movements.{record_movement-again, record_movement-lot_total}
use mini_ogas.Material.Ledger.Runs.{
  StockOperation, Change, Reached, StockOperation-held, Reached-quantity_at, Reached-lot_total,
  Reached-acyclic,
}
use mini_ogas.Material.Samples.{
  digests, empty_stock, lot_in, receipt, cutting, with_sheet, with_plate, with_lots, received,
  divided, on_hold, rest_receipt, rest_received,
}

sheet-created : is_ok (create_lot (lot_in "sheet" TrackingKind.lot) "ada" empty_stock) ≡ true
unfolding create_lot
sheet-created = refl

plate-created : is_ok (create_lot (lot_in "plate" TrackingKind.serial) "ada" with_sheet) ≡ true
unfolding create_lot with_sheet
plate-created = refl

rest-created : is_ok (create_lot (lot_in "rest" TrackingKind.lot) "ada" with_plate) ≡ true
unfolding create_lot with_sheet with_plate
rest-created = refl

sheet-received : is_ok (record_movement digests.of_movement receipt "ada" with_lots) ≡ true
unfolding create_lot with_sheet with_plate with_lots record_movement accept_movement post_movement
    post_entry require_authority require_order require_movable_lot require_lot require_location
    require_some_location resolve_container apply_balance_delta insert_movement
sheet-received = refl

sheet-divided :
    is_ok (record_transformation digests.of_transformation digests.of_leg cutting "ada" received)
    ≡ true
unfolding create_lot with_sheet with_plate with_lots received record_movement accept_movement
    post_movement post_entry require_authority require_order require_movable_lot require_lot
    require_location require_some_location resolve_container apply_balance_delta insert_movement
    record_transformation accept_transformation write_transformation insert_transformation post_legs
    post_leg leg_movement_id resolve_leg resolve_legs validate_semantics require_task_of
    is_descendant decimal
sheet-divided = refl

lots-Reached : Reached digests with_lots
unfolding with_sheet with_plate with_lots
lots-Reached =
    let (a, sheet) =
      ran (create_lot (lot_in "sheet" TrackingKind.lot) "ada" empty_stock) empty_stock
        sheet-created in
    let (b, plate) =
      ran (create_lot (lot_in "plate" TrackingKind.serial) "ada" with_sheet) with_sheet
        plate-created in
    let (c, rest) =
      ran (create_lot (lot_in "rest" TrackingKind.lot) "ada" with_plate) with_plate rest-created in
    Reached.changes with_plate with_lots
      (Reached.changes with_sheet with_plate
        (Reached.changes empty_stock with_sheet
          (Reached.begins empty_stock (refl, refl, refl, refl))
          (Change.operates (StockOperation.lot (lot_in "sheet" TrackingKind.lot) "ada" a sheet)))
        (Change.operates (StockOperation.lot (lot_in "plate" TrackingKind.serial) "ada" b plate)))
      (Change.operates (StockOperation.lot (lot_in "rest" TrackingKind.lot) "ada" c rest))

divided-Reached : Reached digests divided
unfolding received divided
divided-Reached =
    let (m, in_stock) =
      ran (record_movement digests.of_movement receipt "ada" with_lots) with_lots sheet-received in
    let (t, cut) =
      ran (record_transformation digests.of_transformation digests.of_leg cutting "ada" received)
        received sheet-divided in
    Reached.changes received divided
      (Reached.changes with_lots received lots-Reached
        (Change.operates (StockOperation.movement receipt "ada" m in_stock)))
      (Change.operates (StockOperation.transformation cutting "ada" t cut))

Reached-quantity_at_example :
    quantity_at 3 1 "" divided.balances + outflow 3 1 "" divided.movements
    ≡ inflow 3 1 "" divided.movements
Reached-quantity_at_example = Reached-quantity_at digests divided divided-Reached 3 1 ""

plate-kind : (l : Lot) × (lot_by_id 2 divided.lots ≡ some l) × (is_serial l.tracking_kind ≡ true)
unfolding create_lot with_sheet with_plate with_lots received record_movement accept_movement
    post_movement post_entry require_authority require_order require_movable_lot require_lot
    require_location require_some_location resolve_container apply_balance_delta insert_movement
    record_transformation accept_transformation write_transformation insert_transformation post_legs
    post_leg leg_movement_id resolve_leg resolve_legs validate_semantics require_task_of
    is_descendant decimal divided
plate-kind = (
  lot_of (lot_in "plate" TrackingKind.serial)
      (record { id = 1; material_code = "steel"; base_uom_id = 1 }) 2,
  refl,
  refl,
)

Reached-lot_total_example : lot_total 2 divided.balances ≤ one + 1
Reached-lot_total_example =
    Reached-lot_total digests divided divided-Reached 2 plate-kind.0 plate-kind.1 plate-kind.2

Reached-acyclic_example : ¬ Descends divided.edges 1 1
Reached-acyclic_example = Reached-acyclic digests divided divided-Reached 1

is_descendant-Descends_example :
    (is_descendant divided.edges 1 2 ≡ true) ↔ Descends divided.edges 1 2
is_descendant-Descends_example = is_descendant-Descends divided.edges 1 2

received-answer :
    (m : Movement) × (record_movement digests.of_movement receipt "ada" with_lots
      ≡ ok (m, received))
unfolding received
received-answer =
    ran (record_movement digests.of_movement receipt "ada" with_lots) with_lots sheet-received

record_movement-again_example : record_movement digests.of_movement receipt "bob" received ≡ (
    if str_eq receipt.evidence_reference receipt.evidence_reference
    then ok (received-answer.0, received)
    else err MaterialFlowError.idempotency_key_reused)
record_movement-again_example =
    record_movement-again digests.of_movement receipt "ada" with_lots received-answer.0 received
      receipt "bob" received-answer.1 refl

receipt-new :
    (is_valid_movement receipt ≡ true)
    × (find (is_movement receipt.movement_id) with_lots.movements ≡ none)
    × (find (λ (k : Lot). str_eq k.lot_code "sheet") with_lots.lots
        ≡ some (
            lot_of
              (lot_in "sheet" TrackingKind.lot)
              (record { id = 1; material_code = "steel"; base_uom_id = 1 })
              1))
unfolding is_valid_movement create_lot with_sheet with_plate with_lots
receipt-new = (refl, refl, refl)

record_movement-lot_total_example :
    lot_total 1 received.balances + 0 ≡ lot_total 1 with_lots.balances + 3 * one
record_movement-lot_total_example =
    record_movement-lot_total digests.of_movement receipt "ada" with_lots received-answer.0 received
      (lot_of (lot_in "sheet" TrackingKind.lot)
        (record { id = 1; material_code = "steel"; base_uom_id = 1 }) 1)
      receipt-new.0 receipt-new.1 receipt-new.2 received-answer.1 1

rest-received : is_ok (record_movement digests.of_movement rest_receipt "ada" on_hold) ≡ true
unfolding create_lot with_sheet with_plate with_lots received record_movement accept_movement
    post_movement post_entry require_authority require_order require_movable_lot require_lot
    require_location require_some_location resolve_container apply_balance_delta insert_movement
    on_hold
rest-received = refl

on_hold-Reached : Reached digests on_hold
unfolding received on_hold
on_hold-Reached =
    let (m, in_stock) =
      ran (record_movement digests.of_movement receipt "ada" with_lots) with_lots sheet-received in
    Reached.changes received on_hold
      (Reached.changes with_lots received lots-Reached
        (Change.operates (StockOperation.movement receipt "ada" m in_stock)))
      (Change.elsewhere refl)

sheet-held : is_held 1 on_hold ≡ true
unfolding on_hold
sheet-held = refl

rest-StockOperation : StockOperation digests on_hold rest_received
unfolding rest_received
rest-StockOperation =
    let (m, in_stock) =
      ran (record_movement digests.of_movement rest_receipt "ada" on_hold) on_hold rest-received in
    StockOperation.movement rest_receipt "ada" m in_stock

StockOperation-held_example :
    quantity_at 1 1 "" rest_received.balances ≡ quantity_at 1 1 "" on_hold.balances
StockOperation-held_example =
    StockOperation-held digests on_hold rest_received on_hold-Reached rest-StockOperation 1
      sheet-held 1 ""
