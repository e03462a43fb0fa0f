-- ===== src/Material/Reconciliation.antt =====
-- services/central-api/app/repositories/material_flow.py: balances are compared with a snapshot of another
-- system.
use mini_ogas.Prelude.{
  ℕ, ◌+◌, Bool, true, false, not, ◌&&◌, Option, none, some, List, [], ◌∷◌, ◌++◌, String, str_eq,
  leb, find, any, length, err,
}
use mini_ogas.Prelude.Actions.{pure, gets, modify, ◌>>=◌, ◌>>◌}
use mini_ogas.Material.Model.{ExternalImport, CaseStatus, Stock, MaterialFlowError}
use mini_ogas.Material.Access.{
  Action, same_quantity, require_lot, require_location, resolve_container, container_key,
  container_code, write_audit,
}
use mini_ogas.Material.Balances.{quantity_at}
use mini_ogas.Material.Postings.{text_or_empty}

-- `ExternalSnapshotItemIn`
pub record SnapshotItemIn : Type 0 where
  pub lot_code : String
  pub location_code : String
  pub container_code : Option String
  pub observed_quantity : ℕ

-- `ExternalSnapshotIn`, as it is read.
pub record SnapshotIn : Type 0 where
  pub import_id : String
  pub items : List SnapshotItemIn

-- `validate_snapshot`, with the bounds on the number of items.
abbrev pub same_item : SnapshotItemIn → SnapshotItemIn → Bool
same_item a b =
    str_eq a.lot_code b.lot_code
    && str_eq a.location_code b.location_code
    && str_eq (text_or_empty a.container_code) (text_or_empty b.container_code)

abbrev pub are_unique_items : List SnapshotItemIn → Bool
are_unique_items [] = true
are_unique_items (i ∷ is) = not (any (same_item i) is) && are_unique_items is

unfoldable pub is_valid_snapshot : SnapshotIn → Bool
is_valid_snapshot p =
    leb 1 (length p.items) && leb (length p.items) 1000 && are_unique_items p.items

-- A number of a row: rows are never deleted.
abbrev pub next_case_id : Stock → ℕ
next_case_id s = length s.cases + 1

abbrev pub is_import : String → ExternalImport → Bool
is_import id i = str_eq i.import_id id

-- One round of the loop over the items. The code of a case, its import's and the item's number, is
-- left out: it is new, since the import is.
unfoldable pub compare_item : ℕ → SnapshotItemIn → Action (Unit {0})
unfolding require_lot require_location resolve_container
compare_item import_id item = do
  l ← require_lot item.lot_code
  location ← require_location item.location_code
  container ← resolve_container item.container_code (some location)
  expected ← gets (λ s. quantity_at l.id location.id (container_key container) s.balances)
  elim (same_quantity expected item.observed_quantity) [
    | true ↦ pure tt
    | false ↦ modify (λ s. record s {
      cases =
          s.cases
          ++ record {
            id = next_case_id s;
            external_import_id = import_id;
            lot_code = l.lot_code;
            location_code = location.location_code;
            container_code = container_code container;
            expected_quantity = expected;
            observed_quantity = item.observed_quantity;
            status = CaseStatus.open_case;
            adjustment_movement_id = none;
            adjusted_by = none;
          }
            ∷ [];
    })
  ]

unfoldable pub compare_items : ℕ → List SnapshotItemIn → Action (Unit {0})
unfolding compare_item
compare_items import_id [] = pure tt
compare_items import_id (item ∷ items) =
    compare_item import_id item >> compare_items import_id items

abbrev pub import_of : SnapshotIn → String → String → Stock → ExternalImport
import_of p hash actor s = record {
  id = length s.imports + 1;
  import_id = p.import_id;
  payload_hash = hash;
  created_by = actor;
}

-- The digest of `_hash` is a parameter.
module _ (snapshot_hash : SnapshotIn → String) where
  unfoldable pub accept_snapshot : SnapshotIn → String → Action ExternalImport
  accept_snapshot p actor = do
    i ← gets (import_of p (snapshot_hash p) actor)
    modify (λ s. record s { imports = s.imports ++ i ∷ [] })
    compare_items i.id p.items
    write_audit actor "material-flow:external-snapshot-imported" p.import_id
    pure i

  -- `import_external_snapshot`
  unfoldable pub import_external_snapshot : SnapshotIn → String → Action ExternalImport
  import_external_snapshot p actor s = elim (find (is_import p.import_id) s.imports) [
    | some i ↦ elim (str_eq i.payload_hash (snapshot_hash p)) [
      | true ↦ pure i s
      | false ↦ err MaterialFlowError.idempotency_key_reused
    ]
    | none ↦ accept_snapshot p actor s
  ]
