-- ===== src/Material/Balances.antt =====
-- services/central-api/app/repositories/material_flow.py: the balances of a lot by its places.
pub mod Rows
pub mod Changes
use mini_ogas.Prelude.{
  ℕ, ◌+◌, ◌-◌, Bool, true, false, not, ◌&&◌, Option, none, some, List, [], ◌∷◌, ◌++◌, String,
  str_eq, leb, ltb, ◌==◌, find, any, update_first, if◌then◌else◌,
}
use mini_ogas.Prelude.Actions.{pure, gets, raise, check, modify, ◌>>=◌, ◌>>◌}
use mini_ogas.Material.Model.{Location, Container, Lot, Balance, Movement, Stock, MaterialFlowError}
use mini_ogas.Material.Access.{Action, one, is_serial, container_key, is_held_lot}

-- The change of a balance; the source has a number with a sign.
pub data Delta : Type 0 where
  added : ℕ → Delta
  taken : ℕ → Delta

abbrev pub is_balance : ℕ → ℕ → String → Balance → Bool
is_balance lot location key b =
    b.lot_id == lot && b.location_id == location && str_eq b.container_key key

-- `_balance_quantity`
abbrev pub quantity_of : Option Balance → ℕ
quantity_of none = 0
quantity_of (some b) = b.quantity

abbrev pub quantity_at : ℕ → ℕ → String → List Balance → ℕ
quantity_at lot location key bs = quantity_of (find (is_balance lot location key) bs)

-- `SUM(quantity)` over the rows of a lot
abbrev pub lot_total : ℕ → List Balance → ℕ
lot_total lot [] = 0
lot_total lot (b ∷ bs) = (if b.lot_id == lot then b.quantity else 0) + lot_total lot bs

-- The INSERT that does nothing where the row is there.
abbrev pub with_row : ℕ → ℕ → String → List Balance → List Balance
with_row lot location key bs =
    if any (is_balance lot location key) bs
    then bs
    else bs
      ++ record { lot_id = lot; location_id = location; container_key = key; quantity = 0 } ∷ []

-- The UPDATE of the one row.
abbrev pub set_quantity : ℕ → ℕ → String → ℕ → List Balance → List Balance
set_quantity lot location key q =
    update_first (is_balance lot location key) (λ b. record b { quantity = q })

-- `WHERE quantity+delta>=-0.000000001` finds the row, and `CHECK (quantity >= 0)` refuses what is
-- below zero.
abbrev pub checked_quantity : ℕ → Delta → Action ℕ
checked_quantity q (Delta.added d) = pure (q + d)
checked_quantity q (Delta.taken d) = elim (leb d q) [
  | true ↦ pure (q - d)
  | false ↦ elim (leb d (q + 1)) [
    | true ↦ raise MaterialFlowError.constraint_violated
    | false ↦ raise (MaterialFlowError.negative_inventory q)
  ]
]

-- A serial number stands for at most one unit.
abbrev pub fits_serial : Lot → Delta → List Balance → Bool
fits_serial l (Delta.taken d) bs = true
fits_serial l (Delta.added d) bs =
    not (is_serial l.tracking_kind && ltb (one + 1) (lot_total l.id bs + d))

-- `_apply_balance_delta`
unfoldable pub apply_balance_delta : Lot → Location → Option Container → Delta → Action ℕ
apply_balance_delta l location container delta = do
  let key = container_key container
  s ← gets (λ t. t)
  check (fits_serial l delta s.balances) MaterialFlowError.serial_quantity_invalid
  q ← checked_quantity (quantity_at l.id location.id key s.balances) delta
  modify (λ t. record t {
    balances = set_quantity l.id location.id key q (with_row l.id location.id key t.balances);
  })
  pure q

-- `_insert_movement`: numbers of movements are unique, a quantity is positive, and the trigger
-- `trg_quality_hold_blocks_movement` refuses a movement of a lot under an open hold.
unfoldable pub insert_movement : Movement → Action (Unit {0})
insert_movement m = do
  s ← gets (λ t. t)
  check (not (any (is_held_lot m.lot_id) s.quality_holds)) MaterialFlowError.constraint_violated
  check (not (any (λ n. str_eq n.movement_id m.movement_id) s.movements))
      MaterialFlowError.duplicate_movement
  check (ltb 0 m.quantity) MaterialFlowError.duplicate_movement
  modify (λ t. record t { movements = t.movements ++ m ∷ [] })
