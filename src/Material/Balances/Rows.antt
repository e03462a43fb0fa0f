-- ===== src/Material/Balances/Rows.antt =====
-- The rows of balances (services/central-api/app/repositories/material_flow.py) under an insert and an
-- update.
use mini_ogas.Prelude.{
  ℕ, ◌+◌, ◌≡◌, Bool, true, ◌&&◌, List, [], ◌∷◌, ◌++◌, String, str_eq, eq_iff, eq_refl, arith, ◌==◌,
  any, if◌then◌else◌,
}
use mini_ogas.Material.Model.{Balance}
use mini_ogas.Material.Balances.{is_balance, quantity_at, lot_total, with_row, set_quantity}

-- The place of a row is the place that is asked for.
abbrev pub same_place : ℕ → ℕ → String → ℕ → ℕ → String → Bool
same_place lot location key lot' location' key' =
    lot == lot' && location == location' && str_eq key key'

module _ (lot location : ℕ) (key : String) where
  empty_row : Balance
  empty_row = record { lot_id = lot; location_id = location; container_key = key; quantity = 0 }

  quantity_at-append :
      (lot' location' : ℕ) (key' : String) (bs : List Balance)
      → quantity_at lot' location' key' (
          bs
          ++ record { lot_id = lot; location_id = location; container_key = key; quantity = 0 }
            ∷ [])
        ≡ quantity_at lot' location' key' bs
  quantity_at-append lot' location' key' [] = ground arith
  quantity_at-append lot' location' key' (b ∷ bs) =
      ground (arith, quantity_at-append lot' location' key' bs)

  -- The new row holds nothing.
  pub quantity_at-with_row :
      (lot' location' : ℕ) (key' : String) (bs : List Balance)
      → quantity_at lot' location' key' (with_row lot location key bs)
        ≡ quantity_at lot' location' key' bs
  quantity_at-with_row lot' location' key' bs =
      ground (arith, quantity_at-append lot' location' key' bs)

  any-append :
      (bs : List Balance)
      → any (is_balance lot location key) (
          bs
          ++ record { lot_id = lot; location_id = location; container_key = key; quantity = 0 }
            ∷ [])
        ≡ true
  any-append [] = ground (arith, eq_refl key)
  any-append (b ∷ bs) = ground (arith, any-append bs)

  pub any-with_row :
      (bs : List Balance) → any (is_balance lot location key) (with_row lot location key bs) ≡ true
  any-with_row bs = ground (arith, any-append bs)

  lot_total-append :
      (lot' : ℕ) (bs : List Balance)
      → lot_total lot' (
          bs
          ++ record { lot_id = lot; location_id = location; container_key = key; quantity = 0 }
            ∷ [])
        ≡ lot_total lot' bs
  lot_total-append lot' [] = ground arith
  lot_total-append lot' (b ∷ bs) = ground (arith, lot_total-append lot' bs)

  pub lot_total-with_row :
      (lot' : ℕ) (bs : List Balance)
      → lot_total lot' (with_row lot location key bs) ≡ lot_total lot' bs
  lot_total-with_row lot' bs = ground (arith, lot_total-append lot' bs)

  -- The update is seen at its place alone.
  pub quantity_at-set_quantity :
      (q lot' location' : ℕ) (key' : String) (bs : List Balance)
      → any (is_balance lot location key) bs ≡ true
      → quantity_at lot' location' key' (set_quantity lot location key q bs) ≡ (
          if same_place lot location key lot' location' key'
          then q
          else quantity_at lot' location' key' bs)
  quantity_at-set_quantity q lot' location' key' [] there = absurd (ground arith)
  quantity_at-set_quantity q lot' location' key' (b ∷ bs) there = ground (
    arith,
    eq_iff b.container_key key,
    eq_iff b.container_key key',
    eq_iff key key',
    quantity_at-set_quantity q lot' location' key' bs,
  )

  pub lot_total-set_quantity :
      (q lot' : ℕ) (bs : List Balance)
      → any (is_balance lot location key) bs ≡ true
      → lot_total lot' (set_quantity lot location key q bs)
          + (if lot == lot' then quantity_at lot location key bs else 0)
        ≡ lot_total lot' bs + (if lot == lot' then q else 0)
  lot_total-set_quantity q lot' [] there = absurd (ground arith)
  lot_total-set_quantity q lot' (b ∷ bs) there = ground (arith, lot_total-set_quantity q lot' bs)
