-- ===== src/Material/Balances/Changes.antt =====
-- What one change of a balance does (services/central-api/app/repositories/material_flow.py).
use mini_ogas.Prelude.{
  ℕ, ◌+◌, ◌≡◌, refl, Bool, true, Option, List, String, arith, ◌==◌, if◌then◌else◌, Bool-cases, inl,
  inr, ok, eq_iff,
}
use mini_ogas.Material.Model.{Lot, Location, Container, Balance, Stock}
use mini_ogas.Material.Access.{container_key}
use mini_ogas.Material.Balances.{
  Delta, apply_balance_delta, quantity_at, lot_total, with_row, set_quantity, fits_serial,
}
use mini_ogas.Material.Balances.Rows.{
  same_place, quantity_at-with_row, any-with_row, lot_total-with_row, quantity_at-set_quantity,
  lot_total-set_quantity,
}

abbrev pub added_by : Delta → ℕ
added_by (Delta.added d) = d
added_by (Delta.taken d) = 0

abbrev pub taken_by : Delta → ℕ
taken_by (Delta.added d) = 0
taken_by (Delta.taken d) = d

-- The quantity, where a test holds.
abbrev pub where_holds : Bool → ℕ → ℕ
where_holds b q = if b then q else 0

pub record Changes (l : Lot) (location : ℕ) (key : String) (delta : Delta) (s s' : Stock)
    : Type 0 where
  pub only_balances : s' ≡ record s { balances = s'.balances }
  pub by_place :
      (lot' location' : ℕ) (key' : String)
      → quantity_at lot' location' key' s'.balances
          + where_holds (same_place l.id location key lot' location' key') (taken_by delta)
        ≡ quantity_at lot' location' key' s.balances
          + where_holds (same_place l.id location key lot' location' key') (added_by delta)
  pub by_lot :
      (lot' : ℕ)
      → lot_total lot' s'.balances + where_holds (l.id == lot') (taken_by delta)
        ≡ lot_total lot' s.balances + where_holds (l.id == lot') (added_by delta)
  pub serial_fits : fits_serial l delta s.balances ≡ true

quantity_at-same :
    (lot location : ℕ) (key : String) (lot' location' : ℕ) (key' : String) (bs : List Balance)
    → same_place lot location key lot' location' key' ≡ true
    → quantity_at lot' location' key' bs ≡ quantity_at lot location key bs
quantity_at-same lot location key lot' location' key' bs e =
    let places : (lot ≡ lot') × (location ≡ location') × (key ≡ key') =
      ground (arith, eq_iff key key') in
    let (a, b, c) = places in rw (a, b, c) refl

module _ (l : Lot) (location : Location) (container : Option Container) where
  written : ℕ → List Balance → List Balance
  written q bs =
      set_quantity l.id location.id (container_key container) q
        (with_row l.id location.id (container_key container) bs)

  abbrev Sums : Delta → ℕ → ℕ → Type 0
  Sums delta q q' = q' + taken_by delta ≡ q + added_by delta

  written-by_place :
      (delta : Delta) (q lot' location' : ℕ) (key' : String) (bs : List Balance)
      → Sums delta (quantity_at l.id location.id (container_key container) bs) q
      → quantity_at lot' location' key' (written q bs)
          + where_holds
              (same_place l.id location.id (container_key container) lot' location' key')
              (taken_by delta)
        ≡ quantity_at lot' location' key' bs
          + where_holds
              (same_place l.id location.id (container_key container) lot' location' key')
              (added_by delta)
  unfolding written
  written-by_place delta q lot' location' key' bs sums =
      let key = container_key container in
      let rows = with_row l.id location.id key bs in
      let set =
        quantity_at-set_quantity l.id location.id key q lot' location' key' rows
          (any-with_row l.id location.id key bs) in
      let row = quantity_at-with_row l.id location.id key lot' location' key' bs in
      elim (Bool-cases (same_place l.id location.id key lot' location' key')) [
        | inl e ↦
            let same = quantity_at-same l.id location.id key lot' location' key' bs e in
            ground (arith, set, row, e, same)
        | inr e ↦ ground (arith, set, row, e)
      ]

  written-by_lot :
      (delta : Delta) (q lot' : ℕ) (bs : List Balance)
      → Sums delta (quantity_at l.id location.id (container_key container) bs) q
      → lot_total lot' (written q bs) + where_holds (l.id == lot') (taken_by delta)
        ≡ lot_total lot' bs + where_holds (l.id == lot') (added_by delta)
  unfolding written
  written-by_lot delta q lot' bs sums =
      let key = container_key container in
      let rows = with_row l.id location.id key bs in
      ground (
        arith,
        lot_total-with_row l.id location.id key lot' bs,
        quantity_at-with_row l.id location.id key l.id location.id key bs,
        lot_total-set_quantity l.id location.id key q lot' rows
            (any-with_row l.id location.id key bs),
      )

  apply_balance_delta-parts :
      (delta : Delta) (q : ℕ) (s s' : Stock)
      → apply_balance_delta l location container delta s ≡ ok (q, s')
      → (fits_serial l delta s.balances ≡ true)
        × Sums delta (quantity_at l.id location.id (container_key container) s.balances) q
        × (s' ≡ record s { balances = written q s.balances })
  unfolding apply_balance_delta written
  apply_balance_delta-parts (Delta.added d) q s s' h = ground arith
  apply_balance_delta-parts (Delta.taken d) q s s' h = ground arith

  pub apply_balance_delta-Changes :
      (delta : Delta) (q : ℕ) (s s' : Stock)
      → apply_balance_delta l location container delta s ≡ ok (q, s')
      → Changes l location.id (container_key container) delta s s'
  apply_balance_delta-Changes delta q s s' h =
      let (fits, sums, e) = apply_balance_delta-parts delta q s s' h in
      rw e (record {
        only_balances = refl;
        by_place =
            λ lot' location' key'. written-by_place delta q lot' location' key' s.balances sums;
        by_lot = λ lot'. written-by_lot delta q lot' s.balances sums;
        serial_fits = fits;
      })
