-- ===== src/Material/Ledger/Created.antt =====
-- New warehouses, locations, containers and lots keep the invariant of the material flow
-- (services/central-api/app/repositories/material_flow.py).
use mini_ogas.Prelude.{
  ℕ, ◌+◌, ◌≤◌, ◌≡◌, refl, Bool, true, none, some, List, [], ◌∷◌, ◌++◌, String, str_eq, arith, ◌==◌,
  find, ok, Option-cases, inl, inr, subst, sym, if◌then◌else◌,
}
use mini_ogas.Prelude.Actions.{bind-Reads}
use mini_ogas.Material.Model.{Warehouse, Location, Container, Lot, Stock}
use mini_ogas.Material.Access.{require_location, is_serial, one}
use mini_ogas.Material.Reads.{require_location-Reads}
use mini_ogas.Material.Balances.{lot_total}
use mini_ogas.Material.Catalog.{
  WarehouseIn, LocationIn, ContainerIn, LotIn, fresh_id, create_warehouse, create_location,
  create_container, create_lot,
}
use mini_ogas.Material.Ledger.Consistency.{IsConsistent, lot_by_id, lot_by_code, Quiet}

pub create_warehouse-Quiet :
    (p : WarehouseIn) (actor : String) (s : Stock) (w : Warehouse) (s' : Stock)
    → create_warehouse p actor s ≡ ok (w, s')
    → Quiet s s'
unfolding create_warehouse
create_warehouse-Quiet p actor s w s' h = ground arith

pub create_location-Quiet :
    (p : LocationIn) (actor : String) (s : Stock) (l : Location) (s' : Stock)
    → create_location p actor s ≡ ok (l, s')
    → Quiet s s'
unfolding create_location
create_location-Quiet p actor s l s' h = ground arith

pub create_container-Quiet :
    (p : ContainerIn) (actor : String) (s : Stock) (c : Container) (s' : Stock)
    → create_container p actor s ≡ ok (c, s')
    → Quiet s s'
unfolding create_container
create_container-Quiet p actor s c s' h =
    let (l, _, rest) =
      bind-Reads (require_location p.location_code) _ s (c, s')
        (require_location-Reads p.location_code) h in
    ground arith

fresh_bound : (n : ℕ) (ls : List Lot) → fresh_id (λ (l : Lot). l.id) ls ≤ n → lot_by_id n ls ≡ none
fresh_bound n [] h = refl
fresh_bound n (l ∷ ls) h = ground (arith, fresh_bound n ls)

find-append-one {ℓ} :
    {A : Type ℓ} (test : A → Bool) (xs : List A) (x : A)
    → find test xs ≡ none
    → find test (xs ++ x ∷ []) ≡ (if test x then some x else none)
find-append-one test [] x h = ground arith
find-append-one test (y ∷ xs) x h = ground (arith, find-append-one test xs x)

find-append-some {ℓ} :
    {A : Type ℓ} (test : A → Bool) (xs ys : List A) (x : A)
    → find test xs ≡ some x
    → find test (xs ++ ys) ≡ some x
find-append-some test [] ys x h = absurd (ground arith)
find-append-some test (y ∷ xs) ys x h = ground (arith, find-append-some test xs ys x)

-- A lot that is added under a number that no lot has.
module _ {base : Stock} (l : Lot) (s s' : Stock) (c : IsConsistent base s)
    (fresh : lot_by_id l.id s.lots ≡ none) (same_balances : s'.balances ≡ s.balances)
    (same_movements : s'.movements ≡ s.movements) (same_edges : s'.edges ≡ s.edges)
    (same_holds : s'.quality_holds ≡ s.quality_holds) (lots : s'.lots ≡ s.lots ++ l ∷ []) where
  found_by_id :
      (n : ℕ)
      → lot_by_id n s.lots ≡ none
      → lot_by_id n s'.lots ≡ (if l.id == n then some l else none)
  found_by_id n h = rw lots (find-append-one (λ (k : Lot). k.id == n) s.lots l h)

  kept_by_id : (n : ℕ) (k : Lot) → lot_by_id n s.lots ≡ some k → lot_by_id n s'.lots ≡ some k
  kept_by_id n k h = rw lots (find-append-some (λ (k : Lot). k.id == n) s.lots (l ∷ []) k h)

  lots_found_after :
      (code : String) (k : Lot)
      → lot_by_code code s'.lots ≡ some k
      → lot_by_id k.id s'.lots ≡ some k
  lots_found_after code k h = elim (Option-cases (lot_by_code code s.lots)) [
    | inr (j, e) ↦
        let kept = find-append-some (λ (k : Lot). str_eq k.lot_code code) s.lots (l ∷ []) j e in
        let same : j ≡ k = ground (arith, kept, lots) in
        subst (λ x. lot_by_id x.id s'.lots ≡ some x) same
          (kept_by_id j.id j (c.lots_found code j e))
    | inl e ↦
        let added = find-append-one (λ (k : Lot). str_eq k.lot_code code) s.lots l e in
        let same : l ≡ k = ground (arith, added, lots) in
        subst (λ x. lot_by_id x.id s'.lots ≡ some x) same (ground (arith, found_by_id l.id fresh))
  ]

  serial_after :
      (n : ℕ) (k : Lot)
      → lot_by_id n s'.lots ≡ some k
      → is_serial k.tracking_kind ≡ true
      → lot_total n s'.balances ≤ one + 1
  serial_after n k h serial = elim (Option-cases (lot_by_id n s.lots)) [
    | inr (j, e) ↦
        let same : j ≡ k = ground (arith, kept_by_id n j e) in
        let fits =
          c.serial_fits n j e (subst (λ x. is_serial x.tracking_kind ≡ true) (sym same) serial) in
        rw same_balances fits
    | inl e ↦ rw (same_balances, c.no_stray n e) (omega arith)
  ]

  no_stray_after : (n : ℕ) → lot_by_id n s'.lots ≡ none → lot_total n s'.balances ≡ 0
  no_stray_after n h = elim (Option-cases (lot_by_id n s.lots)) [
    | inr (j, e) ↦ absurd (ground (arith, kept_by_id n j e))
    | inl e ↦ rw same_balances (c.no_stray n e)
  ]

  with_lot-IsConsistent : IsConsistent base s'
  with_lot-IsConsistent = record {
    agrees = rw (same_balances, same_movements) c.agrees;
    lots_found = lots_found_after;
    serial_fits = serial_after;
    no_stray = no_stray_after;
    holds = rw same_holds c.holds;
    held_fixed = rw same_balances c.held_fixed;
    acyclic = rw same_edges c.acyclic;
  }

pub create_lot-IsConsistent :
    {base : Stock} (p : LotIn) (actor : String) (s : Stock) (l : Lot) (s' : Stock)
    → create_lot p actor s ≡ ok (l, s')
    → IsConsistent base s
    → IsConsistent base s'
unfolding create_lot
create_lot-IsConsistent p actor s l s' h c =
    let added : (l.id ≡ fresh_id (λ (k : Lot). k.id) s.lots)
        × (s'.balances ≡ s.balances)
        × (s'.movements ≡ s.movements)
        × (s'.edges ≡ s.edges)
        × (s'.quality_holds ≡ s.quality_holds)
        × (s'.lots ≡ s.lots ++ l ∷ []) =
      ground arith in
    let (number, balances, movements, edges, holds, lots) = added in
    with_lot-IsConsistent l s s' c (fresh_bound l.id s.lots (omega (arith, number))) balances
      movements edges holds lots
