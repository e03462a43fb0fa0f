-- ===== src/Material/Postings/Effects.antt =====
-- What one posting does to the balances and to the movements
-- (services/central-api/app/repositories/material_flow.py).
use mini_ogas.Prelude.{
  ℕ, ◌+◌, ◌≤◌, ◌≡◌, refl, Bool, true, false, ◌&&◌, Option, none, some, [], ◌∷◌, ◌++◌, String, arith,
  ◌==◌, ok, subst, any,
}
use mini_ogas.Prelude.Actions.{pure, bind-ok, ◌>>◌}
use mini_ogas.Material.Model.{Lot, Location, Container, Movement, Stock}
use mini_ogas.Material.Access.{container_key, one, is_serial, is_held_lot}
use mini_ogas.Material.Balances.{
  Delta, apply_balance_delta, insert_movement, quantity_at, lot_total,
}
use mini_ogas.Material.Balances.Rows.{same_place}
use mini_ogas.Material.Balances.Changes.{
  Changes, apply_balance_delta-Changes, where_holds, added_by, taken_by,
}
use mini_ogas.Material.Postings.{text_or_empty, location_id, apply_at, post_entry}

-- An end of a movement is a place.
abbrev pub is_end : Option ℕ → Option String → ℕ → ℕ → ℕ → String → Bool
is_end none container own lot location key = false
is_end (some l) container own lot location key =
    same_place own l (text_or_empty container) lot location key

abbrev pub leaves : ℕ → ℕ → String → Movement → Bool
leaves lot location key m = is_end m.from_location m.from_container m.lot_id lot location key

abbrev pub enters : ℕ → ℕ → String → Movement → Bool
enters lot location key m = is_end m.to_location m.to_container m.lot_id lot location key

abbrev pub is_place : Option ℕ → Bool
is_place none = false
is_place (some l) = true

-- The row that is written says where the balances change.
pub record Describes (l : Lot) (from : Option Location) (from_container : Option Container)
    (to : Option Location) (to_container : Option Container) (m : Movement) : Type 0 where
  pub of_lot : m.lot_id ≡ l.id
  pub from_place : m.from_location ≡ location_id from
  pub to_place : m.to_location ≡ location_id to
  pub from_key : text_or_empty m.from_container ≡ container_key from_container
  pub to_key : text_or_empty m.to_container ≡ container_key to_container

pub record Posts (l : Lot) (m : Movement) (s s' : Stock) : Type 0 where
  pub only : s' ≡ record s { balances = s'.balances; movements = s.movements ++ m ∷ [] }
  pub by_place :
      (lot location : ℕ) (key : String)
      → quantity_at lot location key s'.balances
          + where_holds (leaves lot location key m) m.quantity
        ≡ quantity_at lot location key s.balances
          + where_holds (enters lot location key m) m.quantity
  pub by_lot :
      (lot : ℕ)
      → lot_total lot s'.balances
          + where_holds (is_place m.from_location && m.lot_id == lot) m.quantity
        ≡ lot_total lot s.balances
          + where_holds (is_place m.to_location && m.lot_id == lot) m.quantity
  pub serial_fits :
      is_serial l.tracking_kind ≡ true
      → lot_total l.id s.balances ≤ one + 1
      → lot_total l.id s'.balances ≤ one + 1
  pub not_held : any (is_held_lot m.lot_id) s.quality_holds ≡ false

-- Of a change at an end, where there is one.
record ChangesAt (l : Lot) (end : Option Location) (key : String) (delta : Delta) (s s' : Stock)
    : Type 0 where
  only_balances : s' ≡ record s { balances = s'.balances }
  by_place :
      (lot location : ℕ) (key' : String)
      → quantity_at lot location key' s'.balances
          + where_holds
              (is_end (location_id end) (some key) l.id lot location key')
              (taken_by delta)
        ≡ quantity_at lot location key' s.balances
          + where_holds
              (is_end (location_id end) (some key) l.id lot location key')
              (added_by delta)
  by_lot :
      (lot : ℕ)
      → lot_total lot s'.balances
          + where_holds (is_place (location_id end) && l.id == lot) (taken_by delta)
        ≡ lot_total lot s.balances
          + where_holds (is_place (location_id end) && l.id == lot) (added_by delta)
  serial_fits :
      is_serial l.tracking_kind ≡ true
      → lot_total l.id s.balances ≤ one + 1
      → lot_total l.id s'.balances ≤ one + 1

serial-stays :
    (l : Lot) (location : ℕ) (key : String) (delta : Delta) (s s' : Stock)
    → Changes l location key delta s s'
    → is_serial l.tracking_kind ≡ true
    → lot_total l.id s.balances ≤ one + 1
    → lot_total l.id s'.balances ≤ one + 1
serial-stays l location key (Delta.added d) s s' c serial before = ground (arith, c.by_lot l.id)
serial-stays l location key (Delta.taken d) s s' c serial before = ground (arith, c.by_lot l.id)

apply_at-ChangesAt :
    (l : Lot) (end : Option Location) (container : Option Container) (delta : Delta) (s s' : Stock)
    → apply_at l end container delta s ≡ ok (tt, s')
    → ChangesAt l end (container_key container) delta s s'
apply_at-ChangesAt l none container delta s s' h =
    let e : s' ≡ s = ground arith in
    rw e (record {
      only_balances = refl;
      by_place = λ lot location key. refl;
      by_lot = λ lot. refl;
      serial_fits = λ serial before. before;
    })
apply_at-ChangesAt l (some location) container delta s s' h =
    let (q, t, applied, rest) =
      bind-ok (apply_balance_delta l location container delta) (λ q. pure tt) s (tt, s') h in
    let c = apply_balance_delta-Changes l location container delta q s t applied in
    let e : t ≡ s' = ground arith in
    subst (λ u. ChangesAt l (some location) (container_key container) delta s u) e
      (record {
        only_balances = c.only_balances;
        by_place = c.by_place;
        by_lot = c.by_lot;
        serial_fits = serial-stays l location.id (container_key container) delta s t c;
      })

inserts :
    (m : Movement) (s s' : Stock)
    → insert_movement m s ≡ ok (tt, s')
    → (s' ≡ record s { movements = s.movements ++ m ∷ [] })
      × (any (is_held_lot m.lot_id) s.quality_holds ≡ false)
unfolding insert_movement
inserts m s s' h = ground arith

is_end-keys :
    (end : Option ℕ) (c c' : Option String) (own lot location : ℕ) (key : String)
    → text_or_empty c ≡ text_or_empty c'
    → is_end end c own lot location key ≡ is_end end c' own lot location key
is_end-keys none c c' own lot location key e = refl
is_end-keys (some l) c c' own lot location key e = rw e refl

Posts-of :
    (l : Lot) (from : Option Location) (from_container : Option Container) (to : Option Location)
    (to_container : Option Container) (m : Movement) (s t u s' : Stock)
    → Describes l from from_container to to_container m
    → ChangesAt l from (container_key from_container) (Delta.taken m.quantity) s t
    → ChangesAt l to (container_key to_container) (Delta.added m.quantity) t u
    → s' ≡ record u { movements = u.movements ++ m ∷ [] }
    → any (is_held_lot m.lot_id) u.quality_holds ≡ false
    → Posts l m s s'
Posts-of l from from_container to to_container m s t u s' d a b e free = rw e (record {
  only = ground (arith, a.only_balances, b.only_balances);
  by_place = λ lot location key.
      let left : leaves lot location key m
          ≡ is_end (location_id from) (some (container_key from_container)) l.id lot location key =
        rw (d.of_lot, d.from_place)
          (is_end-keys (location_id from) m.from_container (some (container_key from_container))
            l.id lot location key d.from_key) in
      let entered : enters lot location key m
          ≡ is_end (location_id to) (some (container_key to_container)) l.id lot location key =
        rw (d.of_lot, d.to_place)
          (is_end-keys (location_id to) m.to_container (some (container_key to_container)) l.id lot
            location key d.to_key) in
      rw (left, entered) (ground (arith, a.by_place lot location key, b.by_place lot location key));
  by_lot =
      λ lot. rw (d.of_lot, d.from_place, d.to_place) (ground (arith, a.by_lot lot, b.by_lot lot));
  serial_fits = λ serial before. b.serial_fits serial (a.serial_fits serial before);
  not_held = ground (arith, free, a.only_balances, b.only_balances);
})

pub post_entry-Posts :
    (l : Lot) (from : Option Location) (from_container : Option Container) (to : Option Location)
    (to_container : Option Container) (m : Movement) (s s' : Stock)
    → Describes l from from_container to to_container m
    → post_entry l from from_container to to_container m s ≡ ok (tt, s')
    → Posts l m s s'
unfolding post_entry
post_entry-Posts l from from_container to to_container m s s' d h =
    let (_, t, took, rest) =
      bind-ok (apply_at l from from_container (Delta.taken m.quantity))
        (λ _. apply_at l to to_container (Delta.added m.quantity) >> insert_movement m) s (tt, s')
        h in
    let (_, u, gave, last) =
      bind-ok (apply_at l to to_container (Delta.added m.quantity)) (λ _. insert_movement m) t
        (tt, s') rest in
    let a = apply_at-ChangesAt l from from_container (Delta.taken m.quantity) s t took in
    let b = apply_at-ChangesAt l to to_container (Delta.added m.quantity) t u gave in
    Posts-of l from from_container to to_container m s t u s' d a b (inserts m u s' last).0
      (inserts m u s' last).1
