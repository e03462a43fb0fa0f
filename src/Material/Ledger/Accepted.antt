-- ===== src/Material/Ledger/Accepted.antt =====
-- A recorded movement keeps the invariant of the material flow
-- (services/central-api/app/repositories/material_flow.py).
use mini_ogas.Prelude.{
  ◌≡◌, refl, Option, none, some, String, str_eq, arith, find, ok, Option-cases, inl, inr, subst,
  sym, ap,
}
use mini_ogas.Prelude.Actions.{pure, bind-ok, bind-Reads, ◌>>◌}
use mini_ogas.Material.Model.{Location, Container, Lot, Movement, Stock}
use mini_ogas.Material.Access.{
  container_key, container_code, require_some_location, resolve_container, write_audit,
}
use mini_ogas.Material.Reads.{
  require_movable_lot_found, require_authority-Reads, require_order-Reads,
  require_some_location-Reads, resolve_container-Reads, validate_location_semantics-Reads,
}
use mini_ogas.Material.Postings.{text_or_empty, post_entry}
use mini_ogas.Material.Postings.Effects.{Posts, post_entry-Posts}
use mini_ogas.Material.Movements.{MovementIn}
use mini_ogas.Material.Movements.Recording.{
  movement_of, is_movement, post_movement, accept_movement, record_movement, require_movable_lot,
  require_authority, require_order, validate_location_semantics,
}
use mini_ogas.Material.Ledger.Consistency.{IsConsistent, Posts-IsConsistent, Quiet-IsConsistent}

pub text-container : (c : Option Container) → text_or_empty (container_code c) ≡ container_key c
text-container none = refl
text-container (some c) = refl

-- What an accepted movement was found to be, and what it left.
pub record Accepts (p : MovementIn) (hash actor : String) (s : Stock) (m : Movement) (s' : Stock)
    : Type 0 where
  pub lot : Lot
  pub from : Option Location
  pub to : Option Location
  pub from_container : Option Container
  pub to_container : Option Container
  pub posted : Stock
  pub lot_there : find (λ (k : Lot). str_eq k.lot_code p.lot_code) s.lots ≡ some lot
  pub from_there : require_some_location p.from_location_code s ≡ ok (from, s)
  pub to_there : require_some_location p.to_location_code s ≡ ok (to, s)
  pub row : m ≡ movement_of p lot from to from_container to_container hash actor
  pub posts : Posts lot m s posted
  pub audited : s' ≡ record posted { audit = s'.audit }

post_movement_lem :
    (p : MovementIn) (l : Lot) (from to : Option Location)
    (from_container to_container : Option Container) (hash actor : String) (s : Stock)
    (m : Movement) (s' : Stock)
    → post_movement p l from to from_container to_container hash actor s ≡ ok (m, s')
    → (t : Stock) × (m ≡ movement_of p l from to from_container to_container hash actor)
      × Posts l m s t
      × (s' ≡ record t { audit = s'.audit })
unfolding post_movement
post_movement_lem p l from to from_container to_container hash actor s m s' h =
    let n = movement_of p l from to from_container to_container hash actor in
    let (_, t, posted, rest) =
      bind-ok (post_entry l from from_container to to_container n)
        (λ _. write_audit actor "material-flow:movement-recorded" p.movement_id >> pure n) s (m, s')
        h in
    let posts =
      post_entry-Posts l from from_container to to_container n s t
        (record {
          of_lot = refl;
          from_place = refl;
          to_place = refl;
          from_key = text-container from_container;
          to_key = text-container to_container;
        })
        posted in
    let same : m ≡ n = ground arith in
    (t, same, subst (λ x. Posts l x s t) (sym same) posts, ground arith)

pub accept_movement-Accepts :
    (p : MovementIn) (hash actor : String) (s : Stock) (m : Movement) (s' : Stock)
    → accept_movement p hash actor s ≡ ok (m, s')
    → Accepts p hash actor s m s'
unfolding accept_movement
accept_movement-Accepts p hash actor s m s' h =
    let (l, e, h1) =
      bind-Reads (require_movable_lot p.lot_code p.quantity) _ s (m, s')
        (λ t a u g. (require_movable_lot_found p.lot_code p.quantity t a u g).1) h in
    let (_, _, h2) = bind-Reads (require_authority p) _ s (m, s') (require_authority-Reads p) h1 in
    let (_, _, h3) =
      bind-Reads (require_order p.maintenance_order_code) _ s (m, s')
        (require_order-Reads p.maintenance_order_code) h2 in
    let (from, from_there, h4) =
      bind-Reads (require_some_location p.from_location_code) _ s (m, s')
        (require_some_location-Reads p.from_location_code) h3 in
    let (to, to_there, h5) =
      bind-Reads (require_some_location p.to_location_code) _ s (m, s')
        (require_some_location-Reads p.to_location_code) h4 in
    let (fc, _, h6) =
      bind-Reads (resolve_container p.from_container_code from) _ s (m, s')
        (resolve_container-Reads p.from_container_code from) h5 in
    let (tc, _, h7) =
      bind-Reads (resolve_container p.to_container_code to) _ s (m, s')
        (resolve_container-Reads p.to_container_code to) h6 in
    let (_, _, h8) =
      bind-Reads (validate_location_semantics p.movement_type to) _ s (m, s')
        (validate_location_semantics-Reads p.movement_type to) h7 in
    let (t, row, posts, audited) = post_movement_lem p l from to fc tc hash actor s m s' h8 in
    record {
      lot = l;
      from = from;
      to = to;
      from_container = fc;
      to_container = tc;
      posted = t;
      lot_there = (require_movable_lot_found p.lot_code p.quantity s l s e).0;
      from_there = from_there;
      to_there = to_there;
      row = row;
      posts = posts;
      audited = audited;
    }

Accepts-IsConsistent :
    {base : Stock} (p : MovementIn) (hash actor : String) (s : Stock) (m : Movement) (s' : Stock)
    → Accepts p hash actor s m s'
    → IsConsistent base s
    → IsConsistent base s'
Accepts-IsConsistent p hash actor s m s' a c =
    let known = c.lots_found p.lot_code a.lot a.lot_there in
    let of_lot : m.lot_id ≡ a.lot.id = ap (λ (x : Movement). x.lot_id) a.row in
    Quiet-IsConsistent a.posted s' (ground (arith, a.audited))
      (Posts-IsConsistent a.lot m s a.posted known of_lot a.posts c)

pub record_movement-IsConsistent :
    {base : Stock} (request_hash : MovementIn → String) (p : MovementIn) (actor : String)
    (s : Stock) (m : Movement) (s' : Stock)
    → record_movement request_hash p actor s ≡ ok (m, s')
    → IsConsistent base s
    → IsConsistent base s'
unfolding record_movement
record_movement-IsConsistent request_hash p actor s m s' h c =
    elim (Option-cases (find (is_movement p.movement_id) s.movements)) [
      | inl e ↦
          let h' : accept_movement p (request_hash p) actor s ≡ ok (m, s') = ground (arith, e) in
          Accepts-IsConsistent p (request_hash p) actor s m s'
            (accept_movement-Accepts p (request_hash p) actor s m s' h') c
      | inr (n, e) ↦ let same : s' ≡ s = ground (arith, e) in subst (IsConsistent _) (sym same) c
    ]
