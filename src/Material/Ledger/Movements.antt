-- ===== src/Material/Ledger/Movements.antt =====
-- What a recorded movement does to the quantities of its lot, and when it comes again
-- (services/central-api/app/repositories/material_flow.py).
use mini_ogas.Prelude.{
  ℕ, ◌+◌, ◌≡◌, refl, Bool, true, false, not, ◌&&◌, ◌||◌, Option, none, some, [], ◌∷◌, String,
  str_eq, eq_iff, eq_refl, ◌==◌, ltb, arith, find, find-append_none, ok, err, Option-cases,
  Bool-cases, inl, inr, subst, ap, ◌∙◌, if◌then◌else◌,
}
use mini_ogas.Material.Model.{Lot, Location, Movement, Stock, MaterialFlowError, MovementType}
use mini_ogas.Material.Access.{require_some_location, require_location}
use mini_ogas.Material.Balances.{lot_total}
use mini_ogas.Material.Balances.Changes.{where_holds}
use mini_ogas.Material.Postings.{location_id}
use mini_ogas.Material.Postings.Effects.{is_place}
use mini_ogas.Material.Movements.{
  MovementIn, is_valid_movement, is_inbound, is_outbound, is_bidirectional, is_requested, has_ends,
  has_places, has_authority, is_requested_source, is_given, is_code,
}
use mini_ogas.Material.Movements.Recording.{is_movement, record_movement}
use mini_ogas.Material.Ledger.Accepted.{Accepts, accept_movement-Accepts}

module _ (request_hash : MovementIn → String) (p : MovementIn) (actor : String) (s : Stock)
    (m : Movement) (s' : Stock) where
  fresh_row :
      (a : Accepts p (request_hash p) actor s m s')
      → find (is_movement p.movement_id) s.movements ≡ none
      → find (is_movement p.movement_id) s'.movements ≡ some m
  fresh_row a e = ground (
    arith,
    a.audited,
    a.posts.only,
    a.row,
    e,
    eq_refl p.movement_id,
    find-append_none (is_movement p.movement_id) s.movements (m ∷ []),
  )

  known_row :
      record_movement request_hash p actor s ≡ ok (m, s')
      → (find (is_movement p.movement_id) s'.movements ≡ some m) × (m.request_hash ≡ request_hash p)
  unfolding record_movement
  known_row h = elim (Option-cases (find (is_movement p.movement_id) s.movements)) [
    | inl e ↦
        let a = accept_movement-Accepts p (request_hash p) actor s m s' (ground (arith, e)) in
        (fresh_row a e, ap (λ (x : Movement). x.request_hash) a.row)
    | inr (n, e) ↦ ground (arith, e, eq_iff n.request_hash (request_hash p))
  ]

  -- When a movement was recorded, a request under its identifier in the tables that were left is
  -- answered by the same movement if its digest is the same, and is refused if it is not; either way
  -- the tables stay as they are.
  pub record_movement-again :
      (q : MovementIn) (actor' : String)
      → record_movement request_hash p actor s ≡ ok (m, s')
      → q.movement_id ≡ p.movement_id
      → record_movement request_hash q actor' s' ≡ (
          if str_eq (request_hash p) (request_hash q)
          then ok (m, s')
          else err MaterialFlowError.idempotency_key_reused)
  unfolding record_movement
  record_movement-again q actor' h same =
      let (found, digest) = known_row h in
      elim (Bool-cases (str_eq (request_hash p) (request_hash q))) [
        | inl e ↦ ground (arith, found, digest, same, e)
        | inr e ↦ ground (arith, found, digest, same, e)
      ]

place-given :
    (code : Option String) (s : Stock) (l : Option Location)
    → require_some_location code s ≡ ok (l, s)
    → is_code code ≡ true
    → is_place (location_id l) ≡ is_given code
unfolding require_some_location require_location
place-given none s l h c = ground arith
place-given (some code) s l h c = ground arith

-- What `validate_direction` asks of the ends.
ends-of :
    (t : MovementType) (from to : Bool)
    → is_requested t ≡ true
    → (not (is_inbound t && (from || not to))
        && not (is_outbound t && (not from || to))
        && not (is_bidirectional t && (not from || not to)))
      ≡ true
    → (from ≡ not (is_inbound t)) × (to ≡ not (is_outbound t))
ends-of MovementType.receipt from to requested ends = ground arith
ends-of MovementType.issue from to requested ends = ground arith
ends-of MovementType.consume from to requested ends = ground arith
ends-of MovementType.produce from to requested ends = ground arith
ends-of MovementType.return_ from to requested ends = ground arith
ends-of MovementType.transfer from to requested ends = ground arith
ends-of MovementType.scrap from to requested ends = ground arith
ends-of MovementType.rework from to requested ends = ground arith
ends-of MovementType.adjustment from to requested ends = absurd (ground arith)
ends-of MovementType.split_input from to requested ends = absurd (ground arith)
ends-of MovementType.split_output from to requested ends = absurd (ground arith)
ends-of MovementType.merge_input from to requested ends = absurd (ground arith)
ends-of MovementType.merge_output from to requested ends = absurd (ground arith)
ends-of MovementType.transform_input from to requested ends = absurd (ground arith)
ends-of MovementType.transform_output from to requested ends = absurd (ground arith)

not_both : (t : MovementType) → (is_inbound t && is_outbound t) ≡ false
not_both MovementType.receipt = refl
not_both MovementType.issue = refl
not_both MovementType.consume = refl
not_both MovementType.produce = refl
not_both MovementType.return_ = refl
not_both MovementType.transfer = refl
not_both MovementType.scrap = refl
not_both MovementType.rework = refl
not_both MovementType.adjustment = refl
not_both MovementType.split_input = refl
not_both MovementType.split_output = refl
not_both MovementType.merge_input = refl
not_both MovementType.merge_output = refl
not_both MovementType.transform_input = refl
not_both MovementType.transform_output = refl

parts_of :
    (a b c d e f g h k l : Bool)
    → (a && b && c && d && e && f && g && h && k && l) ≡ true
    → (a ≡ true) × (b ≡ true) × (f ≡ true) × (h ≡ true)
parts_of a b c d e f g h k l all = ground arith

ends-valid :
    (p : MovementIn)
    → is_valid_movement p ≡ true
    → (is_code p.from_location_code ≡ true)
      × (is_code p.to_location_code ≡ true)
      × (is_given p.from_location_code ≡ not (is_inbound p.movement_type))
      × (is_given p.to_location_code ≡ not (is_outbound p.movement_type))
unfolding is_valid_movement
ends-valid p valid =
    let parts : (is_code p.from_location_code ≡ true)
        × (is_code p.to_location_code ≡ true)
        × (is_requested p.movement_type ≡ true)
        × (has_ends p ≡ true) =
      parts_of (is_code p.from_location_code) (is_code p.to_location_code)
        (is_code p.from_container_code) (is_code p.to_container_code) (ltb 0 p.quantity)
        (is_requested p.movement_type) (is_requested_source p.source) (has_ends p) (has_places p)
        (has_authority p) valid in
    let (from_code, to_code, requested, ends) = parts in
    let (from, to) =
      ends-of p.movement_type (is_given p.from_location_code) (is_given p.to_location_code)
        requested ends in
    (from_code, to_code, from, to)

by_ends :
    (inbound outbound here : Bool) (q before after : ℕ)
    → (inbound && outbound) ≡ false
    → after + where_holds (not inbound && here) q ≡ before + where_holds (not outbound && here) q
    → after + where_holds (outbound && here) q ≡ before + where_holds (inbound && here) q
by_ends inbound outbound here q before after apart h = ground arith

-- When a valid movement is recorded that is new, the quantity of its lot over all places grows by the
-- movement's quantity if it comes from outside, shrinks by it if it is consumed, and stays as it was
-- if it goes from place to place; the quantity of every other lot stays as it was.
pub record_movement-lot_total :
    (request_hash : MovementIn → String) (p : MovementIn) (actor : String) (s : Stock)
    (m : Movement) (s' : Stock) (l : Lot)
    → is_valid_movement p ≡ true
    → find (is_movement p.movement_id) s.movements ≡ none
    → find (λ (k : Lot). str_eq k.lot_code p.lot_code) s.lots ≡ some l
    → record_movement request_hash p actor s ≡ ok (m, s')
    → (n : ℕ)
    → lot_total n s'.balances + where_holds (is_outbound p.movement_type && l.id == n) p.quantity
      ≡ lot_total n s.balances + where_holds (is_inbound p.movement_type && l.id == n) p.quantity
unfolding record_movement
record_movement-lot_total request_hash p actor s m s' l valid fresh there h n =
    let a = accept_movement-Accepts p (request_hash p) actor s m s' (ground (arith, fresh)) in
    let (from_code, to_code, from_given, to_given) = ends-valid p valid in
    let from_place = place-given p.from_location_code s a.from a.from_there from_code in
    let to_place = place-given p.to_location_code s a.to a.to_there to_code in
    let same_lot : a.lot ≡ l = ground (arith, a.lot_there) in
    let from_end : is_place m.from_location ≡ not (is_inbound p.movement_type) =
      ap (λ (x : Movement). is_place x.from_location) a.row ∙ from_place ∙ from_given in
    let to_end : is_place m.to_location ≡ not (is_outbound p.movement_type) =
      ap (λ (x : Movement). is_place x.to_location) a.row ∙ to_place ∙ to_given in
    let of_lot : m.lot_id ≡ l.id =
      ap (λ (x : Movement). x.lot_id) a.row ∙ ap (λ (x : Lot). x.id) same_lot in
    let of_quantity : m.quantity ≡ p.quantity = ap (λ (x : Movement). x.quantity) a.row in
    let balances : s'.balances ≡ a.posted.balances = ap (λ (x : Stock). x.balances) a.audited in
    rw balances (
      by_ends (is_inbound p.movement_type) (is_outbound p.movement_type) (l.id == n) p.quantity
        (lot_total n s.balances) (lot_total n a.posted.balances) (not_both p.movement_type)
        (subst
          (λ (x : Bool × Bool × ℕ × ℕ).
            lot_total n a.posted.balances + where_holds (x.0 && x.2 == n) x.3
            ≡ lot_total n s.balances + where_holds (x.1 && x.2 == n) x.3)
          (λ i. (from_end i, to_end i, of_lot i, of_quantity i)) (a.posts.by_lot n)))
