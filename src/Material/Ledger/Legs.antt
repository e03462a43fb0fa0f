-- ===== src/Material/Ledger/Legs.antt =====
-- The legs of a transformation: their lots, and the balances that they change
-- (services/central-api/app/repositories/material_flow.py).
use mini_ogas.Prelude.{
  ℕ, ◌+◌, ◌≡◌, refl, false, some, List, [], ◌∷◌, String, arith, ok, Option-cases, inl, inr, subst,
  sym, ap, ◌∙◌,
}
use mini_ogas.Prelude.Actions.{bind-ok, bind-Reads, Reads}
use mini_ogas.Material.Model.{Lot, Stock}
use mini_ogas.Material.Access.{require_lot, require_location, resolve_container}
use mini_ogas.Material.Reads.{
  require_lot_found, require_location-Reads, resolve_container-Reads, require_operation_task-Reads,
}
use mini_ogas.Material.Postings.Effects.{Posts, post_entry-Posts}
use mini_ogas.Material.Transformations.{
  LegIn, TransformationIn, Leg, resolve_leg, resolve_legs, validate_semantics, require_task_of,
  share_lot, allowed_for_transformation,
}
use mini_ogas.Material.Transformations.Recording.{
  Direction, at_input, at_output, container_at_input, container_at_output, leg_movement, post_leg,
  post_legs,
}
use mini_ogas.Material.Ledger.Consistency.{IsConsistent, lot_by_id, lot_by_code, Posts-IsConsistent}
use mini_ogas.Material.Ledger.Accepted.{text-container}

-- The lots of the legs are found by their numbers.
abbrev pub Known : List Lot → List Leg → Type 0
Known lots [] = Unit {0}
Known lots (leg ∷ legs) = (lot_by_id leg.lot.id lots ≡ some leg.lot) × Known lots legs

resolve_leg_found :
    (leg : LegIn) (s : Stock) (x : Leg) (s' : Stock)
    → resolve_leg leg s ≡ ok (x, s')
    → (s' ≡ s) × (lot_by_code leg.lot_code s.lots ≡ some x.lot)
unfolding resolve_leg require_lot require_location
resolve_leg_found leg s x s' h =
    let (l, e, h1) =
      bind-Reads (require_lot leg.lot_code) _ s (x, s')
        (λ t a u g. (require_lot_found leg.lot_code t a u g).1) h in
    let (location, _, h2) =
      bind-Reads (require_location leg.location_code) _ s (x, s')
        (require_location-Reads leg.location_code) h1 in
    let (container, _, h3) =
      bind-Reads (resolve_container leg.container_code (some location)) _ s (x, s')
        (resolve_container-Reads leg.container_code (some location)) h2 in
    let found = (require_lot_found leg.lot_code s l s e).0 in
    let done : (s' ≡ s) × (x.lot ≡ l) = ground arith in (done.0, found ∙ sym (ap some done.1))

pub resolve_legs_found :
    {base : Stock} (legs : List LegIn) (s : Stock) (xs : List Leg) (s' : Stock)
    → resolve_legs legs s ≡ ok (xs, s')
    → IsConsistent base s
    → (s' ≡ s) × Known s.lots xs
unfolding resolve_legs
resolve_legs_found [] s xs s' h c =
    let none_left : (s' ≡ s) × (xs ≡ []) = ground arith in
    (none_left.0, subst (λ ys. Known s.lots ys) (sym none_left.1) tt)
resolve_legs_found (leg ∷ legs) s xs s' h c =
    let (x, e, h1) =
      bind-Reads (resolve_leg leg) _ s (xs, s') (λ t a u g. (resolve_leg_found leg t a u g).0) h in
    let (ys, t, e2, h2) = bind-ok (resolve_legs legs) _ s (xs, s') h1 in
    let (same, known) = resolve_legs_found legs s ys t e2 c in
    let done : (s' ≡ t) × (xs ≡ x ∷ ys) = ground arith in
    (
      done.0 ∙ same,
      subst (λ zs. Known s.lots zs) (sym done.1)
          (c.lots_found leg.lot_code x.lot (resolve_leg_found leg s x s e).1, known),
    )

pub require_task_of-Reads : (p : TransformationIn) → Reads (require_task_of p)
unfolding require_task_of
require_task_of-Reads p s t s' h = elim (Option-cases p.operation_task_id) [
  | inl e ↦ ground (arith, e)
  | inr (n, e) ↦ ground (
    arith,
    e,
    require_operation_task-Reads n (allowed_for_transformation p.transformation_type) s,
  )
]

pub validate_semantics_lem :
    (p : TransformationIn) (inputs outputs : List Leg) (s s' : Stock)
    → validate_semantics p inputs outputs s ≡ ok (tt, s')
    → (s' ≡ s) × (share_lot inputs outputs ≡ false)
unfolding validate_semantics
validate_semantics_lem p inputs outputs s s' h = ground arith

module _ (request_hash : TransformationIn → String) (leg_hash : String → Direction → ℕ → String)
    (p : TransformationIn) (actor : String) where
  post_leg-Posts :
      (direction : Direction) (index : ℕ) (leg : Leg) (s s' : Stock)
      → post_leg request_hash leg_hash p actor direction index leg s ≡ ok (tt, s')
      → Posts leg.lot (leg_movement request_hash leg_hash p actor direction index leg) s s'
  unfolding post_leg
  post_leg-Posts direction index leg s s' h =
      post_entry-Posts leg.lot (at_input direction leg.location)
        (container_at_input direction leg.container) (at_output direction leg.location)
        (container_at_output direction leg.container)
        (leg_movement request_hash leg_hash p actor direction index leg) s s'
        (record {
          of_lot = refl;
          from_place = refl;
          to_place = refl;
          from_key = text-container (container_at_input direction leg.container);
          to_key = text-container (container_at_output direction leg.container);
        })
        h

  pub post_legs-IsConsistent :
      {base : Stock} (direction : Direction) (index : ℕ) (legs : List Leg) (s s' : Stock)
      → post_legs request_hash leg_hash p actor direction index legs s ≡ ok (tt, s')
      → Known s.lots legs
      → IsConsistent base s
      → IsConsistent base s' × (s'.lots ≡ s.lots) × (s'.edges ≡ s.edges)
  unfolding post_legs
  post_legs-IsConsistent direction index [] s s' h known c =
      let same : s' ≡ s = ground arith in rw same (c, refl, refl)
  post_legs-IsConsistent direction index (leg ∷ legs) s s' h (known, more) c =
      let (_, t, one, rest) =
        bind-ok (post_leg request_hash leg_hash p actor direction index leg)
          (λ _. post_legs request_hash leg_hash p actor direction (index + 1) legs) s (tt, s') h in
      let posts = post_leg-Posts direction index leg s t one in
      let lots : t.lots ≡ s.lots = ground (arith, posts.only) in
      let edges : t.edges ≡ s.edges = ground (arith, posts.only) in
      let (c', lots', edges') =
        post_legs-IsConsistent direction (index + 1) legs t s' rest
          (subst (λ x. Known x legs) (sym lots) more)
          (Posts-IsConsistent leg.lot
            (leg_movement request_hash leg_hash p actor direction index leg) s t known refl posts
            c) in
      (c', lots' ∙ lots, edges' ∙ edges)
