-- ===== src/Material/Ledger/Adjusted.antt =====
-- An imported snapshot and an adjustment keep the invariant of the material flow
-- (services/central-api/app/repositories/material_flow.py).
use mini_ogas.Prelude.{
  ℕ, ◌≡◌, refl, not, Option, some, List, [], ◌∷◌, ◌++◌, String, ltb, arith, find, ok, Option-cases,
  Bool-cases, inl, inr, subst, sym, ◌∙◌,
}
use mini_ogas.Prelude.Actions.{bind-ok, bind-Reads}
use mini_ogas.Material.Model.{Location, Container, Lot, ReconciliationCase, ExternalImport, Stock}
use mini_ogas.Material.Access.{
  require_lot, require_location, resolve_container, same_quantity, container_key,
}
use mini_ogas.Material.Reads.{require_lot_found, require_location-Reads, resolve_container-Reads}
use mini_ogas.Material.Balances.{quantity_at}
use mini_ogas.Material.Postings.{post_entry}
use mini_ogas.Material.Postings.Effects.{post_entry-Posts}
use mini_ogas.Material.Reconciliation.{
  SnapshotItemIn, SnapshotIn, compare_item, compare_items, import_of, is_import, accept_snapshot,
  import_external_snapshot,
}
use mini_ogas.Material.Adjustments.{
  AdjustmentIn, is_case, is_open_case, given_if, container_if, adjustment_of, write_adjustment,
  adjust_open_case, adjust_reconciliation,
}
use mini_ogas.Material.Ledger.Consistency.{
  IsConsistent, lot_by_id, Posts-IsConsistent, Quiet, Quiet-IsConsistent,
}
use mini_ogas.Material.Ledger.Accepted.{text-container}

twice : (s t u : Stock) → Quiet s t → Quiet t u → Quiet s u
twice s t u (a, b, c, d, e) (a', b', c', d', e') = (a' ∙ a, b' ∙ b, c' ∙ c, d' ∙ d, e' ∙ e)

compare_item-Quiet :
    (n : ℕ) (item : SnapshotItemIn) (s s' : Stock)
    → compare_item n item s ≡ ok (tt, s')
    → Quiet s s'
unfolding compare_item
compare_item-Quiet n item s s' h =
    let (l, _, h1) =
      bind-Reads (require_lot item.lot_code) _ s (tt, s')
        (λ t a u g. (require_lot_found item.lot_code t a u g).1) h in
    let (location, _, h2) =
      bind-Reads (require_location item.location_code) _ s (tt, s')
        (require_location-Reads item.location_code) h1 in
    let (container, _, h3) =
      bind-Reads (resolve_container item.container_code (some location)) _ s (tt, s')
        (resolve_container-Reads item.container_code (some location)) h2 in
    elim (Bool-cases (
      same_quantity (quantity_at l.id location.id (container_key container) s.balances)
        item.observed_quantity)) [ inl e ↦ ground (arith, e) | inr e ↦ ground (arith, e) ]

compare_items-Quiet :
    (n : ℕ) (items : List SnapshotItemIn) (s s' : Stock)
    → compare_items n items s ≡ ok (tt, s')
    → Quiet s s'
unfolding compare_items
compare_items-Quiet n [] s s' h = ground arith
compare_items-Quiet n (item ∷ items) s s' h =
    let (_, t, one, rest) =
      bind-ok (compare_item n item) (λ _. compare_items n items) s (tt, s') h in
    twice s t s' (compare_item-Quiet n item s t one) (compare_items-Quiet n items t s' rest)

module _ (snapshot_hash : SnapshotIn → String) where
  accept_snapshot-Quiet :
      (p : SnapshotIn) (actor : String) (s : Stock) (i : ExternalImport) (s' : Stock)
      → accept_snapshot snapshot_hash p actor s ≡ ok (i, s')
      → Quiet s s'
  unfolding accept_snapshot
  accept_snapshot-Quiet p actor s i s' h =
      let j = import_of p (snapshot_hash p) actor s in
      let t : Stock = record s { imports = s.imports ++ j ∷ [] } in
      let (_, u, compared, rest) = bind-ok (compare_items j.id p.items) _ t (i, s') h in
      let (a, b, c, d, e) = compare_items-Quiet j.id p.items t u compared in ground arith

  pub import_external_snapshot-IsConsistent :
      {base : Stock} (p : SnapshotIn) (actor : String) (s : Stock) (i : ExternalImport) (s' : Stock)
      → import_external_snapshot snapshot_hash p actor s ≡ ok (i, s')
      → IsConsistent base s
      → IsConsistent base s'
  unfolding import_external_snapshot
  import_external_snapshot-IsConsistent p actor s i s' h c =
      elim (Option-cases (find (is_import p.import_id) s.imports)) [
        | inl e ↦
            let h' : accept_snapshot snapshot_hash p actor s ≡ ok (i, s') = ground (arith, e) in
            Quiet-IsConsistent s s' (accept_snapshot-Quiet p actor s i s' h') c
        | inr (j, e) ↦ let same : s' ≡ s = ground (arith, e) in subst (IsConsistent _) (sym same) c
      ]

module _ (adjustment_hash : ℕ → AdjustmentIn → String) where
  write_adjustment-IsConsistent :
      {base : Stock} (n : ℕ) (p : AdjustmentIn) (actor : String) (c : ReconciliationCase) (l : Lot)
      (location : Location) (container : Option Container) (s : Stock) (r : ReconciliationCase)
      (s' : Stock)
      → lot_by_id l.id s.lots ≡ some l
      → write_adjustment adjustment_hash n p actor c l location container s ≡ ok (r, s')
      → IsConsistent base s
      → IsConsistent base s'
  unfolding write_adjustment
  write_adjustment-IsConsistent n p actor c l location container s r s' known h consistent =
      let lower = ltb c.observed_quantity c.expected_quantity in
      let m = adjustment_of p c l location container (adjustment_hash n p) actor in
      let (_, t, posted, rest) =
        bind-ok
          (post_entry l (given_if lower location) (container_if lower container)
            (given_if (not lower) location) (container_if (not lower) container) m)
          _ s (r, s') h in
      let posts =
        post_entry-Posts l (given_if lower location) (container_if lower container)
          (given_if (not lower) location) (container_if (not lower) container) m s t
          (record {
            of_lot = refl;
            from_place = refl;
            to_place = refl;
            from_key = text-container (container_if lower container);
            to_key = text-container (container_if (not lower) container);
          })
          posted in
      Quiet-IsConsistent t s' (ground arith)
        (Posts-IsConsistent l m s t known refl posts consistent)

  adjust_open_case-IsConsistent :
      {base : Stock} (n : ℕ) (p : AdjustmentIn) (actor : String) (c : ReconciliationCase)
      (s : Stock) (r : ReconciliationCase) (s' : Stock)
      → adjust_open_case adjustment_hash n p actor c s ≡ ok (r, s')
      → IsConsistent base s
      → IsConsistent base s'
  unfolding adjust_open_case
  adjust_open_case-IsConsistent n p actor c s r s' h consistent =
      let (l, e, h1) =
        bind-Reads (require_lot c.lot_code) _ s (r, s')
          (λ t a u g. (require_lot_found c.lot_code t a u g).1) h in
      let (location, _, h2) =
        bind-Reads (require_location c.location_code) _ s (r, s')
          (require_location-Reads c.location_code) h1 in
      let (container, _, h3) =
        bind-Reads (resolve_container c.container_code (some location)) _ s (r, s')
          (resolve_container-Reads c.container_code (some location)) h2 in
      let h4 : write_adjustment adjustment_hash n p actor c l location container s ≡ ok (r, s') =
        ground arith in
      write_adjustment-IsConsistent n p actor c l location container s r s'
        (consistent.lots_found c.lot_code l (require_lot_found c.lot_code s l s e).0) h4 consistent

  pub adjust_reconciliation-IsConsistent :
      {base : Stock} (n : ℕ) (p : AdjustmentIn) (actor : String) (s : Stock)
      (r : ReconciliationCase) (s' : Stock)
      → adjust_reconciliation adjustment_hash n p actor s ≡ ok (r, s')
      → IsConsistent base s
      → IsConsistent base s'
  unfolding adjust_reconciliation
  adjust_reconciliation-IsConsistent n p actor s r s' h consistent =
      elim (Option-cases (find (is_case n) s.cases)) [
        | inl e ↦ absurd (ground (arith, e))
        | inr (c, e) ↦ elim (Bool-cases (is_open_case c.status)) [
          | inl opened ↦
              let h' : adjust_open_case adjustment_hash n p actor c s ≡ ok (r, s') =
                ground (arith, e, opened) in
              adjust_open_case-IsConsistent n p actor c s r s' h' consistent
          | inr settled ↦
              let same : s' ≡ s = ground (arith, e, settled) in
              subst (IsConsistent _) (sym same) consistent
        ]
      ]
