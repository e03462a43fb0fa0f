-- ===== src/Material/Ledger/Transformed.antt =====
-- A recorded transformation keeps the invariant of the material flow
-- (services/central-api/app/repositories/material_flow.py).
use mini_ogas.Prelude.{
  ℕ, ◌≡◌, false, List, ◌++◌, String, arith, find, ok, Option-cases, inl, inr, subst, sym, ap, ◌∙◌,
}
use mini_ogas.Prelude.Actions.{bind-ok, bind-Reads}
use mini_ogas.Material.Model.{Transformation, GenealogyEdge, Stock}
use mini_ogas.Material.Genealogy.{assert_no_cycles, insert_edges}
use mini_ogas.Material.Genealogy.Lineage.{Descends}
use mini_ogas.Material.Transformations.{
  TransformationIn, Leg, resolve_legs, validate_semantics, require_task_of, share_lot,
}
use mini_ogas.Material.Transformations.Recording.{
  Direction, edges_of, lot_ids, is_transformation, insert_transformation, transformation_of,
  post_legs, write_transformation, accept_transformation, record_transformation,
}
use mini_ogas.Material.Transformations.Acyclic.{
  insert_edges_lem, edges_of_acyclic, assert_no_cycles-Reads,
}
use mini_ogas.Material.Ledger.Consistency.{IsConsistent, Quiet, Quiet-IsConsistent}
use mini_ogas.Material.Ledger.Legs.{
  Known, resolve_legs_found, require_task_of-Reads, validate_semantics_lem, post_legs-IsConsistent,
}

insert_transformation-Quiet :
    (t : Transformation) (s s' : Stock) → insert_transformation t s ≡ ok (tt, s') → Quiet s s'
unfolding insert_transformation
insert_transformation-Quiet t s s' h = ground arith

with_edges-IsConsistent :
    {base : Stock} (es : List GenealogyEdge) (s s' : Stock)
    → s' ≡ record s { edges = s.edges ++ es }
    → ((n : ℕ) → ¬ Descends (s.edges ++ es) n n)
    → IsConsistent base s
    → IsConsistent base s'
with_edges-IsConsistent es s s' e acyclic c = rw e (record {
  agrees = c.agrees;
  lots_found = c.lots_found;
  serial_fits = c.serial_fits;
  no_stray = c.no_stray;
  holds = c.holds;
  held_fixed = c.held_fixed;
  acyclic = acyclic;
})

module _ (request_hash : TransformationIn → String) (leg_hash : String → Direction → ℕ → String)
    (p : TransformationIn) (actor : String) where
  write_transformation-IsConsistent :
      {base : Stock} (inputs outputs : List Leg) (s : Stock) (t : Transformation) (s' : Stock)
      → write_transformation request_hash leg_hash p actor inputs outputs s ≡ ok (t, s')
      → share_lot inputs outputs ≡ false
      → Known s.lots inputs
      → Known s.lots outputs
      → IsConsistent base s
      → IsConsistent base s'
  unfolding write_transformation
  write_transformation-IsConsistent inputs outputs s t s' h distinct known_in known_out c =
      let (_, checked, h1) =
        bind-Reads (assert_no_cycles (lot_ids inputs) (lot_ids outputs)) _ s (t, s')
          (assert_no_cycles-Reads (lot_ids inputs) (lot_ids outputs)) h in
      let (_, s1, inserted, h2) =
        bind-ok (insert_transformation (transformation_of p (request_hash p) actor)) _ s (t, s')
          h1 in
      let quiet =
        insert_transformation-Quiet (transformation_of p (request_hash p) actor) s s1 inserted in
      let c1 = Quiet-IsConsistent s s1 quiet c in
      let (_, _, lots1, edges1, _) = quiet in
      let (_, s2, taken, h3) =
        bind-ok (post_legs request_hash leg_hash p actor Direction.inward 1 inputs) _ s1 (t, s')
          h2 in
      let (c2, lots2, edges2) =
        post_legs-IsConsistent request_hash leg_hash p actor Direction.inward 1 inputs s1 s2 taken
          (subst (λ x. Known x inputs) (sym lots1) known_in) c1 in
      let (_, s3, made, h4) =
        bind-ok (post_legs request_hash leg_hash p actor Direction.outward 1 outputs) _ s2 (t, s')
          h3 in
      let (c3, lots3, edges3) =
        post_legs-IsConsistent request_hash leg_hash p actor Direction.outward 1 outputs s2 s3 made
          (subst (λ x. Known x outputs) (sym (lots2 ∙ lots1)) known_out) c2 in
      let (_, s4, linked, h5) =
        bind-ok (insert_edges (edges_of p inputs outputs)) _ s3 (t, s') h4 in
      let to_edges = insert_edges_lem (edges_of p inputs outputs) s3 s4 linked in
      let edges : s3.edges ++ edges_of p inputs outputs ≡ s.edges ++ edges_of p inputs outputs =
        ap (λ (x : List GenealogyEdge). x ++ edges_of p inputs outputs)
          (edges3 ∙ edges2 ∙ edges1) in
      let acyclic =
        subst (λ x. (n : ℕ) → ¬ Descends x n n) (sym edges)
          (edges_of_acyclic p inputs outputs s s checked distinct c.acyclic) in
      Quiet-IsConsistent s4 s' (ground arith)
        (with_edges-IsConsistent (edges_of p inputs outputs) s3 s4 to_edges acyclic c3)

  accept_transformation-IsConsistent :
      {base : Stock} (s : Stock) (t : Transformation) (s' : Stock)
      → accept_transformation request_hash leg_hash p actor s ≡ ok (t, s')
      → IsConsistent base s
      → IsConsistent base s'
  unfolding accept_transformation
  accept_transformation-IsConsistent s t s' h c =
      let (_, _, h1) = bind-Reads (require_task_of p) _ s (t, s') (require_task_of-Reads p) h in
      let (inputs, s1, in_there, h2) = bind-ok (resolve_legs p.inputs) _ s (t, s') h1 in
      let (same1, known_in) = resolve_legs_found p.inputs s inputs s1 in_there c in
      let (outputs, s2, out_there, h3) = bind-ok (resolve_legs p.outputs) _ s1 (t, s') h2 in
      let c1 = subst (IsConsistent _) (sym same1) c in
      let (same2, known_out) = resolve_legs_found p.outputs s1 outputs s2 out_there c1 in
      let (_, valid, h4) =
        bind-Reads (validate_semantics p inputs outputs) _ s2 (t, s')
          (λ u _ v g. (validate_semantics_lem p inputs outputs u v g).0) h3 in
      let lots2 : s2.lots ≡ s1.lots = ap (λ (u : Stock). u.lots) same2 in
      let lots1 : s1.lots ≡ s.lots = ap (λ (u : Stock). u.lots) same1 in
      write_transformation-IsConsistent inputs outputs s2 t s' h4
        (validate_semantics_lem p inputs outputs s2 s2 valid).1
        (subst (λ x. Known x inputs) (sym (lots2 ∙ lots1)) known_in)
        (subst (λ x. Known x outputs) (sym lots2) known_out) (subst (IsConsistent _) (sym same2) c1)

  pub record_transformation-IsConsistent :
      {base : Stock} (s : Stock) (t : Transformation) (s' : Stock)
      → record_transformation request_hash leg_hash p actor s ≡ ok (t, s')
      → IsConsistent base s
      → IsConsistent base s'
  unfolding record_transformation
  record_transformation-IsConsistent s t s' h c =
      elim (Option-cases (find (is_transformation p.transformation_id) s.transformations)) [
        | inl e ↦
            let h' : accept_transformation request_hash leg_hash p actor s ≡ ok (t, s') =
              ground (arith, e) in
            accept_transformation-IsConsistent s t s' h' c
        | inr (n, e) ↦ let same : s' ≡ s = ground (arith, e) in subst (IsConsistent _) (sym same) c
      ]
