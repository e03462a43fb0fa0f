-- ===== src/Material/Transformations/Acyclic.antt =====
-- The edges that a transformation adds close no cycle
-- (services/central-api/app/repositories/material_flow.py).
use mini_ogas.Prelude.{
  ℕ, ◌≡◌, ◌⊎◌, inl, inr, sym, subst, true, false, List, [], ◌∷◌, ◌++◌, map, append-nil,
  append_assoc, any, arith, ok,
}
use mini_ogas.Prelude.Actions.{Reads, bind-ok, bind-Reads}
use mini_ogas.Material.Model.{GenealogyEdge, Stock}
use mini_ogas.Material.Genealogy.{
  is_descendant, assert_no_genealogy_cycle, assert_no_cycles_to, assert_no_cycles, insert_edge,
  insert_edges,
}
use mini_ogas.Material.Genealogy.Paths.{mapped, no_new_cycle, Both}
use mini_ogas.Material.Genealogy.Lineage.{Leads, Descends, is_descendant-Descends}
use mini_ogas.Material.Transformations.{TransformationIn, Leg, same_lot, share_lot}
use mini_ogas.Material.Transformations.Recording.{edge_of, edges_of, lot_ids}

-- A number is in a list.
abbrev pub In : ℕ → List ℕ → Type 0
In n [] = ⊥
In n (m ∷ ms) = (m ≡ n) ⊎ In n ms

checked :
    (parent child : ℕ) (s s' : Stock)
    → assert_no_genealogy_cycle parent child s ≡ ok (tt, s')
    → (s' ≡ s) × (is_descendant s.edges child parent ≡ false)
checked parent child s s' h = ground arith

checked_to :
    (parent : ℕ) (children : List ℕ) (s s' : Stock)
    → assert_no_cycles_to parent children s ≡ ok (tt, s')
    → (s' ≡ s) × ((c : ℕ) → In c children → is_descendant s.edges c parent ≡ false)
checked_to parent [] s s' h = (ground arith, λ c w. absurd w)
checked_to parent (child ∷ children) s s' h =
    let (_, e, rest) =
      bind-Reads (assert_no_genealogy_cycle parent child) (λ _. assert_no_cycles_to parent children)
        s (tt, s') (λ t _ u g. (checked parent child t u g).0) h in
    let (same, all) = checked_to parent children s s' rest in
    (
      same,
      λ c w. elim w [
        | inl at ↦
            subst (λ x. is_descendant s.edges x parent ≡ false) at (checked parent child s s e).1
        | inr more ↦ all c more
      ],
    )

all_checked :
    (parents children : List ℕ) (s s' : Stock)
    → assert_no_cycles parents children s ≡ ok (tt, s')
    → (s' ≡ s) × ((p c : ℕ) → In p parents → In c children → is_descendant s.edges c p ≡ false)
all_checked [] children s s' h = (ground arith, λ p c w. absurd w)
all_checked (parent ∷ parents) children s s' h =
    let (_, e, rest) =
      bind-Reads (assert_no_cycles_to parent children) (λ _. assert_no_cycles parents children) s
        (tt, s') (λ t _ u g. (checked_to parent children t u g).0) h in
    let (same, all) = all_checked parents children s s' rest in
    (
      same,
      λ p c w v. elim w [
        | inl at ↦
            subst (λ x. is_descendant s.edges c x ≡ false) at
              ((checked_to parent children s s e).1 c v)
        | inr more ↦ all p c more v
      ],
    )

inserted :
    (e : GenealogyEdge) (s s' : Stock)
    → insert_edge e s ≡ ok (tt, s')
    → s' ≡ record s { edges = s.edges ++ e ∷ [] }
inserted e s s' h = ground arith

pub assert_no_cycles-Reads : (parents children : List ℕ) → Reads (assert_no_cycles parents children)
assert_no_cycles-Reads parents children s _ s' h = (all_checked parents children s s' h).0

pub insert_edges_lem :
    (es : List GenealogyEdge) (s s' : Stock)
    → insert_edges es s ≡ ok (tt, s')
    → s' ≡ record s { edges = s.edges ++ es }
insert_edges_lem [] s s' h = ground (arith, append-nil s.edges)
insert_edges_lem (e ∷ es) s s' h =
    let (_, t, one, rest) = bind-ok (insert_edge e) (λ _. insert_edges es) s (tt, s') h in
    let first = inserted e s t one in
    let more = insert_edges_lem es t s' rest in ground (arith, append_assoc s.edges (e ∷ []) es)

Leads-append :
    (es fs : List GenealogyEdge) (a b : ℕ) → Leads (es ++ fs) a b → Leads es a b ⊎ Leads fs a b
Leads-append [] fs a b r = inr r
Leads-append (e ∷ es) fs a b (inl r) = inl (inl r)
Leads-append (e ∷ es) fs a b (inr r) = elim (Leads-append es fs a b r) [
  | inl old ↦ inl (inr old)
  | inr new ↦ inr new
]

-- The edges lead from the inputs to the outputs.
Leads-row :
    (p : TransformationIn) (i : Leg) (outputs : List Leg) (a b : ℕ)
    → Leads (map (edge_of p i) outputs) a b
    → (i.lot.id ≡ a) × In b (lot_ids outputs)
Leads-row p i [] a b r = absurd r
Leads-row p i (o ∷ outputs) a b (inl (at, to)) = (at, inl to)
Leads-row p i (o ∷ outputs) a b (inr r) = let (at, to) = Leads-row p i outputs a b r in (at, inr to)

Leads-edges_of :
    (p : TransformationIn) (inputs outputs : List Leg) (a b : ℕ)
    → Leads (edges_of p inputs outputs) a b
    → In a (lot_ids inputs) × In b (lot_ids outputs)
Leads-edges_of p [] outputs a b r = absurd r
Leads-edges_of p (i ∷ inputs) outputs a b r =
    elim (Leads-append (map (edge_of p i) outputs) (edges_of p inputs outputs) a b r) [
      | inl here ↦ let (at, to) = Leads-row p i outputs a b here in (inl at, to)
      | inr there ↦ let (at, to) = Leads-edges_of p inputs outputs a b there in (inr at, to)
    ]

among-same_lot :
    (i : Leg) (outputs : List Leg) (c : ℕ)
    → In c (lot_ids outputs)
    → i.lot.id ≡ c
    → any (same_lot i) outputs ≡ true
among-same_lot i [] c w e = absurd w
among-same_lot i (o ∷ outputs) c (inl at) e = ground arith
among-same_lot i (o ∷ outputs) c (inr more) e = ground (arith, among-same_lot i outputs c more e)

shared-share_lot :
    (inputs outputs : List Leg) (c : ℕ)
    → In c (lot_ids inputs)
    → In c (lot_ids outputs)
    → share_lot inputs outputs ≡ true
shared-share_lot [] outputs c w v = absurd w
shared-share_lot (i ∷ inputs) outputs c (inl at) v = ground (arith, among-same_lot i outputs c v at)
shared-share_lot (i ∷ inputs) outputs c (inr more) v =
    ground (arith, shared-share_lot inputs outputs c more v)

-- What `write_transformation` has checked is enough.
pub edges_of_acyclic :
    (p : TransformationIn) (inputs outputs : List Leg) (s s' : Stock)
    → assert_no_cycles (lot_ids inputs) (lot_ids outputs) s ≡ ok (tt, s')
    → share_lot inputs outputs ≡ false
    → ((n : ℕ) → ¬ Descends s.edges n n)
    → (n : ℕ) → ¬ Descends (s.edges ++ edges_of p inputs outputs) n n
edges_of_acyclic p inputs outputs s s' h distinct acyclic n chain =
    let New : ℕ → ℕ → Type 0 = λ a b. In a (lot_ids inputs) × In b (lot_ids outputs) in
    no_new_cycle (Leads s.edges) New
      (λ q c q' c' new new' e. absurd (
        ground (
          arith,
          shared-share_lot inputs outputs c (subst (λ x. In x (lot_ids inputs)) (sym e) new'.0)
              new.1,
        )))
      (λ q c q' c' new new' old.
        let yes_there = (is_descendant-Descends s.edges c q').1 old in
        let not_there =
          (all_checked (lot_ids inputs) (lot_ids outputs) s s' h).1 q' c new'.0 new.1 in
        absurd (ground arith))
      acyclic n
      (mapped (Leads (s.edges ++ edges_of p inputs outputs)) (Both (Leads s.edges) New)
        (λ a b r. elim (Leads-append s.edges (edges_of p inputs outputs) a b r) [
          | inl old ↦ inl old
          | inr new ↦ inr (Leads-edges_of p inputs outputs a b new)
        ])
        n n chain)
