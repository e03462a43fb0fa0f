-- ===== src/Material/Genealogy/Lineage.antt =====
-- The recursive query finds the lots that a chain of edges leads to
-- (services/central-api/app/repositories/material_flow.py).
use mini_ogas.Prelude.{ℕ, ◌≡◌, ◌⊎◌, ◌↔◌, inl, inr, refl, sym, true, List, [], ◌∷◌, arith}
use mini_ogas.Material.Model.{GenealogyEdge}
use mini_ogas.Material.Genealogy.{is_descendant}
use mini_ogas.Material.Genealogy.Paths.{Chain, before, joined, mapped}

-- An edge leads from one lot to the other.
abbrev pub Leads : List GenealogyEdge → ℕ → ℕ → Type 0
Leads [] a b = ⊥
Leads (e ∷ es) a b = ((e.parent_lot_id ≡ a) × (e.child_lot_id ≡ b)) ⊎ Leads es a b

-- One lot stems from the other.
abbrev pub Descends : List GenealogyEdge → ℕ → ℕ → Type 0
Descends es = Chain (Leads es)

more_edges :
    (e : GenealogyEdge) (es : List GenealogyEdge) (a b : ℕ)
    → Descends es a b
    → Descends (e ∷ es) a b
more_edges e es = mapped (Leads es) (Leads (e ∷ es)) (λ a b r. inr r)

descendant-link : (es : List GenealogyEdge) (a b : ℕ) → Leads es a b → is_descendant es a b ≡ true
unfolding is_descendant
descendant-link [] a b r = absurd r
descendant-link (e ∷ es) a b (inl (p, q)) = ground arith
descendant-link (e ∷ es) a b (inr r) = ground (arith, descendant-link es a b r)

descendant-further :
    (es : List GenealogyEdge) (a b c : ℕ)
    → Leads es b c
    → is_descendant es a b ≡ true
    → is_descendant es a c ≡ true
unfolding is_descendant
descendant-further [] a b c r h = absurd r
descendant-further (e ∷ es) a b c (inl (p, q)) h = ground arith
descendant-further (e ∷ es) a b c (inr r) h = ground (
  arith,
  descendant-link es b c r,
  descendant-further es a b c r,
  descendant-further es e.child_lot_id b c r,
)

chain_found : (es : List GenealogyEdge) (a b : ℕ) → Descends es a b → is_descendant es a b ≡ true
chain_found es a _ (Chain.link b r) = descendant-link es a b r
chain_found es a _ (Chain.further b c chain r) =
    descendant-further es a b c r (chain_found es a b chain)

-- The two ways of `is_descendant` to be true at an edge.
descendant_cases :
    (e : GenealogyEdge) (es : List GenealogyEdge) (a b : ℕ)
    → is_descendant (e ∷ es) a b ≡ true
    → (is_descendant es a b ≡ true)
      ⊎ (((a ≡ e.parent_lot_id) ⊎ (is_descendant es a e.parent_lot_id ≡ true))
          × ((e.child_lot_id ≡ b) ⊎ (is_descendant es e.child_lot_id b ≡ true)))
unfolding is_descendant
descendant_cases e es a b h = ground arith

over_edge :
    (e : GenealogyEdge) (es : List GenealogyEdge) (a b : ℕ)
    → (a ≡ e.parent_lot_id) ⊎ Descends es a e.parent_lot_id
    → (e.child_lot_id ≡ b) ⊎ Descends es e.child_lot_id b
    → Descends (e ∷ es) a b
over_edge e es a b (inl p) (inl q) = Chain.link b (inl (sym p, q))
over_edge e es a b (inl p) (inr below) =
    before (Leads (e ∷ es)) a e.child_lot_id b (inl (sym p, refl))
      (more_edges e es e.child_lot_id b below)
over_edge e es a b (inr above) (inl q) =
    Chain.further e.parent_lot_id b (more_edges e es a e.parent_lot_id above) (inl (refl, q))
over_edge e es a b (inr above) (inr below) =
    joined (Leads (e ∷ es)) a e.child_lot_id b
      (Chain.further e.parent_lot_id e.child_lot_id (more_edges e es a e.parent_lot_id above)
        (inl (refl, refl)))
      (more_edges e es e.child_lot_id b below)

either {ℓ} : {A B C : Type ℓ} → (B → C) → A ⊎ B → A ⊎ C
either f (inl a) = inl a
either f (inr b) = inr (f b)

descendant_found :
    (es : List GenealogyEdge) (a b : ℕ) → is_descendant es a b ≡ true → Descends es a b
unfolding is_descendant
descendant_found [] a b h = absurd (ground arith)
descendant_found (e ∷ es) a b h = elim (descendant_cases e es a b h) [
  | inl old ↦ more_edges e es a b (descendant_found es a b old)
  | inr (above, below) ↦
      over_edge e es a b (either (descendant_found es a e.parent_lot_id) above)
        (either (descendant_found es e.child_lot_id b) below)
]

-- The query has a lot exactly when a chain of edges leads to it.
pub is_descendant-Descends :
    (es : List GenealogyEdge) (a b : ℕ) → (is_descendant es a b ≡ true) ↔ Descends es a b
is_descendant-Descends es a b = (descendant_found es a b, chain_found es a b)
