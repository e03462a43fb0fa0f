-- ===== src/Material/Genealogy.antt =====
-- The genealogy of lots: the recursive queries of
-- services/central-api/app/repositories/material_flow.py on the edges.
pub mod Paths
pub mod Lineage
use mini_ogas.Prelude.{
  ℕ, Bool, true, false, not, ◌&&◌, ◌||◌, Option, none, some, List, [], ◌∷◌, ◌++◌, map, String,
  str_eq, ◌==◌, any, find, if◌then◌else◌,
}
use mini_ogas.Prelude.Actions.{pure, gets, check, modify, ◌>>=◌, ◌>>◌}
use mini_ogas.Material.Model.{GenealogyEdge, Lot, Stock, MaterialFlowError}
use mini_ogas.Material.Access.{Action, require_lot}

-- The lots that the recursive query `descendants(lot_id)` has from a lot, by one edge after the other:
-- a lot is reached without the edge, or by the edge.
unfoldable pub is_descendant : List GenealogyEdge → ℕ → ℕ → Bool
is_descendant [] ancestor lot = false
is_descendant (e ∷ es) ancestor lot =
    is_descendant es ancestor lot
    || ((ancestor == e.parent_lot_id || is_descendant es ancestor e.parent_lot_id)
        && (e.child_lot_id == lot || is_descendant es e.child_lot_id lot))

-- `_assert_no_genealogy_cycle`
abbrev pub assert_no_genealogy_cycle : ℕ → ℕ → Action (Unit {0})
assert_no_genealogy_cycle parent child s =
    check (not (is_descendant s.edges child parent)) MaterialFlowError.genealogy_cycle s

abbrev pub assert_no_cycles_to : ℕ → List ℕ → Action (Unit {0})
assert_no_cycles_to parent [] = pure tt
assert_no_cycles_to parent (child ∷ children) =
    assert_no_genealogy_cycle parent child >> assert_no_cycles_to parent children

abbrev pub assert_no_cycles : List ℕ → List ℕ → Action (Unit {0})
assert_no_cycles [] children = pure tt
assert_no_cycles (parent ∷ parents) children =
    assert_no_cycles_to parent children >> assert_no_cycles parents children

-- The unique key of an edge.
abbrev pub same_edge : GenealogyEdge → GenealogyEdge → Bool
same_edge e f =
    str_eq f.transformation_id e.transformation_id
    && f.parent_lot_id == e.parent_lot_id
    && f.child_lot_id == e.child_lot_id

-- An edge is inserted, unless its key is there.
abbrev pub insert_edge : GenealogyEdge → Action (Unit {0})
insert_edge e = do
  s ← gets (λ t. t)
  check (not (any (same_edge e) s.edges)) MaterialFlowError.duplicate_genealogy_edge
  modify (λ t. record t { edges = t.edges ++ e ∷ [] })

abbrev pub insert_edges : List GenealogyEdge → Action (Unit {0})
insert_edges [] = pure tt
insert_edges (e ∷ es) = insert_edge e >> insert_edges es
