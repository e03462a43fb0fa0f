-- ===== src/Material/Views.antt =====
-- services/central-api/app/repositories/material_flow.py: what is read of a lot, without what is joined to
-- the rows and without their order.
use mini_ogas.Prelude.{Bool, List, [], ◌∷◌, String, ◌&&◌, ltb, ◌==◌, if◌then◌else◌}
use mini_ogas.Prelude.Actions.{pure, gets, ◌>>=◌}
use mini_ogas.Material.Model.{Balance, Lot}
use mini_ogas.Material.Access.{Action, require_lot}
use mini_ogas.Material.Genealogy.{is_descendant}

abbrev keep : {A : Type 0} → (A → Bool) → List A → List A
keep test [] = []
keep test (a ∷ rest) = if test a then a ∷ keep test rest else keep test rest

-- `lot_balances`: the rows that hold more than the tolerance.
unfoldable lot_balances : String → Action (List Balance)
unfolding require_lot
lot_balances code = do
  l ← require_lot code
  s ← gets (λ t. t)
  pure (keep (λ (b : Balance). b.lot_id == l.id && ltb 1 b.quantity) s.balances)

-- `genealogy`: the lots above and below a lot.
record GenealogyView : Type 0 where
  of_lot : Lot
  ancestors : List Lot
  descendants : List Lot

unfoldable genealogy : String → Action GenealogyView
unfolding require_lot is_descendant
genealogy code = do
  l ← require_lot code
  s ← gets (λ t. t)
  pure record {
    of_lot = l;
    ancestors = keep (λ (m : Lot). is_descendant s.edges m.id l.id) s.lots;
    descendants = keep (λ (m : Lot). is_descendant s.edges l.id m.id) s.lots;
  }
