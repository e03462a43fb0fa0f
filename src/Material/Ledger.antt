-- ===== src/Material/Ledger.antt =====
-- The ledger of services/central-api/app/repositories/material_flow.py: every balance is the sum of
-- its movements.
pub mod Consistency
pub mod Accepted
pub mod Legs
pub mod Transformed
pub mod Adjusted
pub mod Created
pub mod Runs
pub mod Movements
use mini_ogas.Prelude.{ℕ, ◌+◌, ◌≡◌, refl, Bool, List, [], ◌∷◌, ◌++◌, String, arith, if◌then◌else◌}
use mini_ogas.Material.Model.{Lot, Movement, Balance, Stock}
use mini_ogas.Material.Balances.{quantity_at}
use mini_ogas.Material.Balances.Changes.{where_holds}
use mini_ogas.Material.Postings.Effects.{leaves, enters, Posts}

-- The quantity that the movements brought to a place, and took from it.
abbrev pub inflow : ℕ → ℕ → String → List Movement → ℕ
inflow lot location key [] = 0
inflow lot location key (m ∷ ms) =
    where_holds (enters lot location key m) m.quantity + inflow lot location key ms

abbrev pub outflow : ℕ → ℕ → String → List Movement → ℕ
outflow lot location key [] = 0
outflow lot location key (m ∷ ms) =
    where_holds (leaves lot location key m) m.quantity + outflow lot location key ms

inflow-append :
    (lot location : ℕ) (key : String) (ms : List Movement) (m : Movement)
    → inflow lot location key (ms ++ m ∷ [])
      ≡ inflow lot location key ms + where_holds (enters lot location key m) m.quantity
inflow-append lot location key [] m = ground arith
inflow-append lot location key (n ∷ ms) m = ground (arith, inflow-append lot location key ms m)

outflow-append :
    (lot location : ℕ) (key : String) (ms : List Movement) (m : Movement)
    → outflow lot location key (ms ++ m ∷ [])
      ≡ outflow lot location key ms + where_holds (leaves lot location key m) m.quantity
outflow-append lot location key [] m = ground arith
outflow-append lot location key (n ∷ ms) m = ground (arith, outflow-append lot location key ms m)

-- The balances agree with the movements.
abbrev pub Agrees : List Balance → List Movement → Type 0
Agrees balances movements =
    (lot location : ℕ) (key : String)
    → quantity_at lot location key balances + outflow lot location key movements
      ≡ inflow lot location key movements

pub Posts-Agrees :
    (l : Lot) (m : Movement) (s s' : Stock)
    → Posts l m s s'
    → Agrees s.balances s.movements
    → Agrees s'.balances s'.movements
Posts-Agrees l m s s' p agrees lot location key = ground (
  arith,
  p.only,
  p.by_place lot location key,
  agrees lot location key,
  inflow-append lot location key s.movements m,
  outflow-append lot location key s.movements m,
)
