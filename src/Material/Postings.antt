-- ===== src/Material/Postings.antt =====
-- services/central-api/app/repositories/material_flow.py: the balances and the row of one movement,
-- which every operation that moves material writes together.
pub mod Effects
use mini_ogas.Prelude.{ℕ, Option, none, some, String}
use mini_ogas.Prelude.Actions.{pure, ◌>>=◌, ◌>>◌}
use mini_ogas.Material.Model.{Location, Container, Lot, Movement}
use mini_ogas.Material.Access.{Action}
use mini_ogas.Material.Balances.{Delta, apply_balance_delta, insert_movement}

abbrev pub text_or_empty : Option String → String
text_or_empty none = ""
text_or_empty (some t) = t

abbrev pub location_id : Option Location → Option ℕ
location_id none = none
location_id (some l) = some l.id

-- A change of the balance at a location, where there is one.
abbrev pub apply_at : Lot → Option Location → Option Container → Delta → Action (Unit {0})
apply_at l none container delta = pure tt
apply_at l (some location) container delta =
    apply_balance_delta l location container delta >>= λ q. pure tt

-- What is taken at one end is taken before the other end has it.
unfoldable pub post_entry :
    Lot
    → Option Location
    → Option Container
    → Option Location
    → Option Container
    → Movement
    → Action (Unit {0})
post_entry l from from_container to to_container m = do
  apply_at l from from_container (Delta.taken m.quantity)
  apply_at l to to_container (Delta.added m.quantity)
  insert_movement m
