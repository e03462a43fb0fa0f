-- ===== src/Material/Access.antt =====
-- What the methods of services/central-api/app/repositories/material_flow.py look up and check.
use Prim.Native.Nat.{◌/◌, ◌%◌}
use Prim.Native.String.{◌++◌ as str_append}
use mini_ogas.Prelude.{
  zero, suc, ltb, if◌then◌else◌, ℕ, ◌+◌, Bool, true, false, not, ◌&&◌, Option, none, some, [], ◌∷◌,
  ◌++◌, String, str_eq, leb, ◌==◌, find, any, is_empty,
}
use mini_ogas.Prelude.Actions.{Transaction, pure, gets, or_fail, check, modify, ◌>>=◌, ◌>>◌}
use mini_ogas.Execution.Model.{Task, TaskStatus, MaintenanceOrder}
use mini_ogas.Execution.Access.{is_task, is_under_work}
use mini_ogas.Material.Model.{
  Location, Container, ContainerStatus, Lot, LotStatus, TrackingKind, MovementType, QualityHold,
  Stock, MaterialFlowError,
}

abbrev pub Action : Type 0 → Type 0
Action = Transaction Stock MaterialFlowError

-- `_same_quantity`
abbrev pub same_quantity : ℕ → ℕ → Bool
same_quantity a b = leb a (b + 1) && leb b (a + 1)

-- A quantity of one.
abbrev pub one : ℕ
one = 1_000_000_000

abbrev pub is_serial : TrackingKind → Bool
is_serial TrackingKind.serial = true
is_serial TrackingKind.lot = false

abbrev pub is_active_lot : LotStatus → Bool
is_active_lot LotStatus.active = true
is_active_lot _ = false

abbrev pub is_active_container : ContainerStatus → Bool
is_active_container ContainerStatus.active = true
is_active_container _ = false

-- `_require_lot`
unfoldable pub require_lot : String → Action Lot
require_lot code s =
    or_fail (find (λ l. str_eq l.lot_code code) s.lots) MaterialFlowError.lot_not_found s

-- `_assert_no_quality_hold`
abbrev pub is_held_lot : ℕ → QualityHold → Bool
is_held_lot lot h = h.lot_id == lot && h.is_open

abbrev pub assert_no_quality_hold : Lot → Action (Unit {0})
assert_no_quality_hold l s =
    check (not (any (is_held_lot l.id) s.quality_holds)) MaterialFlowError.quality_hold_active s

-- `_require_location`
unfoldable pub require_location : String → Action Location
require_location code = do
  s ← gets (λ t. t)
  location ←
      or_fail (find (λ l. str_eq l.location_code code) s.locations)
        MaterialFlowError.location_not_found
  check location.active MaterialFlowError.location_inactive
  pure location

-- A location for a code that is given; the empty text counts as none.
unfoldable pub require_some_location : Option String → Action (Option Location)
unfolding require_location
require_some_location none = pure none
require_some_location (some code) = elim (is_empty code) [
  | true ↦ pure none
  | false ↦ require_location code >>= λ l. pure (some l)
]

abbrev pub is_at : Option Location → Container → Bool
is_at none c = false
is_at (some l) c = c.location_id == l.id

-- `_resolve_container` for a code that is given
unfoldable pub require_container : String → Option Location → Action Container
require_container code location = do
  s ← gets (λ t. t)
  container ←
      or_fail (find (λ c. str_eq c.container_code code) s.containers)
        MaterialFlowError.reference_not_found
  check (is_active_container container.status) MaterialFlowError.container_not_active
  check (is_at location container) MaterialFlowError.container_location_mismatch
  pure container

-- `_resolve_container`
unfoldable pub resolve_container : Option String → Option Location → Action (Option Container)
unfolding require_container
resolve_container none location = pure none
resolve_container (some code) location = elim (is_empty code) [
  | true ↦ pure none
  | false ↦ require_container code location >>= λ c. pure (some c)
]

-- `str(container["container_code"]) if container else ""`
abbrev pub container_key : Option Container → String
container_key none = ""
container_key (some c) = c.container_code

abbrev pub container_code : Option Container → Option String
container_code none = none
container_code (some c) = some c.container_code

-- The statuses of a task that a movement or transformation allows.
abbrev pub is_at_work : TaskStatus → Bool
is_at_work TaskStatus.running = true
is_at_work TaskStatus.paused = true
is_at_work _ = false

abbrev pub is_finished_task : TaskStatus → Bool
is_finished_task TaskStatus.completed = true
is_finished_task TaskStatus.closed = true
is_finished_task _ = false

abbrev pub is_not_held : TaskStatus → Bool
is_not_held TaskStatus.held = false
is_not_held _ = true

abbrev pub allowed_for_movement : MovementType → TaskStatus → Bool
allowed_for_movement MovementType.consume s = is_at_work s
allowed_for_movement MovementType.rework s = is_at_work s
allowed_for_movement MovementType.produce s = is_finished_task s
allowed_for_movement _ s = is_not_held s

-- `_require_operation_task`
unfoldable pub require_operation_task : ℕ → (TaskStatus → Bool) → Action Task
require_operation_task n allowed = do
  s ← gets (λ t. t)
  task ← or_fail (find (is_task n) s.tasks) MaterialFlowError.operation_task_not_found
  check (allowed task.status) MaterialFlowError.execution_state_incompatible
  pure task

-- The maintenance order of a movement, which is under work.
unfoldable pub require_maintenance_order : String → Action MaintenanceOrder
require_maintenance_order code = do
  s ← gets (λ t. t)
  order ←
      or_fail (find (λ o. str_eq o.order_code code) s.maintenance_orders)
        MaterialFlowError.maintenance_order_not_found
  check (is_under_work order.status) MaterialFlowError.maintenance_order_not_active
  pure order

-- `_audit`; what it writes to the outbox goes with the entry.
abbrev pub write_audit : String → String → String → Action (Unit {0})
write_audit actor action resource = modify (λ s. record s {
  audit = s.audit ++ record { actor = actor; action = action; resource_id = resource } ∷ [];
})

-- `str` of a number; as many rounds as the number are enough.
abbrev pub digit : ℕ → String
digit n =
    if n == 0
    then "0"
    else if n == 1
    then "1"
    else if n == 2
    then "2"
    else if n == 3
    then "3"
    else if n == 4
    then "4"
    else if n == 5
    then "5"
    else if n == 6
    then "6"
    else if n == 7
    then "7"
    else if n == 8
    then "8"
    else "9"

unfoldable pub decimal : ℕ → ℕ → String
decimal zero n = digit n
decimal (suc rounds) n = elim (ltb n 10) [
  | true ↦ digit n
  | false ↦ str_append (decimal rounds (n / 10)) (digit (n % 10))
]
