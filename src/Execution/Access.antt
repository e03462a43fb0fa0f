-- ===== src/Execution/Access.antt =====
-- Reads and checks that the operations of
-- services/central-api/app/repositories/execution.py share. An operation runs in one transaction:
-- it returns its result with the tables it leaves, or raises, and then the tables are as before.
use mini_ogas.Prelude.{
  ℕ, ◌+◌, Bool, true, false, not, ◌&&◌, ◌||◌, Option, none, some, ltb, leb, ◌==◌, find, any,
}
use mini_ogas.Prelude.Actions.{Transaction, or_fail, gets, check, ◌>>=◌, ◌>>◌}
use mini_ogas.Execution.Model.{
  TaskStatus, Task, MaintenanceAsset, MaintenanceOrder, MaintenanceStatus, ProductionImpact, Tool,
  ToolStatus, Facts, ExecutionError,
}

abbrev pub Action : Type 0 → Type 0
Action = Transaction Facts ExecutionError

-- `_same_quantity`: apart by at most the tolerance.
abbrev pub same_quantity : ℕ → ℕ → Bool
same_quantity a b = leb a (b + 1) && leb b (a + 1)

abbrev pub status_code : TaskStatus → ℕ
status_code TaskStatus.dispatched = 0
status_code TaskStatus.setup = 1
status_code TaskStatus.ready = 2
status_code TaskStatus.running = 3
status_code TaskStatus.paused = 4
status_code TaskStatus.held = 5
status_code TaskStatus.completed = 6
status_code TaskStatus.closed = 7

abbrev pub same_status : TaskStatus → TaskStatus → Bool
same_status s t = status_code s == status_code t

-- `status IN ('completed','closed')`
abbrev pub is_done : TaskStatus → Bool
is_done TaskStatus.completed = true
is_done TaskStatus.closed = true
is_done _ = false

-- The statuses that a task can be held in.
abbrev pub is_holdable : TaskStatus → Bool
is_holdable TaskStatus.dispatched = true
is_holdable TaskStatus.setup = true
is_holdable TaskStatus.ready = true
is_holdable TaskStatus.running = true
is_holdable TaskStatus.paused = true
is_holdable _ = false

abbrev pub is_reporting : TaskStatus → Bool
is_reporting TaskStatus.running = true
is_reporting TaskStatus.paused = true
is_reporting _ = false

abbrev pub is_task : ℕ → Task → Bool
is_task n t = t.id == n

-- `_require_task`
unfoldable pub require_task : ℕ → Action Task
require_task n f = or_fail (find (is_task n) f.tasks) ExecutionError.operation_task_not_found f

-- `_require_transition`
abbrev pub require_transition : Task → (TaskStatus → Bool) → Action (Unit {0})
require_transition t allowed =
    check (allowed t.status) (ExecutionError.invalid_operation_transition t.status)

-- `_validate_predecessors`
abbrev pub is_unfinished_before : Task → Task → Bool
is_unfinished_before t u =
    u.execution_id == t.execution_id && ltb u.sequence t.sequence && not (is_done u.status)

abbrev pub validate_predecessors : Task → Action (Unit {0})
validate_predecessors t f =
    check (not (any (is_unfinished_before t) f.tasks))
      ExecutionError.predecessor_operation_incomplete f

abbrev pub is_unavailable : ProductionImpact → Bool
is_unavailable ProductionImpact.equipment_unavailable = true
is_unavailable _ = false

-- `status IN ('in_progress','work_completed')`
abbrev pub is_under_work : MaintenanceStatus → Bool
is_under_work MaintenanceStatus.in_progress = true
is_under_work MaintenanceStatus.work_completed = true
is_under_work _ = false

-- The joins of `_require_maintenance_readiness`, from the inner table outwards.
abbrev pub is_blocking : MaintenanceOrder → Bool
is_blocking o = is_under_work o.status && is_unavailable o.production_impact

abbrev pub is_blocked_asset : Facts → ℕ → MaintenanceAsset → Bool
is_blocked_asset f equipment a =
    a.equipment_id == equipment
    && any (λ o. o.asset_id == a.id && is_blocking o) f.maintenance_orders

unfoldable pub is_maintenance_blocked : Facts → ℕ → Bool
is_maintenance_blocked f task =
    any (λ a. a.task_id == task && any (is_blocked_asset f a.equipment_id) f.assets) f.assignments

abbrev pub has_tool : Facts → ℕ → (Tool → Bool) → Bool
has_tool f task test =
    any (λ a. a.task_id == task && any (λ t. t.id == a.tool_id && test t) f.tools)
      f.tool_assignments

abbrev pub is_over_life : Tool → Bool
is_over_life t = elim t.status [ ToolStatus.over_life ↦ true | _ ↦ false ]

abbrev pub is_calibration_invalid : ToolStatus → Bool
is_calibration_invalid ToolStatus.calibration_invalid = true
is_calibration_invalid _ = false

-- `calibration_due_at<=now`; a due time that is NULL compares as not true.
abbrev pub is_due : ℕ → Option ℕ → Bool
is_due now none = false
is_due now (some due) = leb due now

abbrev pub is_uncalibrated : ℕ → Tool → Bool
is_uncalibrated now t =
    is_calibration_invalid t.status || (t.calibration_required && is_due now t.calibration_due_at)

-- `_require_maintenance_readiness`
abbrev pub require_maintenance_readiness : ℕ → ℕ → Action (Unit {0})
require_maintenance_readiness task now = do
  f ← gets (λ g. g)
  check (not (is_maintenance_blocked f task)) ExecutionError.active_maintenance_blocks_task
  check (not (has_tool f task is_over_life)) ExecutionError.tool_life_exceeded
  check (not (has_tool f task (is_uncalibrated now))) ExecutionError.tool_calibration_invalid
