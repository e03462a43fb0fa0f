-- ===== src/Execution/Tasks/Completion.antt =====
-- services/central-api/app/repositories/execution.py: a task is completed, and with the last one
-- its work order and production order.
use mini_ogas.Prelude.{
  not, ℕ, Bool, true, false, ◌&&◌, some, List, String, is_empty, ◌==◌, if◌then◌else◌, find, any,
  change_all, count,
}
use mini_ogas.Execution.Model.{
  TaskStatus, Task, ActionName, ExecutionStatus, WorkOrderExecution, OrderStatus, ProductionOrder,
  WorkOrderLink, ExecutionError,
}
use mini_ogas.Prelude.Actions.{pure, gets, or_fail, ◌>>=◌, ◌>>◌, check, modify}
use mini_ogas.Execution.Access.{Action, same_quantity, is_done, require_task, require_transition}
use mini_ogas.Execution.Status.{
  change_to, change_task_status, accounted, write_audit, TaskView, format_task,
}
use mini_ogas.Execution.Tasks.Payloads.{CompleteTaskIn, is_running}

abbrev pub is_remaining : ℕ → Task → Bool
is_remaining execution t = t.execution_id == execution && not (is_done t.status)

-- `status IN ('released','dispatched','in_progress')`
abbrev pub is_in_work : ExecutionStatus → Bool
is_in_work ExecutionStatus.released = true
is_in_work ExecutionStatus.dispatched = true
is_in_work ExecutionStatus.in_progress = true
is_in_work _ = false

abbrev pub finishes : ℕ → WorkOrderExecution → Bool
finishes n e = e.id == n && is_in_work e.status

abbrev pub finished_execution : ℕ → WorkOrderExecution → WorkOrderExecution
finished_execution now e = record e { status = ExecutionStatus.completed; completed_at = some now }

-- `execution.status IN ('completed','closed')`
abbrev pub is_finished : ExecutionStatus → Bool
is_finished ExecutionStatus.completed = true
is_finished ExecutionStatus.closed = true
is_finished _ = false

abbrev pub is_execution : ℕ → WorkOrderExecution → Bool
is_execution n e = e.id == n

abbrev pub is_link_of : ℕ → WorkOrderLink → Bool
is_link_of order l = l.production_order_id == order

-- The LEFT JOIN: a link counts as completed if its work order has a finished execution.
abbrev pub is_finished_link : ℕ → List WorkOrderExecution → WorkOrderLink → Bool
is_finished_link order executions l =
    is_link_of order l
    && any (λ e. e.work_order_id == l.work_order_id && is_finished e.status) executions

abbrev pub is_order_in_progress : OrderStatus → Bool
is_order_in_progress OrderStatus.in_progress = true
is_order_in_progress _ = false

abbrev pub completes : ℕ → ProductionOrder → Bool
completes n o = o.id == n && is_order_in_progress o.status

abbrev pub completed_order : ℕ → ProductionOrder → ProductionOrder
completed_order now o = record o { status = OrderStatus.completed; completed_at = some now }

-- `_update_completion_aggregates` after it found no task of the execution left.
unfoldable pub complete_execution : ℕ → ℕ → Action (Unit {0})
complete_execution n now = do
  modify
      (λ f. record f { executions = change_all (finishes n) (finished_execution now) f.executions })
  f ← gets (λ g. g)
  execution ← or_fail (find (is_execution n) f.executions) ExecutionError.row_missing
  let order = execution.production_order_id
  let all_finished =
      count (is_link_of order) f.links == count (is_finished_link order f.executions) f.links
  modify (λ g.
      if all_finished
      then record g { orders = change_all (completes order) (completed_order now) g.orders }
      else g)

-- `_update_completion_aggregates`
unfoldable pub update_completion_aggregates : Task → ℕ → Action (Unit {0})
update_completion_aggregates task now = do
  f ← gets (λ g. g)
  elim (any (is_remaining task.execution_id) f.tasks) [
    | true ↦ pure tt
    | false ↦ complete_execution task.execution_id now
  ]

-- The evidence has been stripped of white space when the payload was read.
unfoldable pub complete_task : ℕ → CompleteTaskIn → String → ℕ → Action TaskView
complete_task n payload actor now = do
  task ← require_task n
  require_transition task is_running
  f ← gets (λ g. g)
  check (same_quantity (accounted n f.reports) task.planned_quantity)
      ExecutionError.quantity_not_conserved
  check (not (is_empty payload.evidence_reference)) ExecutionError.completion_evidence_required
  let change =
      change_to TaskStatus.completed ActionName.complete actor payload.idempotency_key ""
        payload.evidence_reference
  changed ← change_task_status task (record change { set_completed = true }) now
  update_completion_aggregates changed now
  response ← format_task n
  write_audit actor ActionName.complete n
  pure response
