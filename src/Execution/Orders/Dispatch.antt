-- ===== src/Execution/Orders/Dispatch.antt =====
-- services/central-api/app/repositories/execution.py: a work order is dispatched, as one task for each
-- operation of its routing.
use mini_ogas.Prelude.{
  ℕ, Bool, true, false, not, ◌&&◌, Option, none, some, List, [], ◌∷◌, ◌++◌, String, leb, find,
  find_last, any, change_all, ◌==◌, if◌then◌else◌,
}
use mini_ogas.Prelude.Actions.{pure, gets, or_fail, check, modify, ◌>>=◌, ◌>>◌}
use mini_ogas.Execution.Model.{
  ActionName, Task, TaskStatus, HistoryEntry, ProductionOrder, OrderStatus, WorkOrderExecution,
  ExecutionStatus, Facts,
}
use mini_ogas.Execution.Status.{TaskView, record_history, format_task}
use mini_ogas.Execution.Tasks.Payloads.{ExecutionActionIn}
use mini_ogas.Execution.Orders.{
  Assignment, Operation, Routing, WorkOrder, OrderError, OrderAction, OrderResource, OrderResponse,
  on_tables, require_work_order, require_code, write_order_audit, keyed,
}
use mini_ogas.Execution.Orders.Production.{fresh_id, is_released_work, is_attached, is_order_id}

-- `sorted(operations, key=...)`
abbrev pub insert_operation : Operation → List Operation → List Operation
insert_operation o [] = o ∷ []
insert_operation o (p ∷ ps) =
    let rest = insert_operation o ps in if leb o.sequence p.sequence then o ∷ p ∷ ps else p ∷ rest

abbrev pub sorted_operations : List Operation → List Operation
sorted_operations [] = []
sorted_operations (o ∷ os) = insert_operation o (sorted_operations os)

abbrev pub is_dispatchable : OrderStatus → Bool
is_dispatchable OrderStatus.released = true
is_dispatchable OrderStatus.in_progress = true
is_dispatchable _ = false

abbrev pub is_execution_of : ℕ → WorkOrderExecution → Bool
is_execution_of work_order e = e.work_order_id == work_order

abbrev pub execution_of : WorkOrder → ℕ → ℕ → WorkOrderExecution
execution_of w order n = record {
  id = n;
  production_order_id = order;
  work_order_id = w.id;
  status = ExecutionStatus.dispatched;
  completed_at = none;
  closed_by = none;
  closed_at = none;
}

abbrev pub next_execution_id : Facts → ℕ
next_execution_id f = fresh_id (λ (e : WorkOrderExecution). e.id) f.executions

abbrev pub with_execution : WorkOrder → ℕ → Facts → Facts
with_execution w order f = record f {
  executions = f.executions ++ execution_of w order (next_execution_id f) ∷ [];
}

-- The operations of a routing; of no routing, none.
abbrev pub operations_of : Option Routing → List Operation
operations_of none = []
operations_of (some r) = r.operations

abbrev pub has_operation : List Operation → Bool
has_operation [] = false
has_operation (o ∷ os) = true

abbrev pub task_of : WorkOrder → ℕ → Operation → ℕ → Task
task_of w execution o n = record {
  id = n;
  execution_id = execution;
  work_order_id = w.id;
  sequence = o.sequence;
  operation_code = o.operation_code;
  planned_quantity = w.quantity;
  status = TaskStatus.dispatched;
  hold_return_status = none;
  completion_evidence_reference = none;
  started_at = none;
  completed_at = none;
  closed_at = none;
}

abbrev pub dispatch_entry : ℕ → ExecutionActionIn → String → ℕ → HistoryEntry
dispatch_entry n p actor now = record {
  task_id = n;
  from_status = none;
  to_status = TaskStatus.dispatched;
  action = ActionName.dispatch;
  reason = p.reason;
  evidence_reference = "";
  actor = actor;
  occurred_at = now;
  idempotency_key = p.idempotency_key;
}

abbrev pub is_task_at : ℕ → ℕ → Task → Bool
is_task_at work_order sequence t = t.work_order_id == work_order && t.sequence == sequence

abbrev pub next_task_id : Facts → ℕ
next_task_id f = fresh_id (λ (t : Task). t.id) f.tasks

-- The rows of a new task: the task, its assignment and its first history entry.
abbrev pub with_task : Task → ℕ → ℕ → Facts → Facts
with_task t equipment personnel f = record f {
  tasks = f.tasks ++ t ∷ [];
  assignments =
      f.assignments
      ++ record { task_id = t.id; equipment_id = equipment; personnel_id = personnel } ∷ [];
}

-- One round of the loop over the operations, which returns the number of the task.
unfoldable pub materialize :
    WorkOrder → ℕ → ExecutionActionIn → String → ℕ → Operation → OrderAction ℕ
unfolding require_code record_history
materialize w execution p actor now o = do
  a ←
      or_fail (find_last (λ (b : Assignment). b.sequence == o.sequence) w.assignments)
        OrderError.operation_assignment_incomplete
  s ← gets (λ t. t)
  equipment ← require_code a.equipment_code s.equipment
  personnel ← require_code a.personnel_code s.personnel
  check (not (any (is_task_at w.id o.sequence) s.facts.tasks)) OrderError.duplicate_operation_task
  let n = next_task_id s.facts
  modify (λ t. record t {
    facts = with_task (task_of w execution o n) equipment.id personnel.id t.facts;
  })
  on_tables (record_history (dispatch_entry n p actor now))
  pure n

unfoldable pub materialize_all :
    WorkOrder → ℕ → ExecutionActionIn → String → ℕ → List Operation → OrderAction (List ℕ)
materialize_all w execution p actor now [] = pure []
materialize_all w execution p actor now (o ∷ os) = do
  n ← materialize w execution p actor now o
  ns ← materialize_all w execution p actor now os
  pure (n ∷ ns)

abbrev pub begins : ℕ → ProductionOrder → Bool
begins n o = o.id == n && elim o.status [ OrderStatus.released ↦ true | _ ↦ false ]

abbrev pub begun_order : ProductionOrder → ProductionOrder
begun_order o = record o { status = OrderStatus.in_progress }

unfoldable pub format_tasks : List ℕ → OrderAction (List TaskView)
unfolding format_task
format_tasks [] = pure []
format_tasks (n ∷ ns) = do v ← on_tables (format_task n); vs ← format_tasks ns; pure (v ∷ vs)

-- After the execution was inserted.
unfoldable pub write_dispatch :
    WorkOrder → ℕ → ℕ → ExecutionActionIn → String → ℕ → OrderAction OrderResponse
write_dispatch w order execution p actor now = do
  s ← gets (λ t. t)
  let operations = operations_of (find (λ (r : Routing). r.id == w.routing_revision_id) s.routings)
  check (has_operation operations) OrderError.routing_operations_missing
  ns ← materialize_all w execution p actor now (sorted_operations operations)
  modify (λ t. record t {
    facts = record t.facts { orders = change_all (begins order) begun_order t.facts.orders };
  })
  views ← format_tasks ns
  write_order_audit actor "execution:work-order-dispatched" w.work_order_code
  pure (OrderResponse.tasks_view ExecutionStatus.dispatched views)

unfoldable pub dispatch : String → ExecutionActionIn → String → ℕ → OrderAction OrderResponse
unfolding require_work_order
dispatch work_order_code p actor now = do
  w ← require_work_order work_order_code
  check (is_released_work w.status) OrderError.work_order_not_released
  s ← gets (λ t. t)
  l ← or_fail (find (is_attached w.id) s.facts.links) OrderError.work_order_not_attached
  o ←
      or_fail (find (is_order_id l.production_order_id) s.facts.orders)
        OrderError.work_order_not_attached
  check (is_dispatchable o.status) OrderError.production_order_not_released
  check (not (any (is_execution_of w.id) s.facts.executions))
      OrderError.work_order_already_dispatched
  modify (λ t. record t { facts = with_execution w l.production_order_id t.facts })
  write_dispatch w l.production_order_id (next_execution_id s.facts) p actor now

module _ (request_hash : ExecutionActionIn → String) where
  unfoldable pub dispatch_work_order :
      String → ExecutionActionIn → String → ℕ → OrderAction OrderResponse
  dispatch_work_order work_order_code p actor now =
      keyed request_hash (OrderResource.work_order work_order_code) ActionName.dispatch p
        (dispatch work_order_code p actor now)
