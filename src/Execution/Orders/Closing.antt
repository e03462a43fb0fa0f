-- ===== src/Execution/Orders/Closing.antt =====
-- services/central-api/app/repositories/execution.py: work orders and production orders are closed.
use mini_ogas.Prelude.{
  ℕ, ◌+◌, Bool, true, false, not, ◌&&◌, some, List, [], ◌∷◌, String, ltb, find, any, count,
  update_first, ◌==◌, if◌then◌else◌,
}
use mini_ogas.Prelude.Actions.{pure, gets, or_fail, check, modify, ◌>>=◌, ◌>>◌}
use mini_ogas.Execution.Model.{
  ActionName, Task, TaskStatus, ProductionOrder, OrderStatus, WorkOrderLink, WorkOrderExecution,
  ExecutionStatus,
}
use mini_ogas.Execution.Tasks.Payloads.{ExecutionActionIn}
use mini_ogas.Execution.Tasks.Completion.{is_link_of, is_execution}
use mini_ogas.Execution.Orders.{
  OrderError, OrderAction, OrderResource, OrderResponse, require_production_order,
  require_work_order, write_order_audit, keyed,
}
use mini_ogas.Execution.Orders.Production.{is_order_id}
use mini_ogas.Execution.Orders.Dispatch.{is_execution_of, format_tasks}

abbrev pub is_completed_execution : ExecutionStatus → Bool
is_completed_execution ExecutionStatus.completed = true
is_completed_execution _ = false

abbrev pub is_closed_execution : ExecutionStatus → Bool
is_closed_execution ExecutionStatus.closed = true
is_closed_execution _ = false

abbrev pub is_closed_task : TaskStatus → Bool
is_closed_task TaskStatus.closed = true
is_closed_task _ = false

abbrev pub is_unclosed_task_of : ℕ → Task → Bool
is_unclosed_task_of execution t = t.execution_id == execution && not (is_closed_task t.status)

abbrev pub closed_execution : String → ℕ → WorkOrderExecution → WorkOrderExecution
closed_execution actor now e = record e {
  status = ExecutionStatus.closed;
  closed_by = some actor;
  closed_at = some now;
}

-- `ORDER BY sequence`, of the numbers of the tasks of an execution
abbrev pub insert_task : Task → List Task → List Task
insert_task t [] = t ∷ []
insert_task t (u ∷ us) =
    let rest = insert_task t us in if ltb u.sequence t.sequence then u ∷ rest else t ∷ u ∷ us

abbrev pub tasks_in_order : ℕ → List Task → List Task
tasks_in_order execution [] = []
tasks_in_order execution (t ∷ ts) =
    let rest = tasks_in_order execution ts in
    if t.execution_id == execution then insert_task t rest else rest

abbrev pub numbers_of : List Task → List ℕ
numbers_of [] = []
numbers_of (t ∷ ts) = t.id ∷ numbers_of ts

-- After the checks.
unfoldable pub write_closing : String → String → ℕ → WorkOrderExecution → OrderAction OrderResponse
unfolding format_tasks
write_closing work_order_code actor now e = do
  modify (λ t. record t {
    facts = record t.facts {
      executions = update_first (is_execution e.id) (closed_execution actor now) t.facts.executions;
    };
  })
  ns ← gets (λ t. numbers_of (tasks_in_order e.id t.facts.tasks))
  views ← format_tasks ns
  write_order_audit actor "execution:work-order-closed" work_order_code
  pure (OrderResponse.tasks_view ExecutionStatus.closed views)

unfoldable pub close_work : String → String → ℕ → OrderAction OrderResponse
unfolding require_work_order
close_work work_order_code actor now = do
  w ← require_work_order work_order_code
  s ← gets (λ t. t)
  e ← or_fail (find (is_execution_of w.id) s.facts.executions) OrderError.work_order_not_complete
  check (is_completed_execution e.status) OrderError.work_order_not_complete
  check (not (any (is_unclosed_task_of e.id) s.facts.tasks)) OrderError.work_order_tasks_not_closed
  write_closing work_order_code actor now e

abbrev pub is_completed_order : OrderStatus → Bool
is_completed_order OrderStatus.completed = true
is_completed_order _ = false

-- The LEFT JOIN of a link with the executions of its work order: one row for each, or one row.
abbrev pub rows_of_link : List WorkOrderExecution → WorkOrderLink → ℕ
rows_of_link executions l =
    let n = count (is_execution_of l.work_order_id) executions in if n == 0 then 1 else n

abbrev pub is_closed_of : ℕ → WorkOrderExecution → Bool
is_closed_of work_order e = is_execution_of work_order e && is_closed_execution e.status

abbrev pub attached_count : ℕ → List WorkOrderExecution → List WorkOrderLink → ℕ
attached_count order executions [] = 0
attached_count order executions (l ∷ ls) =
    (if is_link_of order l then rows_of_link executions l else 0)
    + attached_count order executions ls

abbrev pub closed_count : ℕ → List WorkOrderExecution → List WorkOrderLink → ℕ
closed_count order executions [] = 0
closed_count order executions (l ∷ ls) =
    (if is_link_of order l then count (is_closed_of l.work_order_id) executions else 0)
    + closed_count order executions ls

abbrev pub closed_order : String → ℕ → ProductionOrder → ProductionOrder
closed_order actor now o = record o {
  status = OrderStatus.closed;
  closed_by = some actor;
  closed_at = some now;
}

unfoldable pub close_order : String → String → ℕ → OrderAction OrderResponse
unfolding require_production_order
close_order order_code actor now = do
  o ← require_production_order order_code
  check (is_completed_order o.status) OrderError.production_order_not_complete
  s ← gets (λ t. t)
  let attached = attached_count o.id s.facts.executions s.facts.links
  check (not (attached == 0) && attached == closed_count o.id s.facts.executions s.facts.links)
      OrderError.production_order_work_orders_not_closed
  modify (λ t. record t {
    facts = record t.facts {
      orders = update_first (is_order_id o.id) (closed_order actor now) t.facts.orders;
    };
  })
  write_order_audit actor "execution:production-order-closed" order_code
  pure (OrderResponse.order_view (closed_order actor now o))

module _ (request_hash : ExecutionActionIn → String) where
  unfoldable pub close_work_order :
      String → ExecutionActionIn → String → ℕ → OrderAction OrderResponse
  close_work_order work_order_code p actor now =
      keyed request_hash (OrderResource.work_order work_order_code) ActionName.close p
        (close_work work_order_code actor now)

  unfoldable pub close_production_order :
      String → ExecutionActionIn → String → ℕ → OrderAction OrderResponse
  close_production_order order_code p actor now =
      keyed request_hash (OrderResource.production_order order_code) ActionName.close p
        (close_order order_code actor now)
