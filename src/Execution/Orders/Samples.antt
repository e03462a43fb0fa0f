-- ===== src/Execution/Orders/Samples.antt =====
-- A small shop for the orders of services/central-api/app/repositories/execution.py.
use mini_ogas.Prelude.{none, some, [], ◌∷◌, String}
use mini_ogas.Prelude.Actions.{state_of}
use mini_ogas.Execution.Model.{
  Facts, ProductionOrder, OrderStatus, ExecutionStatus, WorkOrderExecution,
}
use mini_ogas.Execution.Tasks.Payloads.{ExecutionActionIn}
use mini_ogas.Execution.Orders.{Shop, WorkOrder, WorkOrderStatus}
use mini_ogas.Execution.Orders.Dispatch.{dispatch}

abbrev pub digest : ExecutionActionIn → String
digest p = p.reason

abbrev pub payload : ExecutionActionIn
payload = record { idempotency_key = "k-1"; reason = "planned" }

abbrev pub order : ProductionOrder
order = record {
  id = 2;
  production_order_code = "p-1";
  product_id = 3;
  quantity = 8;
  status = OrderStatus.released;
  released_by = some "ada";
  released_at = some 1;
  completed_at = none;
  closed_by = none;
  closed_at = none;
}

abbrev pub work : WorkOrder
work = record {
  id = 9;
  work_order_code = "w-1";
  product_id = 3;
  quantity = 8;
  routing_revision_id = 5;
  assignments =
      record { sequence = 10; equipment_code = "saw"; personnel_code = "ada" }
      ∷ record { sequence = 20; equipment_code = "saw"; personnel_code = "ada" }
      ∷ [];
  status = WorkOrderStatus.released;
}

abbrev pub no_facts : Facts
no_facts = record {
  tasks = [];
  setups = [];
  holds = [];
  downtimes = [];
  reports = [];
  history = [];
  executions = [];
  orders = order ∷ [];
  links = record { production_order_id = 2; work_order_id = 9 } ∷ [];
  assignments = [];
  assets = [];
  maintenance_orders = [];
  tools = [];
  tool_assignments = [];
  audit = [];
}

abbrev pub shop : Shop
shop = record {
  facts = no_facts;
  products = [];
  work_orders = work ∷ [];
  routings =
      record {
        id = 5;
        operations =
            record { sequence = 20; operation_code = "weld" }
            ∷ record { sequence = 10; operation_code = "cut" }
            ∷ [];
      }
      ∷ [];
  equipment = record { id = 6; code = "saw" } ∷ [];
  personnel = record { id = 7; code = "ada" } ∷ [];
  order_keys = [];
  order_audit = [];
}

unfoldable pub dispatched : Shop
dispatched = state_of (dispatch "w-1" payload "ada" 4 shop) shop

-- A completed order whose one work order is closed.
abbrev pub done_order : ProductionOrder
done_order = record order { status = OrderStatus.completed; completed_at = some 8 }

abbrev pub done_work : WorkOrderExecution
done_work = record {
  id = 1;
  production_order_id = 2;
  work_order_id = 9;
  status = ExecutionStatus.closed;
  completed_at = some 8;
  closed_by = some "ada";
  closed_at = some 9;
}

abbrev pub done_shop : Shop
done_shop = record shop {
  facts = record no_facts { orders = done_order ∷ []; executions = done_work ∷ [] };
}
