-- ===== src/Execution/Orders.antt =====
-- services/central-api/app/repositories/execution.py: the tables that the operations on orders read and
-- write, and their idempotency keys.
pub mod Production
pub mod Dispatch
pub mod Closing
pub mod Closed
pub mod Sequence
pub mod Ready
pub mod Dispatched
pub mod Keys
mod Samples
mod Tests
use mini_ogas.Prelude.{
  ℕ, Bool, true, false, ◌&&◌, Option, none, some, List, [], ◌∷◌, ◌++◌, String, str_eq, find, ◌==◌,
  ok, err,
}
use mini_ogas.Prelude.Actions.{Transaction, gets, or_fail, modify, ◌>>=◌, ◌>>◌}
use mini_ogas.Execution.Model.{
  ActionName, Facts, ProductionOrder, OrderStatus, WorkOrderExecution, ExecutionStatus,
  ExecutionError,
}
use mini_ogas.Execution.Access.{Action}
use mini_ogas.Execution.Status.{TaskView}
use mini_ogas.Execution.Tasks.Payloads.{ExecutionActionIn}
use mini_ogas.Execution.Governed.{action_code}

-- Of the master data, the columns that are read.
pub record Product : Type 0 where
  pub id : ℕ
  pub product_code : String

pub record Coded : Type 0 where
  pub id : ℕ
  pub code : String

-- An entry of `operation_assignments_json`
pub record Assignment : Type 0 where
  pub sequence : ℕ
  pub equipment_code : String
  pub personnel_code : String

-- An entry of `operations` in the content of a routing
pub record Operation : Type 0 where
  pub sequence : ℕ
  pub operation_code : String

pub record Routing : Type 0 where
  pub id : ℕ
  pub operations : List Operation

pub data WorkOrderStatus : Type 0 where
  draft released cancelled : WorkOrderStatus

pub record WorkOrder : Type 0 where
  pub id : ℕ
  pub work_order_code : String
  pub product_id : ℕ
  pub quantity : ℕ
  pub routing_revision_id : ℕ
  pub assignments : List Assignment
  pub status : WorkOrderStatus

-- `resource_type` with `resource_id`
pub data OrderResource : Type 0 where
  production_order : String → OrderResource
  work_order : String → OrderResource
  attachment : String → String → OrderResource

pub data OrderResponse : Type 0 where
  order_view : ProductionOrder → OrderResponse
  attached_view : String → String → OrderResponse
  tasks_view : ExecutionStatus → List TaskView → OrderResponse

-- The rows of `execution_idempotency` for orders; their resource types are none of the tasks'.
pub record OrderKey : Type 0 where
  pub resource : OrderResource
  pub action : ActionName
  pub idempotency_key : String
  pub request_hash : String
  pub response : OrderResponse

pub record OrderAudit : Type 0 where
  pub actor : String
  pub action : String
  pub resource_id : String

pub record Shop : Type 0 where
  pub facts : Facts
  pub products : List Product
  pub work_orders : List WorkOrder
  pub routings : List Routing
  pub equipment : List Coded
  pub personnel : List Coded
  pub order_keys : List OrderKey
  pub order_audit : List OrderAudit

-- `ExecutionError`, of the operations on orders, and one that a shared part raises.
pub data OrderError : Type 0 where
  idempotency_key_reused reference_not_found duplicate_production_order : OrderError
  production_order_not_found work_order_not_found production_order_not_editable : OrderError
  work_order_not_released production_order_product_mismatch work_order_already_attached : OrderError
  invalid_production_order_transition production_order_empty : OrderError
  production_order_quantity_mismatch work_order_not_attached production_order_not_released :
      OrderError
  work_order_already_dispatched routing_operations_missing : OrderError
  operation_assignment_incomplete duplicate_operation_task : OrderError
  work_order_execution_not_found work_order_not_complete work_order_tasks_not_closed : OrderError
  production_order_not_complete production_order_work_orders_not_closed : OrderError
  raised : ExecutionError → OrderError

abbrev pub OrderAction : Type 0 → Type 0
OrderAction = Transaction Shop OrderError

-- A part that the operations on tasks share.
abbrev pub on_tables : {A : Type 0} → Action A → OrderAction A
on_tables part s = elim (part s.facts) [
  | ok (a, f) ↦ ok (a, record s { facts = f })
  | err e ↦ err (OrderError.raised e)
]

abbrev pub same_order_resource : OrderResource → OrderResource → Bool
same_order_resource (OrderResource.production_order a) (OrderResource.production_order b) =
    str_eq a b
same_order_resource (OrderResource.work_order a) (OrderResource.work_order b) = str_eq a b
same_order_resource (OrderResource.attachment a b) (OrderResource.attachment c d) =
    str_eq a c && str_eq b d
same_order_resource _ _ = false

abbrev pub is_order_key : OrderResource → ActionName → String → OrderKey → Bool
is_order_key resource action key row =
    same_order_resource row.resource resource
    && action_code row.action == action_code action
    && str_eq row.idempotency_key key

-- `_require_product`, `_require_production_order` and `_require_work_order`
unfoldable pub require_product : String → OrderAction Product
require_product code s =
    or_fail (find (λ (p : Product). str_eq p.product_code code) s.products)
      OrderError.reference_not_found s

abbrev pub is_order : String → ProductionOrder → Bool
is_order code o = str_eq o.production_order_code code

unfoldable pub require_production_order : String → OrderAction ProductionOrder
require_production_order code s =
    or_fail (find (is_order code) s.facts.orders) OrderError.production_order_not_found s

unfoldable pub require_work_order : String → OrderAction WorkOrder
require_work_order code s =
    or_fail (find (λ (w : WorkOrder). str_eq w.work_order_code code) s.work_orders)
      OrderError.work_order_not_found s

-- `_require_code`
unfoldable pub require_code : String → List Coded → OrderAction Coded
require_code code rows s =
    or_fail (find (λ (c : Coded). str_eq c.code code) rows) OrderError.reference_not_found s

abbrev pub write_order_audit : String → String → String → OrderAction (Unit {0})
write_order_audit actor action resource = modify (λ s. record s {
  order_audit =
      s.order_audit ++ record { actor = actor; action = action; resource_id = resource } ∷ [];
})

abbrev pub order_key : OrderResource → ActionName → String → String → OrderResponse → OrderKey
order_key resource action key hash response = record {
  resource = resource;
  action = action;
  idempotency_key = key;
  request_hash = hash;
  response = response;
}

-- `_idempotent_get` before an operation and `_idempotent_store` after it. `_request_hash` is a
-- parameter.
module _ (request_hash : ExecutionActionIn → String) where
  unfoldable pub keyed :
      OrderResource
      → ActionName
      → ExecutionActionIn
      → OrderAction OrderResponse
      → OrderAction OrderResponse
  keyed resource action p body s =
      elim (find (is_order_key resource action p.idempotency_key) s.order_keys) [
        | some row ↦ elim (str_eq row.request_hash (request_hash p)) [
          | true ↦ ok (row.response, s)
          | false ↦ err OrderError.idempotency_key_reused
        ]
        | none ↦
            (body >>= λ response.
            modify (λ t. record t {
              order_keys =
                  t.order_keys
                  ++ order_key resource action p.idempotency_key (request_hash p) response ∷ [];
            })
            >>= λ _. gets (λ t. response))
              s
      ]
