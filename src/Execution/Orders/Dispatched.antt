-- ===== src/Execution/Orders/Dispatched.antt =====
-- What a dispatch leaves (services/central-api/app/repositories/execution.py).
use mini_ogas.Prelude.{
  ℕ, ◌≡◌, some, List, [], ◌∷◌, String, arith, find, ok, ◌==◌, Option-cases, str_eq, inl, inr,
}
use mini_ogas.Execution.Model.{Task}
use mini_ogas.Execution.Tasks.Payloads.{ExecutionActionIn}
use mini_ogas.Execution.Orders.{
  Operation, Routing, WorkOrder, Shop, OrderResponse, require_work_order,
}
use mini_ogas.Execution.Orders.Production.{is_attached, is_order_id}
use mini_ogas.Execution.Orders.Dispatch.{
  task_of, operations_of, next_execution_id, with_execution, write_dispatch, dispatch,
}

-- The tasks of operations, one for one.
abbrev pub TasksOf : WorkOrder → ℕ → List Task → List Operation → Type 0
TasksOf w execution [] [] = Unit {0}
TasksOf w execution [] (o ∷ os) = ⊥
TasksOf w execution (t ∷ ts) [] = ⊥
TasksOf w execution (t ∷ ts) (o ∷ os) = (t ≡ task_of w execution o t.id) × TasksOf w execution ts os

-- The operations of the routing that a work order is bound to.
abbrev pub routed_operations : WorkOrder → List Routing → List Operation
routed_operations w routings =
    operations_of (find (λ (r : Routing). r.id == w.routing_revision_id) routings)

pub dispatched_work :
    (code : String) (p : ExecutionActionIn) (actor : String) (now : ℕ) (s : Shop)
    (r : OrderResponse) (s' : Shop)
    → dispatch code p actor now s ≡ ok (r, s')
    → (w : WorkOrder) × (find (λ (v : WorkOrder). str_eq v.work_order_code code) s.work_orders
        ≡ some w)
unfolding dispatch require_work_order
dispatched_work code p actor now s r s' h =
    elim (Option-cases (find (λ (v : WorkOrder). str_eq v.work_order_code code) s.work_orders)) [
      | inl e ↦ absurd (ground (arith, e))
      | inr found ↦ found
    ]

pub dispatch_lem :
    (code : String) (p : ExecutionActionIn) (actor : String) (now : ℕ) (s : Shop) (w : WorkOrder)
    (r : OrderResponse) (s' : Shop)
    → find (λ (v : WorkOrder). str_eq v.work_order_code code) s.work_orders ≡ some w
    → dispatch code p actor now s ≡ ok (r, s')
    → (order : ℕ) × (write_dispatch w order
          (next_execution_id s.facts)
          p
          actor
          now
          (record s { facts = with_execution w order s.facts })
        ≡ ok (r, s'))
unfolding dispatch require_work_order
dispatch_lem code p actor now s w r s' there h =
    elim (Option-cases (find (is_attached w.id) s.facts.links)) [
      | inl e ↦ absurd (ground (arith, there, e))
      | inr (l, e) ↦ elim (Option-cases (find (is_order_id l.production_order_id) s.facts.orders)) [
        | inl e2 ↦ absurd (ground (arith, there, e, e2))
        | inr (o, e2) ↦ (l.production_order_id, ground (arith, there, e, e2))
      ]
    ]
