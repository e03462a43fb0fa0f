-- ===== src/Execution/Orders/Production.antt =====
-- services/central-api/app/repositories/execution.py: production orders are created, get work orders and
-- are released.
use mini_ogas.Prelude.{
  ℕ, ◌+◌, max, Bool, true, false, not, none, some, List, [], ◌∷◌, ◌++◌, String, find, any,
  update_first, ◌==◌, if◌then◌else◌,
}
use mini_ogas.Prelude.Actions.{pure, gets, check, modify, ◌>>=◌, ◌>>◌}
use mini_ogas.Execution.Model.{ActionName, ProductionOrder, OrderStatus, WorkOrderLink}
use mini_ogas.Execution.Access.{same_quantity}
use mini_ogas.Execution.Tasks.Payloads.{ExecutionActionIn}
use mini_ogas.Execution.Orders.{
  Product, WorkOrder, WorkOrderStatus, OrderError, OrderAction, OrderResource, OrderResponse,
  require_product, require_production_order, require_work_order, is_order, write_order_audit, keyed,
}

-- `ProductionOrderIn`, as it is read back; its priority and due time are only kept.
pub record ProductionOrderIn : Type 0 where
  pub production_order_code : String
  pub product_code : String
  pub quantity : ℕ

-- A number that no row of a table has yet.
abbrev pub fresh_id : {A : Type 0} → (A → ℕ) → List A → ℕ
fresh_id id [] = 1
fresh_id id (a ∷ rest) = max (id a + 1) (fresh_id id rest)

abbrev pub order_of : ProductionOrderIn → Product → ℕ → ProductionOrder
order_of p product n = record {
  id = n;
  production_order_code = p.production_order_code;
  product_id = product.id;
  quantity = p.quantity;
  status = OrderStatus.draft;
  released_by = none;
  released_at = none;
  completed_at = none;
  closed_by = none;
  closed_at = none;
}

unfoldable pub create_production_order : ProductionOrderIn → String → OrderAction ProductionOrder
unfolding require_product
create_production_order p actor = do
  product ← require_product p.product_code
  s ← gets (λ t. t)
  check (not (any (is_order p.production_order_code) s.facts.orders))
      OrderError.duplicate_production_order
  let o = order_of p product (fresh_id (λ (q : ProductionOrder). q.id) s.facts.orders)
  modify (λ t. record t { facts = record t.facts { orders = t.facts.orders ++ o ∷ [] } })
  write_order_audit actor "execution:production-order-created" p.production_order_code
  pure o

abbrev pub is_draft : OrderStatus → Bool
is_draft OrderStatus.draft = true
is_draft _ = false

abbrev pub is_released_work : WorkOrderStatus → Bool
is_released_work WorkOrderStatus.released = true
is_released_work _ = false

abbrev pub is_attached : ℕ → WorkOrderLink → Bool
is_attached work_order l = l.work_order_id == work_order

unfoldable pub attach : String → String → String → OrderAction OrderResponse
unfolding require_production_order require_work_order
attach order_code work_order_code actor = do
  o ← require_production_order order_code
  w ← require_work_order work_order_code
  check (is_draft o.status) OrderError.production_order_not_editable
  check (is_released_work w.status) OrderError.work_order_not_released
  check (w.product_id == o.product_id) OrderError.production_order_product_mismatch
  s ← gets (λ t. t)
  check (not (any (is_attached w.id) s.facts.links)) OrderError.work_order_already_attached
  modify (λ t. record t {
    facts = record t.facts {
      links = t.facts.links ++ record { production_order_id = o.id; work_order_id = w.id } ∷ [];
    };
  })
  write_order_audit actor "execution:work-order-attached" order_code
  pure (OrderResponse.attached_view order_code work_order_code)

-- The join of the links of an order with their work orders.
abbrev pub linked_work : ℕ → List WorkOrder → List WorkOrderLink → List WorkOrder
linked_work order works [] = []
linked_work order works (l ∷ ls) =
    let rest = linked_work order works ls in
    if l.production_order_id == order
    then elim (find (λ (w : WorkOrder). w.id == l.work_order_id) works) [
      | some w ↦ w ∷ rest
      | none ↦ rest
    ]
    else rest

abbrev pub work_quantity : List WorkOrder → ℕ
work_quantity [] = 0
work_quantity (w ∷ ws) = w.quantity + work_quantity ws

abbrev pub is_none : List WorkOrder → Bool
is_none [] = true
is_none (w ∷ ws) = false

abbrev pub released_order : String → ℕ → ProductionOrder → ProductionOrder
released_order actor now o = record o {
  status = OrderStatus.released;
  released_by = some actor;
  released_at = some now;
}

abbrev pub is_order_id : ℕ → ProductionOrder → Bool
is_order_id n o = o.id == n

unfoldable pub release : String → String → ℕ → OrderAction OrderResponse
unfolding require_production_order
release order_code actor now = do
  o ← require_production_order order_code
  check (is_draft o.status) OrderError.invalid_production_order_transition
  s ← gets (λ t. t)
  let works = linked_work o.id s.work_orders s.facts.links
  check (not (is_none works)) OrderError.production_order_empty
  check (not (any (λ (w : WorkOrder). not (is_released_work w.status)) works))
      OrderError.work_order_not_released
  check (not (any (λ (w : WorkOrder). not (w.product_id == o.product_id)) works))
      OrderError.production_order_product_mismatch
  check (same_quantity (work_quantity works) o.quantity)
      OrderError.production_order_quantity_mismatch
  modify (λ t. record t {
    facts = record t.facts {
      orders = update_first (is_order_id o.id) (released_order actor now) t.facts.orders;
    };
  })
  write_order_audit actor "execution:production-order-released" order_code
  pure (OrderResponse.order_view (released_order actor now o))

module _ (request_hash : ExecutionActionIn → String) where
  unfoldable pub attach_work_order :
      String → String → ExecutionActionIn → String → OrderAction OrderResponse
  attach_work_order order_code work_order_code p actor =
      keyed request_hash (OrderResource.attachment order_code work_order_code) ActionName.attach p
        (attach order_code work_order_code actor)

  unfoldable pub release_production_order :
      String → ExecutionActionIn → String → ℕ → OrderAction OrderResponse
  release_production_order order_code p actor now =
      keyed request_hash (OrderResource.production_order order_code) ActionName.release p
        (release order_code actor now)
