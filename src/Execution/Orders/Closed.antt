-- ===== src/Execution/Orders/Closed.antt =====
-- When a production order is closed (services/central-api/app/repositories/execution.py).
use mini_ogas.Prelude.{
  ℕ, ◌+◌, ◌≤◌, ◌≡◌, ◌↔◌, Bool, true, false, not, ◌&&◌, some, List, [], ◌∷◌, String, arith, find,
  any, count, ok, ◌==◌, if◌then◌else◌, inl, inr, Result-cases,
}
use mini_ogas.Execution.Model.{ProductionOrder, WorkOrderLink, WorkOrderExecution}
use mini_ogas.Execution.Tasks.Completion.{is_link_of}
use mini_ogas.Execution.Orders.{Shop, OrderResponse, is_order, require_production_order}
use mini_ogas.Execution.Orders.Dispatch.{is_execution_of}
use mini_ogas.Execution.Orders.Closing.{
  is_completed_order, is_closed_of, attached_count, closed_count, close_order,
}

-- A work order is dispatched once at most.
abbrev pub HasOneExecution : List WorkOrderExecution → Type 0
HasOneExecution executions = (w : ℕ) → count (is_execution_of w) executions ≤ 1

-- A link of the order whose work order is not closed.
abbrev pub is_unclosed_link : ℕ → List WorkOrderExecution → WorkOrderLink → Bool
is_unclosed_link order executions l =
    is_link_of order l && not (any (is_closed_of l.work_order_id) executions)

closed-count :
    (w : ℕ) (executions : List WorkOrderExecution)
    → count (is_closed_of w) executions ≤ count (is_execution_of w) executions
closed-count w [] = ground arith
closed-count w (e ∷ es) = ground (arith, closed-count w es)

any-closed :
    (w : ℕ) (executions : List WorkOrderExecution)
    → count (is_execution_of w) executions ≤ 1
    → count (is_closed_of w) executions ≡ (if any (is_closed_of w) executions then 1 else 0)
any-closed w [] h = ground arith
any-closed w (e ∷ es) h = ground (arith, any-closed w es, closed-count w es)

attached_lem :
    (order : ℕ) (executions : List WorkOrderExecution) (links : List WorkOrderLink)
    → HasOneExecution executions
    → attached_count order executions links
      ≡ closed_count order executions links + count (is_unclosed_link order executions) links
attached_lem order executions [] one = ground arith
attached_lem order executions (l ∷ ls) one = ground (
  arith,
  one l.work_order_id,
  any-closed l.work_order_id executions (one l.work_order_id),
  attached_lem order executions ls one,
)

attached-any :
    (order : ℕ) (executions : List WorkOrderExecution) (links : List WorkOrderLink)
    → (attached_count order executions links == 0) ≡ not (any (is_link_of order) links)
attached-any order executions [] = ground arith
attached-any order executions (l ∷ ls) = ground (arith, attached-any order executions ls)

count-any : {A : Type 0} (test : A → Bool) (xs : List A) → (count test xs == 0) ≡ not (any test xs)
count-any test [] = ground arith
count-any test (x ∷ xs) = ground (arith, count-any test xs)

counts_agree :
    (order : ℕ) (executions : List WorkOrderExecution) (links : List WorkOrderLink)
    → HasOneExecution executions
    → (not (attached_count order executions links == 0)
        && attached_count order executions links == closed_count order executions links)
      ≡ (any (is_link_of order) links && not (any (is_unclosed_link order executions) links))
counts_agree order executions links one = ground (
  arith,
  attached-any order executions links,
  attached_lem order executions links one,
  count-any (is_unclosed_link order executions) links,
)

-- Where a work order has one execution at most, a production order that is found is closed exactly when
-- it is completed, has a work order, and every work order of it has a closed execution.
pub close_order-Returns :
    (code actor : String) (now : ℕ) (s : Shop) (o : ProductionOrder)
    → find (is_order code) s.facts.orders ≡ some o
    → HasOneExecution s.facts.executions
    → ((r : OrderResponse) × (s' : Shop) × (close_order code actor now s ≡ ok (r, s'))) ↔ (
        (is_completed_order o.status ≡ true)
        × (any (is_link_of o.id) s.facts.links ≡ true)
        × (any (is_unclosed_link o.id s.facts.executions) s.facts.links ≡ false))
unfolding close_order require_production_order
close_order-Returns code actor now s o found one =
    let agree = counts_agree o.id s.facts.executions s.facts.links one in
    (
      (λ r. let (a, s', h) = r in ground (arith, agree)),
      (λ c.
          let (a, b, d) = c in
          elim (Result-cases (close_order code actor now s)) [
            | inl ((r, s'), e) ↦ (r, s', e)
            | inr (x, e) ↦ absurd (ground (arith, agree, e))
          ]),
    )
