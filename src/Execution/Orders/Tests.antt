-- ===== src/Execution/Orders/Tests.antt =====
-- Runs of the orders of services/central-api/app/repositories/execution.py, and the theorems at them.
use mini_ogas.Prelude.{ℕ, ◌≡◌, ◌↔◌, refl, true, false, List, [], ◌∷◌, arith, any, ok}
use mini_ogas.Prelude.Actions.{is_ok, state_of, ran}
use mini_ogas.Execution.Model.{Task}
use mini_ogas.Execution.Access.{require_task}
use mini_ogas.Execution.Status.{record_history, format_task}
use mini_ogas.Execution.Tasks.Completion.{is_link_of}
use mini_ogas.Execution.Orders.{Shop, OrderResponse, require_code, require_work_order, keyed}
use mini_ogas.Execution.Orders.Dispatch.{
  materialize, materialize_all, format_tasks, write_dispatch, dispatch, dispatch_work_order,
}
use mini_ogas.Execution.Orders.Closing.{close_order, is_completed_order}
use mini_ogas.Execution.Orders.Closed.{HasOneExecution, is_unclosed_link, close_order-Returns}
use mini_ogas.Execution.Orders.Keys.{OrderCall, handle_order, handle_order-again}
use mini_ogas.Execution.Orders.Samples.{digest, payload, shop, dispatched, done_order, done_shop}

abbrev sequences : List Task → List ℕ
sequences [] = []
sequences (t ∷ ts) = t.sequence ∷ sequences ts

dispatched-sequences : sequences dispatched.facts.tasks ≡ 10 ∷ 20 ∷ []
unfolding dispatched dispatch write_dispatch materialize_all materialize require_work_order
    require_code record_history format_tasks format_task require_task
dispatched-sequences = refl

one_execution : HasOneExecution done_shop.facts.executions
one_execution w = ground arith

close_order-Returns_example :
    ((r : OrderResponse) × (s' : Shop) × (close_order "p-1" "ada" 10 done_shop ≡ ok (r, s'))) ↔ (
      (is_completed_order done_order.status ≡ true)
      × (any (is_link_of 2) done_shop.facts.links ≡ true)
      × (any (is_unclosed_link 2 done_shop.facts.executions) done_shop.facts.links ≡ false))
close_order-Returns_example =
    close_order-Returns "p-1" "ada" 10 done_shop done_order refl one_execution

keyed-dispatched :
    is_ok (handle_order digest (OrderCall.work_dispatch "w-1") payload "ada" 4 shop) ≡ true
unfolding dispatch_work_order keyed dispatch write_dispatch materialize_all materialize
    require_work_order require_code record_history format_tasks format_task require_task
keyed-dispatched = refl

keyed-answer :
    (r : OrderResponse) × (handle_order digest (OrderCall.work_dispatch "w-1") payload "ada" 4 shop
      ≡ ok (
        r,
        state_of (handle_order digest (OrderCall.work_dispatch "w-1") payload "ada" 4 shop) shop,
      ))
keyed-answer =
    ran (handle_order digest (OrderCall.work_dispatch "w-1") payload "ada" 4 shop) shop
      keyed-dispatched

handle_order-again_example :
    handle_order digest
      (OrderCall.work_dispatch "w-1")
      payload
      "bob"
      5
      (state_of (handle_order digest (OrderCall.work_dispatch "w-1") payload "ada" 4 shop) shop)
    ≡ ok (
      keyed-answer.0,
      state_of (handle_order digest (OrderCall.work_dispatch "w-1") payload "ada" 4 shop) shop,
    )
handle_order-again_example =
    handle_order-again digest (OrderCall.work_dispatch "w-1") payload "ada" "bob" 4 5 shop
      keyed-answer.0
      (state_of (handle_order digest (OrderCall.work_dispatch "w-1") payload "ada" 4 shop) shop)
      keyed-answer.1
