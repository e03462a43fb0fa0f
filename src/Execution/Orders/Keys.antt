-- ===== src/Execution/Orders/Keys.antt =====
-- Requests on orders that come again under their key
-- (services/central-api/app/repositories/execution.py).
use mini_ogas.Prelude.{
  ℕ, ◌≡◌, true, List, [], ◌∷◌, ◌++◌, String, str_eq, eq_refl, arith, find, change_all, update_first,
  find-append_none, ok, ◌==◌, Option-cases, inl, inr,
}
use mini_ogas.Prelude.Actions.{check, gets, modify, bind-ok, bind-Reads, ◌>>=◌}
use mini_ogas.Execution.Model.{ActionName, WorkOrderExecution}
use mini_ogas.Execution.Status.{record_history, format_task}
use mini_ogas.Execution.Tasks.Payloads.{ExecutionActionIn}
use mini_ogas.Execution.Tasks.Completion.{is_execution}
use mini_ogas.Execution.Orders.{
  Operation, Routing, WorkOrder, Shop, OrderError, OrderAction, OrderResource, OrderResponse,
  on_tables, require_code, require_work_order, require_production_order, same_order_resource,
  is_order_key, order_key, keyed,
}
use mini_ogas.Execution.Orders.Production.{
  attach, release, attach_work_order, release_production_order,
}
use mini_ogas.Execution.Orders.Dispatch.{
  operations_of, has_operation, sorted_operations, begins, begun_order, next_execution_id,
  with_execution, is_execution_of, materialize, materialize_all, format_tasks, write_dispatch,
  dispatch, dispatch_work_order,
}
use mini_ogas.Execution.Orders.Dispatched.{dispatch_lem, dispatched_work}
use mini_ogas.Execution.Orders.Closing.{
  closed_execution, numbers_of, tasks_in_order, write_closing, close_work, close_order,
  close_work_order, close_production_order,
}

-- The requests that carry a key.
pub data OrderCall : Type 0 where
  attachment : String → String → OrderCall
  order_release : String → OrderCall
  work_dispatch : String → OrderCall
  work_closing : String → OrderCall
  order_closing : String → OrderCall

abbrev pub handle_order :
    (ExecutionActionIn → String)
    → OrderCall
    → ExecutionActionIn
    → String
    → ℕ
    → OrderAction OrderResponse
handle_order hash (OrderCall.attachment o w) p actor now = attach_work_order hash o w p actor
handle_order hash (OrderCall.order_release o) p actor now =
    release_production_order hash o p actor now
handle_order hash (OrderCall.work_dispatch w) p actor now = dispatch_work_order hash w p actor now
handle_order hash (OrderCall.work_closing w) p actor now = close_work_order hash w p actor now
handle_order hash (OrderCall.order_closing o) p actor now =
    close_production_order hash o p actor now

abbrev KeepsKeys : {A : Type 0} → OrderAction A → Type 0
KeepsKeys {A} body =
    (s : Shop) (a : A) (s' : Shop) → body s ≡ ok (a, s') → s'.order_keys ≡ s.order_keys

same_resource_self : (r : OrderResource) → same_order_resource r r ≡ true
same_resource_self (OrderResource.production_order a) = eq_refl a
same_resource_self (OrderResource.work_order a) = eq_refl a
same_resource_self (OrderResource.attachment a b) = ground (arith, eq_refl a, eq_refl b)

order_key_found :
    (resource : OrderResource) (action : ActionName) (key hash : String) (r : OrderResponse)
    → is_order_key resource action key (order_key resource action key hash r) ≡ true
order_key_found resource action key hash r =
    ground (arith, same_resource_self resource, eq_refl key)

keyed_again :
    (hash : ExecutionActionIn → String) (resource : OrderResource) (action : ActionName)
    (p : ExecutionActionIn) (body body' : OrderAction OrderResponse) (s : Shop) (r : OrderResponse)
    (s' : Shop)
    → KeepsKeys body
    → keyed hash resource action p body s ≡ ok (r, s')
    → keyed hash resource action p body' s' ≡ ok (r, s')
unfolding keyed
keyed_again hash resource action p body body' s r s' keeps h =
    elim (Option-cases (find (is_order_key resource action p.idempotency_key) s.order_keys)) [
      | inr (row, e) ↦ ground (arith, e)
      | inl e ↦
          let store : OrderResponse → OrderAction OrderResponse = λ response.
            (modify (λ t. record t {
              order_keys =
                  t.order_keys
                  ++ order_key resource action p.idempotency_key (hash p) response ∷ [];
            })
              >>= λ _. gets (λ t. response)) in
          let run : (body >>= store) s ≡ ok (r, s') = ground (arith, e) in
          let (a, t, done, kept) = bind-ok body store s (r, s') run in
          let keys = keeps s a t done in
          ground (
            arith,
            e,
            keys,
            eq_refl (hash p),
            order_key_found resource action p.idempotency_key (hash p) a,
            find-append_none (is_order_key resource action p.idempotency_key) s.order_keys
                (order_key resource action p.idempotency_key (hash p) a ∷ []),
          )
    ]

attach-keys : (o w actor : String) → KeepsKeys (attach o w actor)
unfolding attach require_production_order require_work_order
attach-keys o w actor s r s' h = ground arith

release-keys : (o actor : String) (now : ℕ) → KeepsKeys (release o actor now)
unfolding release require_production_order
release-keys o actor now s r s' h = ground arith

close_order-keys : (o actor : String) (now : ℕ) → KeepsKeys (close_order o actor now)
unfolding close_order require_production_order
close_order-keys o actor now s r s' h = ground arith

format_tasks-keys : (ns : List ℕ) → KeepsKeys (format_tasks ns)
unfolding format_tasks
format_tasks-keys [] s vs s' h = ground arith
format_tasks-keys (n ∷ ns) s vs s' h =
    let (v, t, one, h1) = bind-ok (on_tables (format_task n)) _ s (vs, s') h in
    let (us, u, more, h2) = bind-ok (format_tasks ns) _ t (vs, s') h1 in
    ground (arith, format_tasks-keys ns t us u more)

materialize-keys :
    (w : WorkOrder) (execution : ℕ) (p : ExecutionActionIn) (actor : String) (now : ℕ)
    (o : Operation)
    → KeepsKeys (materialize w execution p actor now o)
unfolding materialize require_code record_history
materialize-keys w execution p actor now o s n s' h = ground arith

materialize_all-keys :
    (w : WorkOrder) (execution : ℕ) (p : ExecutionActionIn) (actor : String) (now : ℕ)
    (os : List Operation)
    → KeepsKeys (materialize_all w execution p actor now os)
unfolding materialize_all
materialize_all-keys w execution p actor now [] s ns s' h = ground arith
materialize_all-keys w execution p actor now (o ∷ os) s ns s' h =
    let (n, t, one, h1) = bind-ok (materialize w execution p actor now o) _ s (ns, s') h in
    let (ms, u, more, h2) = bind-ok (materialize_all w execution p actor now os) _ t (ns, s') h1 in
    ground (
      arith,
      materialize-keys w execution p actor now o s n t one,
      materialize_all-keys w execution p actor now os t ms u more,
    )

write_dispatch-keys :
    (w : WorkOrder) (order execution : ℕ) (p : ExecutionActionIn) (actor : String) (now : ℕ)
    → KeepsKeys (write_dispatch w order execution p actor now)
unfolding write_dispatch
write_dispatch-keys w order execution p actor now s r s' h =
    let operations =
      operations_of (find (λ (x : Routing). x.id == w.routing_revision_id) s.routings) in
    let (_, _, h0) =
      bind-Reads (check (has_operation operations) OrderError.routing_operations_missing) _ s
        (r, s') (λ t _ u g. ground arith) h in
    let (ns, t, made, h1) =
      bind-ok (materialize_all w execution p actor now (sorted_operations operations)) _ s (r, s')
        h0 in
    let u : Shop = record t {
      facts = record t.facts { orders = change_all (begins order) begun_order t.facts.orders };
    } in
    let (vs, v, viewed, h2) = bind-ok (format_tasks ns) _ u (r, s') h1 in
    ground (
      arith,
      materialize_all-keys w execution p actor now (sorted_operations operations) s ns t made,
      format_tasks-keys ns u vs v viewed,
    )

dispatch-keys :
    (w : String) (p : ExecutionActionIn) (actor : String) (now : ℕ)
    → KeepsKeys (dispatch w p actor now)
unfolding require_work_order
dispatch-keys code p actor now s r s' h =
    let (w, there) = dispatched_work code p actor now s r s' h in
    let (order, written) = dispatch_lem code p actor now s w r s' there h in
    write_dispatch-keys w order (next_execution_id s.facts) p actor now
      (record s { facts = with_execution w order s.facts }) r s' written

write_closing-keys :
    (code actor : String) (now : ℕ) (e : WorkOrderExecution)
    → KeepsKeys (write_closing code actor now e)
unfolding write_closing
write_closing-keys code actor now e s r s' h =
    let t : Shop = record s {
      facts = record s.facts {
        executions =
            update_first (is_execution e.id) (closed_execution actor now) s.facts.executions;
      };
    } in
    let ns = numbers_of (tasks_in_order e.id t.facts.tasks) in
    let (vs, v, viewed, h2) = bind-ok (format_tasks ns) _ t (r, s') h in
    ground (arith, format_tasks-keys ns t vs v viewed)

close_work-keys : (w actor : String) (now : ℕ) → KeepsKeys (close_work w actor now)
unfolding close_work require_work_order
close_work-keys code actor now s r s' h =
    elim (Option-cases (find (λ (v : WorkOrder). str_eq v.work_order_code code) s.work_orders)) [
      | inl e ↦ absurd (ground (arith, e))
      | inr (w, there) ↦ elim (Option-cases (find (is_execution_of w.id) s.facts.executions)) [
        | inl e ↦ absurd (ground (arith, there, e))
        | inr (x, e) ↦
            let closing : write_closing code actor now x s ≡ ok (r, s') =
              ground (arith, there, e) in
            write_closing-keys code actor now x s r s' closing
      ]
    ]

-- A request on orders that was answered gets the same answer when it comes again under its key with the
-- same content, from any actor and at any time, and changes nothing.
pub handle_order-again :
    (hash : ExecutionActionIn → String) (call : OrderCall) (p : ExecutionActionIn)
    (actor actor' : String) (now now' : ℕ) (s : Shop) (r : OrderResponse) (s' : Shop)
    → handle_order hash call p actor now s ≡ ok (r, s')
    → handle_order hash call p actor' now' s' ≡ ok (r, s')
unfolding attach_work_order release_production_order dispatch_work_order close_work_order
    close_production_order
handle_order-again hash (OrderCall.attachment o w) p actor actor' now now' s r s' h =
    keyed_again hash (OrderResource.attachment o w) ActionName.attach p (attach o w actor)
      (attach o w actor') s r s' (attach-keys o w actor) h
handle_order-again hash (OrderCall.order_release o) p actor actor' now now' s r s' h =
    keyed_again hash (OrderResource.production_order o) ActionName.release p (release o actor now)
      (release o actor' now') s r s' (release-keys o actor now) h
handle_order-again hash (OrderCall.work_dispatch w) p actor actor' now now' s r s' h =
    keyed_again hash (OrderResource.work_order w) ActionName.dispatch p (dispatch w p actor now)
      (dispatch w p actor' now') s r s' (dispatch-keys w p actor now) h
handle_order-again hash (OrderCall.work_closing w) p actor actor' now now' s r s' h =
    keyed_again hash (OrderResource.work_order w) ActionName.close p (close_work w actor now)
      (close_work w actor' now') s r s' (close_work-keys w actor now) h
handle_order-again hash (OrderCall.order_closing o) p actor actor' now now' s r s' h =
    keyed_again hash (OrderResource.production_order o) ActionName.close p (close_order o actor now)
      (close_order o actor' now') s r s' (close_order-keys o actor now) h
