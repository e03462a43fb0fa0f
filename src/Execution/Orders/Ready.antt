-- ===== src/Execution/Orders/Ready.antt =====
-- The invariant of the tables under new tasks (services/central-api/app/repositories/execution.py).
use mini_ogas.Prelude.{
  ℕ, ◌≤◌, ◌≡◌, ◌≢◌, refl, sym, subst, none, List, [], ◌∷◌, ◌++◌, String, arith, find, All,
  All-append, ok,
}
use mini_ogas.Execution.Model.{
  ProductionOrder, WorkOrderExecution, Task, TaskStatus, HistoryEntry, Facts,
}
use mini_ogas.Execution.Access.{is_task}
use mini_ogas.Execution.Status.{record_history, accounted}
use mini_ogas.Execution.Tasks.Payloads.{ExecutionActionIn}
use mini_ogas.Execution.Soundness.{
  IsSound, IsSoundTask, Distinct, other_task_sound, last_status-append,
}
use mini_ogas.Execution.Orders.{Operation, WorkOrder, Shop, require_code}
use mini_ogas.Execution.Orders.Production.{fresh_id}
use mini_ogas.Execution.Orders.Dispatch.{task_of, dispatch_entry, next_task_id, materialize}

-- Reports are of tasks that are there.
abbrev pub HasReportsOfTasks : Facts → Type 0
HasReportsOfTasks f = (n : ℕ) → find (is_task n) f.tasks ≡ none → accounted n f.reports ≡ 0

pub record IsReady (f : Facts) : Type 0 where
  pub sound : IsSound f
  pub reports_of_tasks : HasReportsOfTasks f

-- The tables with a new task.
abbrev pub Adds : Task → HistoryEntry → Facts → Facts → Type 0
Adds t e f f' =
    (f'.tasks ≡ f.tasks ++ t ∷ []) × (f'.history ≡ f.history ++ e ∷ []) × (f'.reports ≡ f.reports)

pub materialize_lem :
    (w : WorkOrder) (execution : ℕ) (p : ExecutionActionIn) (actor : String) (now : ℕ)
    (o : Operation) (s : Shop) (n : ℕ) (s' : Shop)
    → materialize w execution p actor now o s ≡ ok (n, s')
    → (n ≡ next_task_id s.facts)
      × Adds (task_of w execution o n) (dispatch_entry n p actor now) s.facts s'.facts
      × (s'.work_orders ≡ s.work_orders)
      × (s'.routings ≡ s.routings)
unfolding materialize require_code record_history
materialize_lem w execution p actor now o s n s' h = ground arith

fresh_apart :
    (n : ℕ) (ts : List Task) → fresh_id (λ (t : Task). t.id) ts ≤ n → All (λ t. t.id ≢ n) ts
fresh_apart n [] h = tt
fresh_apart n (t ∷ ts) h = ((λ e. absurd (ground arith)), fresh_apart n ts (ground arith))

fresh_none :
    (n : ℕ) (ts : List Task) → fresh_id (λ (t : Task). t.id) ts ≤ n → find (is_task n) ts ≡ none
fresh_none n [] h = refl
fresh_none n (t ∷ ts) h = ground (arith, fresh_none n ts)

Distinct-append :
    (ts : List Task) (t : Task) → Distinct ts → All (λ u. u.id ≢ t.id) ts → Distinct (ts ++ t ∷ [])
Distinct-append [] t d a = (tt, tt)
Distinct-append (u ∷ ts) t d a = (
  All-append (λ v. v.id ≢ u.id) ts (t ∷ []) d.0 ((λ e. a.0 (sym e)), tt),
  Distinct-append ts t d.1 a.1,
)

All-mapped :
    (P Q : Task → Type 0) (n : ℕ) (ts : List Task)
    → ((u : Task) → u.id ≢ n → P u → Q u)
    → All (λ u. u.id ≢ n) ts
    → All P ts
    → All Q ts
All-mapped P Q n [] keep other h = tt
All-mapped P Q n (u ∷ ts) keep other h = (keep u other.0 h.0, All-mapped P Q n ts keep other.1 h.1)

find-before :
    (n : ℕ) (ts : List Task) (t : Task)
    → find (is_task n) (ts ++ t ∷ []) ≡ none
    → find (is_task n) ts ≡ none
find-before n [] t h = refl
find-before n (u ∷ ts) t h = ground (arith, find-before n ts t)

new_task_sound :
    (t : Task) (e : HistoryEntry) (f : Facts)
    → t.status ≡ TaskStatus.dispatched
    → e.task_id ≡ t.id
    → e.to_status ≡ TaskStatus.dispatched
    → accounted t.id f.reports ≡ 0
    → IsSoundTask (f.history ++ e ∷ []) f.reports t
new_task_sound t e f status number to_status no_reports = record {
  logged = ground (arith, last_status-append t.id f.history e);
  within_plan = ground arith;
  conserved = λ d. absurd (ground arith);
  evidenced = λ d. absurd (ground arith);
}

pub Adds-IsReady :
    (t : Task) (e : HistoryEntry) (f f' : Facts)
    → t.id ≡ next_task_id f
    → t.status ≡ TaskStatus.dispatched
    → e.task_id ≡ t.id
    → e.to_status ≡ TaskStatus.dispatched
    → Adds t e f f'
    → IsReady f
    → IsReady f'
Adds-IsReady t e f f' fresh status number to_status (tasks, history, reports) ready =
    let bound : next_task_id f ≤ t.id = ground arith in
    let apart = fresh_apart t.id f.tasks bound in
    let apart' : All (λ u. u.id ≢ e.task_id) f.tasks =
      subst (λ n. All (λ u. u.id ≢ n) f.tasks) (sym number) apart in
    let free = ready.reports_of_tasks t.id (fresh_none t.id f.tasks bound) in
    let old =
      All-mapped (IsSoundTask f.history f.reports) (IsSoundTask (f.history ++ e ∷ []) f.reports)
        e.task_id f.tasks (λ u away h. other_task_sound u f.history f.reports e away h) apart'
        ready.sound.sound in
    record {
      sound = record {
        distinct = rw tasks (Distinct-append f.tasks t ready.sound.distinct apart);
        sound =
            rw (tasks, history, reports)
              (All-append (IsSoundTask (f.history ++ e ∷ []) f.reports) f.tasks (t ∷ []) old
                (new_task_sound t e f status number to_status free, tt));
      };
      reports_of_tasks =
          rw (tasks, reports) (λ n h. ready.reports_of_tasks n (find-before n f.tasks t h));
    }

pub with_orders-IsReady :
    (f : Facts) (orders : List ProductionOrder) → IsReady f → IsReady (record f { orders = orders })
with_orders-IsReady f orders ready = record {
  sound = record { distinct = ready.sound.distinct; sound = ready.sound.sound };
  reports_of_tasks = ready.reports_of_tasks;
}

pub with_executions-IsReady :
    (f : Facts) (executions : List WorkOrderExecution)
    → IsReady f
    → IsReady (record f { executions = executions })
with_executions-IsReady f executions ready = record {
  sound = record { distinct = ready.sound.distinct; sound = ready.sound.sound };
  reports_of_tasks = ready.reports_of_tasks;
}
