-- ===== src/Execution/Status.antt =====
-- The change of a task's status, its history, the audit entry and the answer, which the operations
-- of services/central-api/app/repositories/execution.py share.
use mini_ogas.Prelude.{
  not, ℕ, ◌+◌, Bool, true, false, ◌&&◌, ◌||◌, Option, none, some, List, [], ◌∷◌, ◌++◌, String,
  str_eq, ◌==◌, if◌then◌else◌, any, update_first,
}
use mini_ogas.Execution.Model.{
  TaskStatus, Task, QuantityReport, ActionName, HistoryEntry, Facts, ExecutionError,
}
use mini_ogas.Prelude.Actions.{gets, ◌>>=◌, ◌>>◌, check, modify}
use mini_ogas.Execution.Access.{
  Action, same_status, require_task, is_maintenance_blocked, has_tool, is_over_life,
  is_uncalibrated,
}

abbrev pub is_entry_of : ℕ → String → HistoryEntry → Bool
is_entry_of task key e = e.task_id == task && str_eq e.idempotency_key key

-- `_record_history`; the table holds one entry at most for a task and an idempotency key.
unfoldable pub record_history : HistoryEntry → Action (Unit {0})
record_history e = do
  f ← gets (λ g. g)
  check (not (any (is_entry_of e.task_id e.idempotency_key) f.history))
      ExecutionError.constraint_violated
  modify (λ g. record g { history = g.history ++ e ∷ [] })

-- The keyword arguments of `_change_task_status`.
pub record Change : Type 0 where
  pub to_status : TaskStatus
  pub action : ActionName
  pub actor : String
  pub idempotency_key : String
  pub reason : String
  pub evidence_reference : String
  pub set_started : Bool
  pub set_completed : Bool
  pub set_closed : Bool
  pub hold_return_status : Option TaskStatus
  pub clear_hold_return : Bool

-- The change with every keyword at its default.
abbrev pub change_to : TaskStatus → ActionName → String → String → String → String → Change
change_to to_status action actor key reason evidence = record {
  to_status = to_status;
  action = action;
  actor = actor;
  idempotency_key = key;
  reason = reason;
  evidence_reference = evidence;
  set_started = false;
  set_completed = false;
  set_closed = false;
  hold_return_status = none;
  clear_hold_return = false;
}

-- `COALESCE(started_at, now)`
abbrev pub coalesce : Option ℕ → ℕ → Option ℕ
coalesce none now = some now
coalesce (some t) now = some t

-- The column is set to NULL, or to the status that is given, or left.
abbrev pub hold_return_after : Bool → Option TaskStatus → Option TaskStatus → Option TaskStatus
hold_return_after true given old = none
hold_return_after false none old = old
hold_return_after false (some s) old = some s

-- The row after the UPDATE of `_change_task_status`.
abbrev pub changed_task : Change → ℕ → Task → Task
changed_task c now t = record t {
  status = c.to_status;
  hold_return_status =
      hold_return_after c.clear_hold_return c.hold_return_status t.hold_return_status;
  completion_evidence_reference =
      if c.set_completed then some c.evidence_reference else t.completion_evidence_reference;
  started_at = if c.set_started then coalesce t.started_at now else t.started_at;
  completed_at = if c.set_completed then some now else t.completed_at;
  closed_at = if c.set_closed then some now else t.closed_at;
}

-- `WHERE id=? AND status=?`
abbrev pub is_unchanged : Task → Task → Bool
is_unchanged t u = u.id == t.id && same_status u.status t.status

abbrev pub entry_of : Task → Change → ℕ → HistoryEntry
entry_of t c now = record {
  task_id = t.id;
  from_status = some t.status;
  to_status = c.to_status;
  action = c.action;
  reason = c.reason;
  evidence_reference = c.evidence_reference;
  actor = c.actor;
  occurred_at = now;
  idempotency_key = c.idempotency_key;
}

abbrev pub runs : TaskStatus → Bool
runs TaskStatus.running = true
runs _ = false

-- The trigger `trg_operation_task_maintenance_guard`, before an update of the status.
unfoldable pub passes_maintenance_guard : Task → TaskStatus → ℕ → Facts → Bool
passes_maintenance_guard t to_status now f =
    not (runs to_status && not (runs t.status))
    || (not (is_maintenance_blocked f t.id)
        && not (has_tool f t.id is_over_life)
        && not (has_tool f t.id (is_uncalibrated now)))

-- `_change_task_status`
unfoldable pub change_task_status : Task → Change → ℕ → Action Task
unfolding require_task record_history
change_task_status t c now = do
  f ← gets (λ g. g)
  check (any (is_unchanged t) f.tasks) ExecutionError.operation_transition_conflict
  check (passes_maintenance_guard t c.to_status now f) ExecutionError.constraint_violated
  modify (λ g. record g { tasks = update_first (is_unchanged t) (changed_task c now) g.tasks })
  record_history (entry_of t c now)
  require_task t.id

abbrev pub total : QuantityReport → ℕ
total r = r.good_quantity + r.scrap_quantity + r.rework_quantity

-- `SUM(good_quantity + scrap_quantity + rework_quantity)` over the reports of a task.
abbrev pub accounted : ℕ → List QuantityReport → ℕ
accounted task [] = 0
accounted task (r ∷ rs) = (if r.task_id == task then total r else 0) + accounted task rs

-- `_audit`; what it writes to the outbox goes with the entry.
abbrev pub write_audit : String → ActionName → ℕ → Action (Unit {0})
write_audit actor action subject = modify (λ f. record f {
  audit = f.audit ++ record { actor = actor; action = action; subject = subject } ∷ [];
})

-- The row and the sums of its reports, as `_format_task` answers them.
pub record TaskView : Type 0 where
  pub task : Task
  pub good_quantity : ℕ
  pub scrap_quantity : ℕ
  pub rework_quantity : ℕ
  pub accounted_quantity : ℕ

abbrev pub sum_of : (QuantityReport → ℕ) → ℕ → List QuantityReport → ℕ
sum_of column task [] = 0
sum_of column task (r ∷ rs) = (if r.task_id == task then column r else 0) + sum_of column task rs

abbrev pub view_of : Task → List QuantityReport → TaskView
view_of t rs =
    let good = sum_of (λ r. r.good_quantity) t.id rs in
    let scrap = sum_of (λ r. r.scrap_quantity) t.id rs in
    let rework = sum_of (λ r. r.rework_quantity) t.id rs in
    record {
      task = t;
      good_quantity = good;
      scrap_quantity = scrap;
      rework_quantity = rework;
      accounted_quantity = good + scrap + rework;
    }

-- `_format_task`
unfoldable pub format_task : ℕ → Action TaskView
unfolding require_task
format_task n = do t ← require_task n; gets (λ f. view_of t f.reports)
