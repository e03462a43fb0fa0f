-- ===== src/Execution/Effects.antt =====
-- What the operations of services/central-api/app/repositories/execution.py do to the tables: one
-- task moves along an arc of its life and the move is written down, or a report joins the others.
pub mod Operations
pub mod Endings
use mini_ogas.Prelude.{
  ℕ, ◌+◌, ◌≤◌, ◌≡◌, ◌⊎◌, inl, inr, refl, Bool, true, false, not, ◌&&◌, Option, none, some, List, [],
  ◌∷◌, ◌++◌, String, arith, find, any, update_first, change_all, All, Option-cases, Bool-cases,
  Result, ok, err, is_empty, find_sound, find_last,
}
use mini_ogas.Execution.Model.{
  TaskStatus, Task, Hold, QuantityReport, HistoryEntry, ActionName, Facts, ExecutionError, Downtime,
}
use mini_ogas.Execution.Access.{
  Action, same_quantity, same_status, is_done, is_holdable, is_reporting, is_task, require_task,
  is_maintenance_blocked,
}
use mini_ogas.Execution.Status.{
  Change, changed_task, change_task_status, is_unchanged, entry_of, accounted, record_history,
  TaskView, format_task, total, change_to,
}
use mini_ogas.Execution.Tasks.Payloads.{
  ExecutionActionIn, SetupCompleteIn, CompleteTaskIn, QuantityReportIn, DowntimeStartIn,
  DowntimeEndIn,
}
use mini_ogas.Execution.Tasks.Setup.{start_setup, complete_setup}
use mini_ogas.Execution.Tasks.Running.{
  starts, started_execution, start_task, simple_task_transition, pause_task, resume_task,
  close_task,
}
use mini_ogas.Execution.Tasks.Holds.{hold_task, release_hold, is_open_hold_of}
use mini_ogas.Execution.Tasks.Reports.{report_quantity, accept_report, is_report}
use mini_ogas.Execution.Tasks.Completion.{
  is_remaining, finishes, finished_execution, complete_task, update_completion_aggregates,
  complete_execution,
}
use mini_ogas.Execution.Tasks.Downtimes.{start_downtime, end_downtime, is_downtime}

-- The arcs of a task's life, as the trigger `trg_operation_task_transition_guard` of
-- services/central-api/app/core/phase3_schema.py lists them.
abbrev pub task_follows : TaskStatus → TaskStatus → Bool
task_follows TaskStatus.dispatched TaskStatus.setup = true
task_follows TaskStatus.setup TaskStatus.ready = true
task_follows TaskStatus.ready TaskStatus.running = true
task_follows TaskStatus.running TaskStatus.paused = true
task_follows TaskStatus.running TaskStatus.completed = true
task_follows TaskStatus.paused TaskStatus.running = true
task_follows TaskStatus.completed TaskStatus.closed = true
task_follows TaskStatus.held s = is_holdable s
task_follows s TaskStatus.held = is_holdable s
task_follows _ _ = false

-- The facts of a move to `completed`: the reports add up, and there is evidence.
abbrev pub Completes : ℕ → Task → Change → Facts → Type 0
Completes n t c f =
    (same_quantity (accounted n f.reports) t.planned_quantity ≡ true)
    × (c.set_completed ≡ true)
    × (is_empty c.evidence_reference ≡ false)

-- Every hold remembers a status that a task can be held in.
abbrev pub HoldsFit : List Hold → Type 0
HoldsFit = All (λ h. is_holdable h.prior_status ≡ true)

-- The executions stay, or those of the task that are dispatched go into progress, or those of the
-- task that are in work are completed, and none of their tasks remains.
abbrev pub Progress : Task → ℕ → Facts → Facts → Type 0
Progress t now f f' =
    (f'.executions ≡ f.executions)
    ⊎ (f'.executions ≡ change_all (starts t.execution_id) started_execution f.executions)
    ⊎ ((any (is_remaining t.execution_id) f'.tasks ≡ false)
        × (f'.executions
            ≡ change_all (finishes t.execution_id) (finished_execution now) f.executions))

-- The task of number `n` moves along an arc, and the move is written down.
pub record Moves (n : ℕ) (t : Task) (c : Change) (now : ℕ) (f f' : Facts) : Type 0 where
  pub found : find (is_task n) f.tasks ≡ some t
  pub tasks_after : f'.tasks ≡ update_first (is_unchanged t) (changed_task c now) f.tasks
  pub history_after : f'.history ≡ f.history ++ entry_of t c now ∷ []
  pub reports_after : f'.reports ≡ f.reports
  pub holds_fit : HoldsFit f.holds → HoldsFit f'.holds
  pub progress : Progress t now f f'
  pub along : task_follows t.status c.to_status ≡ true
  pub completing : same_status c.to_status TaskStatus.completed ≡ true → Completes n t c f
  pub otherwise : same_status c.to_status TaskStatus.completed ≡ false → c.set_completed ≡ false

abbrev pub Moved : ℕ → ℕ → Facts → Facts → Type 0
Moved n now f f' = (t : Task) × (c : Change) × Moves n t c now f f'

-- A report that is taken joins the others: its task runs or is paused, and the plan has room for it.
pub record Reports (n : ℕ) (t : Task) (report : QuantityReport) (f f' : Facts) : Type 0 where
  pub found : find (is_task n) f.tasks ≡ some t
  pub reporting : is_reporting t.status ≡ true
  pub of_task : report.task_id ≡ n
  pub room : accounted n f.reports + total report ≤ t.planned_quantity + 1
  pub tasks_same : f'.tasks ≡ f.tasks
  pub history_same : f'.history ≡ f.history
  pub holds_same : f'.holds ≡ f.holds
  pub executions_same : f'.executions ≡ f.executions
  pub reports_after : f'.reports ≡ f.reports ++ report ∷ []
