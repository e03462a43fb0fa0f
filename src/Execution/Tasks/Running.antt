-- ===== src/Execution/Tasks/Running.antt =====
-- services/central-api/app/repositories/execution.py: a task is started, paused, resumed and closed.
use mini_ogas.Prelude.{ℕ, Bool, true, false, not, ◌&&◌, String, ◌==◌, any, change_all}
use mini_ogas.Execution.Model.{
  TaskStatus, Downtime, DowntimeStatus, ActionName, ExecutionStatus, WorkOrderExecution,
  ExecutionError,
}
use mini_ogas.Prelude.Actions.{pure, gets, ◌>>=◌, ◌>>◌, check, modify}
use mini_ogas.Execution.Access.{
  Action, require_task, require_transition, require_maintenance_readiness,
}
use mini_ogas.Execution.Status.{change_to, change_task_status, write_audit, TaskView, format_task}
use mini_ogas.Execution.Tasks.Payloads.{
  ExecutionActionIn, is_ready, is_running, is_paused, is_completed,
}

-- `status IN ('released','dispatched')`
abbrev pub is_startable : ExecutionStatus → Bool
is_startable ExecutionStatus.released = true
is_startable ExecutionStatus.dispatched = true
is_startable _ = false

abbrev pub starts : ℕ → WorkOrderExecution → Bool
starts n e = e.id == n && is_startable e.status

abbrev pub started_execution : WorkOrderExecution → WorkOrderExecution
started_execution e = record e { status = ExecutionStatus.in_progress }

unfoldable pub start_task : ℕ → ExecutionActionIn → String → ℕ → Action TaskView
start_task n payload actor now = do
  task ← require_task n
  require_transition task is_ready
  require_maintenance_readiness n now
  let change =
      change_to TaskStatus.running ActionName.start actor payload.idempotency_key payload.reason ""
  _ ← change_task_status task (record change { set_started = true }) now
  modify (λ f. record f {
    executions = change_all (starts task.execution_id) started_execution f.executions;
  })
  response ← format_task n
  write_audit actor ActionName.start n
  pure response

-- `_simple_task_transition`
unfoldable pub simple_task_transition :
    ℕ
    → ExecutionActionIn
    → String
    → ActionName
    → (TaskStatus → Bool)
    → TaskStatus
    → ℕ
    → Action TaskView
simple_task_transition n payload actor action allowed target now = do
  task ← require_task n
  require_transition task allowed
  _ ←
      change_task_status task
        (change_to target action actor payload.idempotency_key payload.reason "") now
  response ← format_task n
  write_audit actor action n
  pure response

unfoldable pub pause_task : ℕ → ExecutionActionIn → String → ℕ → Action TaskView
pause_task n payload actor now =
    simple_task_transition n payload actor ActionName.pause is_running TaskStatus.paused now

abbrev pub is_open_downtime : DowntimeStatus → Bool
is_open_downtime DowntimeStatus.open_downtime = true
is_open_downtime _ = false

abbrev pub is_open_downtime_of : ℕ → Downtime → Bool
is_open_downtime_of n d = d.task_id == n && is_open_downtime d.status

unfoldable pub resume_task : ℕ → ExecutionActionIn → String → ℕ → Action TaskView
resume_task n payload actor now = do
  task ← require_task n
  require_transition task is_paused
  f ← gets (λ g. g)
  check (not (any (is_open_downtime_of n) f.downtimes)) ExecutionError.open_downtime_blocks_resume
  require_maintenance_readiness n now
  _ ←
      change_task_status task
        (change_to TaskStatus.running ActionName.resume actor payload.idempotency_key payload.reason
          "")
        now
  response ← format_task n
  write_audit actor ActionName.resume n
  pure response

unfoldable pub close_task : ℕ → ExecutionActionIn → String → ℕ → Action TaskView
close_task n payload actor now = do
  task ← require_task n
  require_transition task is_completed
  let change =
      change_to TaskStatus.closed ActionName.close actor payload.idempotency_key payload.reason ""
  _ ← change_task_status task (record change { set_closed = true }) now
  response ← format_task n
  write_audit actor ActionName.close n
  pure response
