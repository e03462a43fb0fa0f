-- ===== src/Execution/Tasks/Setup.antt =====
-- services/central-api/app/repositories/execution.py: the set-up of a task.
use mini_ogas.Prelude.{
  not, ℕ, Bool, true, false, ◌&&◌, none, some, [], ◌∷◌, ◌++◌, String, ◌==◌, any, change_all, count,
}
use mini_ogas.Execution.Model.{TaskStatus, Setup, SetupStatus, ActionName, ExecutionError}
use mini_ogas.Prelude.Actions.{pure, gets, ◌>>=◌, ◌>>◌, check, modify}
use mini_ogas.Execution.Access.{Action, require_task, require_transition, validate_predecessors}
use mini_ogas.Execution.Status.{change_to, change_task_status, write_audit, TaskView, format_task}
use mini_ogas.Execution.Tasks.Payloads.{ExecutionActionIn, SetupCompleteIn, is_dispatched, is_setup}

abbrev pub is_setup_of : ℕ → Setup → Bool
is_setup_of n s = s.task_id == n

-- The INSERT of `start_setup`: the table holds one setup at most for a task.
abbrev pub insert_setup : Setup → Action (Unit {0})
insert_setup s = do
  f ← gets (λ g. g)
  check (not (any (is_setup_of s.task_id) f.setups)) ExecutionError.constraint_violated
  modify (λ g. record g { setups = g.setups ++ s ∷ [] })

unfoldable pub start_setup : ℕ → ExecutionActionIn → String → ℕ → Action TaskView
start_setup n payload actor now = do
  task ← require_task n
  require_transition task is_dispatched
  validate_predecessors task
  insert_setup (record {
    task_id = n;
    status = SetupStatus.in_progress;
    parameters = "{}";
    evidence_reference = none;
    started_by = actor;
    started_at = now;
    completed_by = none;
    completed_at = none;
  })
  _ ←
      change_task_status task
        (change_to TaskStatus.setup ActionName.setup_start actor payload.idempotency_key
          payload.reason "")
        now
  response ← format_task n
  write_audit actor ActionName.setup_start n
  pure response

abbrev pub is_active_setup : ℕ → Setup → Bool
is_active_setup n s = s.task_id == n && elim s.status [ SetupStatus.in_progress ↦ true | _ ↦ false ]

abbrev pub completed_setup : SetupCompleteIn → String → ℕ → Setup → Setup
completed_setup payload actor now s = record s {
  status = SetupStatus.completed;
  parameters = payload.parameters;
  evidence_reference = some payload.evidence_reference;
  completed_by = some actor;
  completed_at = some now;
}

unfoldable pub complete_setup : ℕ → SetupCompleteIn → String → ℕ → Action TaskView
complete_setup n payload actor now = do
  task ← require_task n
  require_transition task is_setup
  f ← gets (λ g. g)
  check (count (is_active_setup n) f.setups == 1) ExecutionError.setup_record_not_active
  modify (λ g. record g {
    setups = change_all (is_active_setup n) (completed_setup payload actor now) g.setups;
  })
  _ ←
      change_task_status task
        (change_to TaskStatus.ready ActionName.setup_complete actor payload.idempotency_key ""
          payload.evidence_reference)
        now
  response ← format_task n
  write_audit actor ActionName.setup_complete n
  pure response
