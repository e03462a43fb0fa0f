-- ===== src/Execution/Tests.antt =====
-- Runs of services/central-api/app/repositories/execution.py on a small database, and its theorems
-- there.
use mini_ogas.Prelude.{◌↔◌, any, false, ◌≡◌, refl, Bool, true, some, List, [], ◌∷◌, arith, ok}
use mini_ogas.Execution.Model.{TaskStatus, Task, HistoryEntry, ActionName, Facts}
use mini_ogas.Execution.Access.{is_maintenance_blocked, require_task, is_done}
use mini_ogas.Execution.Status.{
  passes_maintenance_guard, TaskView, change_task_status, record_history, format_task, view_of,
}
use mini_ogas.Execution.Tasks.Payloads.{ExecutionActionIn}
use mini_ogas.Execution.Tasks.Holds.{hold_task, release_hold, hold_of, next_hold_id}
use mini_ogas.Execution.Tasks.Reports.{report_quantity, accept_report}
use mini_ogas.Execution.Tasks.Completion.{
  complete_task, update_completion_aggregates, complete_execution,
}
use mini_ogas.Execution.Effects.{HoldsFit}
use mini_ogas.Execution.Soundness.{IsSound}
use mini_ogas.Execution.Governed.{Resource, Response, Store, governed, row_of}
use mini_ogas.Execution.Calls.{Call, handle, run}
use mini_ogas.Execution.Keys.{handle_again}
use mini_ogas.Execution.Holds.{release_hold-hold_task}
use mini_ogas.Execution.Runs.Sound.{run-IsSound}
use mini_ogas.Execution.Tasks.Running.{start_task, resume_task, is_open_downtime_of}
use mini_ogas.Execution.Readiness.{
  IsSafe, IsFresh, Returns, start_task-Returns, resume_task-Returns,
}
use mini_ogas.Execution.Runs.Settled.{Settled, run-Settled}
use mini_ogas.Execution.Runs.History.{Extends, run-Extends}
use mini_ogas.Execution.Samples.{
  digest, running_task, started, first_report, facts, store, hold_payload, release_payload, shift,
}

facts-IsSound : IsSound facts
facts-IsSound = record {
  distinct = (tt, tt);
  sound = (
    record {
      logged = refl;
      within_plan = ground arith;
      conserved = λ e. absurd (cc);
      evidenced = λ e. absurd (cc);
    },
    tt,
  );
}

abbrev statuses : List Task → List Bool
statuses [] = []
statuses (t ∷ ts) = is_done t.status ∷ statuses ts

shift-completes : statuses (run digest shift store).facts.tasks ≡ true ∷ []
unfolding run handle governed hold_task release_hold report_quantity accept_report complete_task
    update_completion_aggregates complete_execution change_task_status passes_maintenance_guard
    is_maintenance_blocked require_task record_history format_task
shift-completes = refl

run-IsSound_example :
    HoldsFit (run digest shift store).facts.holds × IsSound (run digest shift store).facts
run-IsSound_example = run-IsSound digest shift store tt facts-IsSound

run-Extends_example : Extends facts.history (run digest shift store).facts.history
run-Extends_example = run-Extends digest shift store tt facts-IsSound

run-Settled_example :
    Settled (run digest shift store).facts.tasks (run digest shift store).facts.executions
run-Settled_example = run-Settled digest shift store tt (λ e. absurd (cc), tt)

abbrev held_task : Task
held_task = record running_task {
  status = TaskStatus.held;
  hold_return_status = some TaskStatus.running;
}

abbrev held_view : TaskView
held_view = view_of held_task (first_report ∷ [])

abbrev held_entry : HistoryEntry
held_entry = record {
  task_id = 1;
  from_status = some TaskStatus.running;
  to_status = TaskStatus.held;
  action = ActionName.hold;
  reason = "tool wear";
  evidence_reference = "";
  actor = "ada";
  occurred_at = 4;
  idempotency_key = "hold-1";
}

abbrev held_facts : Facts
held_facts = record facts {
  tasks = held_task ∷ [];
  holds = hold_of 1 1 TaskStatus.running "tool wear" "ada" 4 ∷ [];
  history = started ∷ held_entry ∷ [];
  audit = record { actor = "ada"; action = ActionName.hold; subject = 1 } ∷ [];
}

hold_task-held : hold_task 1 hold_payload "ada" 4 facts ≡ ok (held_view, held_facts)
unfolding hold_task change_task_status passes_maintenance_guard is_maintenance_blocked require_task
    record_history format_task next_hold_id
hold_task-held = refl

held_task-passes : passes_maintenance_guard held_task TaskStatus.running 5 held_facts ≡ true
unfolding passes_maintenance_guard is_maintenance_blocked
held_task-passes = refl

release_hold-hold_task_example :
    (v : TaskView) × (f : Facts) × (release_hold 1 release_payload "bob" 5 held_facts ≡ ok (v, f))
    × (v.task.status ≡ TaskStatus.running)
release_hold-hold_task_example =
    release_hold-hold_task 1 hold_payload release_payload "ada" "bob" 4 5 facts held_facts held_view
      running_task refl hold_task-held refl held_task-passes

abbrev held_store : Store
held_store = record {
  facts = held_facts;
  idempotency =
      row_of (Resource.operation_task 1) ActionName.hold "hold-1" "tool wear"
        (Response.task_view held_view)
      ∷ [];
}

handle-held :
    handle digest (Call.hold_task 1 hold_payload) "ada" 4 store
    ≡ ok (Response.task_view held_view, held_store)
unfolding handle governed hold_task change_task_status passes_maintenance_guard
    is_maintenance_blocked require_task record_history format_task next_hold_id
handle-held = refl

handle_again_example :
    handle digest (Call.hold_task 1 hold_payload) "bob" 9 held_store
    ≡ ok (Response.task_view held_view, held_store)
handle_again_example =
    handle_again digest (Call.hold_task 1 hold_payload) "ada" "bob" 4 9 store held_store
      (Response.task_view held_view) handle-held

abbrev plain_payload : ExecutionActionIn
plain_payload = record { idempotency_key = "go-1"; reason = "" }

abbrev ready_facts : Facts
ready_facts = record facts {
  tasks = record running_task { status = TaskStatus.ready } ∷ [];
  history = [];
}

start_task-Returns_example : Returns (start_task 1 plain_payload "ada" 3) ready_facts ↔ (
    (TaskStatus.ready ≡ TaskStatus.ready) × IsSafe 1 3 ready_facts × IsFresh 1 "go-1" ready_facts)
start_task-Returns_example =
    start_task-Returns 1 plain_payload "ada" 3 ready_facts
      (record running_task { status = TaskStatus.ready }) refl

abbrev paused_facts : Facts
paused_facts = record facts { tasks = record running_task { status = TaskStatus.paused } ∷ [] }

resume_task-Returns_example : Returns (resume_task 1 plain_payload "ada" 3) paused_facts ↔ (
    (TaskStatus.paused ≡ TaskStatus.paused)
    × (any (is_open_downtime_of 1) paused_facts.downtimes ≡ false)
    × IsSafe 1 3 paused_facts
    × IsFresh 1 "go-1" paused_facts)
resume_task-Returns_example =
    resume_task-Returns 1 plain_payload "ada" 3 paused_facts
      (record running_task { status = TaskStatus.paused }) refl
