-- ===== src/Execution/Samples.antt =====
-- A small database for services/central-api/app/repositories/execution.py, and calls on it.
use mini_ogas.Prelude.{ℕ, none, some, List, [], ◌∷◌, String}
use mini_ogas.Execution.Model.{
  TaskStatus, Task, QuantityReport, HistoryEntry, ActionName, ExecutionStatus, WorkOrderExecution,
  Facts,
}
use mini_ogas.Execution.Tasks.Payloads.{ExecutionActionIn, CompleteTaskIn, QuantityReportIn}
use mini_ogas.Execution.Governed.{Request, Store}
use mini_ogas.Execution.Calls.{Call}

-- A digest, for the parameter of the model.
abbrev pub digest : Request → String
digest (Request.action_request p) = p.reason
digest (Request.setup_request p) = p.evidence_reference
digest (Request.complete_request p) = p.evidence_reference
digest (Request.downtime_start_request p) = p.evidence_reference
digest (Request.downtime_end_request p) = p.evidence_reference

abbrev pub running_task : Task
running_task = record {
  id = 1;
  execution_id = 4;
  work_order_id = 9;
  sequence = 10;
  operation_code = "cut";
  planned_quantity = 8;
  status = TaskStatus.running;
  hold_return_status = none;
  completion_evidence_reference = none;
  started_at = some 2;
  completed_at = none;
  closed_at = none;
}

abbrev pub started : HistoryEntry
started = record {
  task_id = 1;
  from_status = some TaskStatus.ready;
  to_status = TaskStatus.running;
  action = ActionName.start;
  reason = "";
  evidence_reference = "";
  actor = "ada";
  occurred_at = 2;
  idempotency_key = "start-1";
}

abbrev pub first_report : QuantityReport
first_report = record {
  id = 1;
  task_id = 1;
  report_id = "r-1";
  good_quantity = 4;
  scrap_quantity = 1;
  rework_quantity = 0;
  evidence_reference = "scan-1";
  occurred_at = 3;
  reported_by = "ada";
}

abbrev pub execution : WorkOrderExecution
execution = record {
  id = 4;
  production_order_id = 2;
  work_order_id = 9;
  status = ExecutionStatus.in_progress;
  completed_at = none;
  closed_by = none;
  closed_at = none;
}

abbrev pub facts : Facts
facts = record {
  tasks = running_task ∷ [];
  setups = [];
  holds = [];
  downtimes = [];
  reports = first_report ∷ [];
  history = started ∷ [];
  executions = execution ∷ [];
  orders = [];
  links = [];
  assignments = [];
  assets = [];
  maintenance_orders = [];
  tools = [];
  tool_assignments = [];
  audit = [];
}

abbrev pub store : Store
store = record { facts = facts; idempotency = [] }

abbrev pub hold_payload : ExecutionActionIn
hold_payload = record { idempotency_key = "hold-1"; reason = "tool wear" }

abbrev pub release_payload : ExecutionActionIn
release_payload = record { idempotency_key = "release-1"; reason = "tool changed" }

abbrev pub rest_report : QuantityReportIn
rest_report = record {
  report_id = "r-2";
  good_quantity = 3;
  scrap_quantity = 0;
  rework_quantity = 0;
  evidence_reference = "scan-2";
  occurred_at = 6;
}

abbrev pub complete_payload : CompleteTaskIn
complete_payload = record { idempotency_key = "complete-1"; evidence_reference = "photo-1" }

-- Held, released, the rest reported, completed.
abbrev pub shift : List (Call × String × ℕ)
shift =
    (Call.hold_task 1 hold_payload, "ada", 4)
    ∷ (Call.release_hold 1 release_payload, "bob", 5)
    ∷ (Call.report_quantity 1 rest_report, "ada", 6)
    ∷ (Call.complete_task 1 complete_payload, "ada", 7)
    ∷ []
