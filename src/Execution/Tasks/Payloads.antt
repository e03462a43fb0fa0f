-- ===== src/Execution/Tasks/Payloads.antt =====
-- The payloads of services/central-api/app/domain/execution.py, as they are once validated, and tests
-- on the status of a task.
use mini_ogas.Prelude.{ℕ, Bool, true, false, String}
use mini_ogas.Execution.Model.{TaskStatus}

-- `ExecutionActionIn` and `HoldActionIn`
pub record ExecutionActionIn : Type 0 where
  pub idempotency_key : String
  pub reason : String

pub record SetupCompleteIn : Type 0 where
  pub idempotency_key : String
  pub evidence_reference : String
  pub parameters : String

pub record CompleteTaskIn : Type 0 where
  pub idempotency_key : String
  pub evidence_reference : String

pub record QuantityReportIn : Type 0 where
  pub report_id : String
  pub good_quantity : ℕ
  pub scrap_quantity : ℕ
  pub rework_quantity : ℕ
  pub evidence_reference : String
  pub occurred_at : ℕ

pub record DowntimeStartIn : Type 0 where
  pub downtime_code : String
  pub idempotency_key : String
  pub reason : String
  pub evidence_reference : String

pub record DowntimeEndIn : Type 0 where
  pub idempotency_key : String
  pub evidence_reference : String

abbrev pub is_dispatched : TaskStatus → Bool
is_dispatched TaskStatus.dispatched = true
is_dispatched _ = false

abbrev pub is_setup : TaskStatus → Bool
is_setup TaskStatus.setup = true
is_setup _ = false

abbrev pub is_ready : TaskStatus → Bool
is_ready TaskStatus.ready = true
is_ready _ = false

abbrev pub is_running : TaskStatus → Bool
is_running TaskStatus.running = true
is_running _ = false

abbrev pub is_paused : TaskStatus → Bool
is_paused TaskStatus.paused = true
is_paused _ = false

abbrev pub is_held : TaskStatus → Bool
is_held TaskStatus.held = true
is_held _ = false

abbrev pub is_completed : TaskStatus → Bool
is_completed TaskStatus.completed = true
is_completed _ = false
