-- ===== src/Execution/Model.antt =====
-- The execution tables of services/central-api/app/core/phase3_schema.py, for the one tenant and
-- site that every query of the repository is scoped to, and of the maintenance tables the columns
-- that execution reads. Quantities are whole units of 10⁻⁹, the tolerance of the source; times are
-- numbers that only order. A column that no query of the repository reads back is left out.
use mini_ogas.Prelude.{ℕ, Bool, Option, List, String}

pub data TaskStatus : Type 0 where
  dispatched setup ready running paused held completed closed : TaskStatus

-- `operation_tasks`
pub record Task : Type 0 where
  pub id : ℕ
  pub execution_id : ℕ
  pub work_order_id : ℕ
  pub sequence : ℕ
  pub operation_code : String
  pub planned_quantity : ℕ
  pub status : TaskStatus
  pub hold_return_status : Option TaskStatus
  pub completion_evidence_reference : Option String
  pub started_at : Option ℕ
  pub completed_at : Option ℕ
  pub closed_at : Option ℕ

pub data SetupStatus : Type 0 where
  in_progress completed : SetupStatus

-- `operation_setups`
pub record Setup : Type 0 where
  pub task_id : ℕ
  pub status : SetupStatus
  pub parameters : String
  pub evidence_reference : Option String
  pub started_by : String
  pub started_at : ℕ
  pub completed_by : Option String
  pub completed_at : Option ℕ

pub data HoldStatus : Type 0 where
  open_hold released : HoldStatus

-- `operation_holds`
pub record Hold : Type 0 where
  pub id : ℕ
  pub task_id : ℕ
  pub prior_status : TaskStatus
  pub status : HoldStatus
  pub reason : String
  pub held_by : String
  pub held_at : ℕ
  pub released_by : Option String
  pub released_at : Option ℕ
  pub release_reason : Option String

pub data DowntimeStatus : Type 0 where
  open_downtime ended : DowntimeStatus

-- `operation_downtime`
pub record Downtime : Type 0 where
  pub id : ℕ
  pub task_id : ℕ
  pub downtime_code : String
  pub status : DowntimeStatus
  pub reason : String
  pub start_evidence_reference : String
  pub end_evidence_reference : Option String
  pub started_by : String
  pub started_at : ℕ
  pub ended_by : Option String
  pub ended_at : Option ℕ

-- `operation_quantity_reports`
pub record QuantityReport : Type 0 where
  pub id : ℕ
  pub task_id : ℕ
  pub report_id : String
  pub good_quantity : ℕ
  pub scrap_quantity : ℕ
  pub rework_quantity : ℕ
  pub evidence_reference : String
  pub occurred_at : ℕ
  pub reported_by : String

pub data ActionName : Type 0 where
  setup_start setup_complete start pause resume hold release_hold complete : ActionName
  downtime_start downtime_end end close dispatch release attach quantity_report : ActionName

-- `operation_status_history`
pub record HistoryEntry : Type 0 where
  pub task_id : ℕ
  pub from_status : Option TaskStatus
  pub to_status : TaskStatus
  pub action : ActionName
  pub reason : String
  pub evidence_reference : String
  pub actor : String
  pub occurred_at : ℕ
  pub idempotency_key : String

pub data ExecutionStatus : Type 0 where
  released dispatched in_progress completed closed : ExecutionStatus

-- `work_order_execution`
pub record WorkOrderExecution : Type 0 where
  pub id : ℕ
  pub production_order_id : ℕ
  pub work_order_id : ℕ
  pub status : ExecutionStatus
  pub completed_at : Option ℕ
  pub closed_by : Option String
  pub closed_at : Option ℕ

pub data OrderStatus : Type 0 where
  draft released in_progress completed closed cancelled : OrderStatus

-- `production_orders`
pub record ProductionOrder : Type 0 where
  pub id : ℕ
  pub production_order_code : String
  pub product_id : ℕ
  pub quantity : ℕ
  pub status : OrderStatus
  pub released_by : Option String
  pub released_at : Option ℕ
  pub completed_at : Option ℕ
  pub closed_by : Option String
  pub closed_at : Option ℕ

-- `production_order_work_orders`
pub record WorkOrderLink : Type 0 where
  pub production_order_id : ℕ
  pub work_order_id : ℕ

-- `operation_task_assignments`
pub record TaskAssignment : Type 0 where
  pub task_id : ℕ
  pub equipment_id : ℕ
  pub personnel_id : ℕ

pub record MaintenanceAsset : Type 0 where
  pub id : ℕ
  pub equipment_id : ℕ

-- Of `maintenance_orders.status` and `production_impact`, whether they block production.
pub data MaintenanceStatus : Type 0 where
  draft approved in_progress work_completed verified closed cancelled : MaintenanceStatus

pub data ProductionImpact : Type 0 where
  no_impact reduced_capacity equipment_unavailable : ProductionImpact

pub record MaintenanceOrder : Type 0 where
  pub order_code : String
  pub asset_id : ℕ
  pub status : MaintenanceStatus
  pub production_impact : ProductionImpact

pub data ToolStatus : Type 0 where
  active over_life calibration_invalid retired : ToolStatus

pub record Tool : Type 0 where
  pub id : ℕ
  pub tool_code : String
  pub status : ToolStatus
  pub calibration_required : Bool
  pub calibration_due_at : Option ℕ

pub record ToolAssignment : Type 0 where
  pub task_id : ℕ
  pub tool_id : ℕ

-- A row of `audit_logs`, and the envelope that joins the outbox with it.
pub record AuditEntry : Type 0 where
  pub actor : String
  pub action : ActionName
  pub subject : ℕ

-- The tables that the operations read and write.
pub record Facts : Type 0 where
  pub tasks : List Task
  pub setups : List Setup
  pub holds : List Hold
  pub downtimes : List Downtime
  pub reports : List QuantityReport
  pub history : List HistoryEntry
  pub executions : List WorkOrderExecution
  pub orders : List ProductionOrder
  pub links : List WorkOrderLink
  pub assignments : List TaskAssignment
  pub assets : List MaintenanceAsset
  pub maintenance_orders : List MaintenanceOrder
  pub tools : List Tool
  pub tool_assignments : List ToolAssignment
  pub audit : List AuditEntry

-- `ExecutionError`, by its code, and the faults of the database: a violated constraint that the
-- repository does not catch, and a row that is missing where one is read.
pub data ExecutionError : Type 0 where
  idempotency_key_reused : ExecutionError
  operation_task_not_found : ExecutionError
  downtime_not_found : ExecutionError
  invalid_operation_transition : TaskStatus → ExecutionError
  active_maintenance_blocks_task : ExecutionError
  tool_life_exceeded : ExecutionError
  tool_calibration_invalid : ExecutionError
  predecessor_operation_incomplete : ExecutionError
  setup_record_not_active : ExecutionError
  operation_transition_conflict : ExecutionError
  open_downtime_blocks_resume : ExecutionError
  open_hold_not_found : ExecutionError
  quantity_exceeds_plan : ExecutionError
  quantity_not_conserved : ExecutionError
  completion_evidence_required : ExecutionError
  downtime_already_open : ExecutionError
  downtime_not_open : ExecutionError
  downtime_close_conflict : ExecutionError
  constraint_violated : ExecutionError
  row_missing : ExecutionError
