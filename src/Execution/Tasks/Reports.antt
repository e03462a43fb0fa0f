-- ===== src/Execution/Tasks/Reports.antt =====
-- services/central-api/app/repositories/execution.py: quantity reports.
use mini_ogas.Prelude.{
  ℕ, ◌+◌, max, Bool, not, ◌&&◌, none, some, List, [], ◌∷◌, ◌++◌, String, str_eq, ltb, ◌==◌, find,
}
use mini_ogas.Execution.Model.{Task, QuantityReport, ActionName, ExecutionError}
use mini_ogas.Prelude.Actions.{pure, gets, ◌>>=◌, ◌>>◌, check, modify}
use mini_ogas.Execution.Access.{
  Action, same_quantity, is_reporting, require_task, require_transition,
}
use mini_ogas.Execution.Status.{accounted, write_audit}
use mini_ogas.Execution.Tasks.Payloads.{QuantityReportIn}

abbrev pub is_report : String → QuantityReport → Bool
is_report key r = str_eq r.report_id key

-- The report under the key is the one that is sent again.
abbrev pub is_same_report : ℕ → QuantityReportIn → QuantityReport → Bool
is_same_report n payload r =
    r.task_id == n
    && same_quantity r.good_quantity payload.good_quantity
    && same_quantity r.scrap_quantity payload.scrap_quantity
    && same_quantity r.rework_quantity payload.rework_quantity
    && str_eq r.evidence_reference payload.evidence_reference
    && r.occurred_at == payload.occurred_at

pub next_report_id : List QuantityReport → ℕ
next_report_id [] = 1
next_report_id (r ∷ rs) = max (r.id + 1) (next_report_id rs)

abbrev pub report_of : ℕ → ℕ → QuantityReportIn → String → QuantityReport
report_of identifier n payload actor = record {
  id = identifier;
  task_id = n;
  report_id = payload.report_id;
  good_quantity = payload.good_quantity;
  scrap_quantity = payload.scrap_quantity;
  rework_quantity = payload.rework_quantity;
  evidence_reference = payload.evidence_reference;
  occurred_at = payload.occurred_at;
  reported_by = actor;
}

abbrev pub reported : QuantityReportIn → ℕ
reported payload = payload.good_quantity + payload.scrap_quantity + payload.rework_quantity

-- The part of `report_quantity` after the report's number was not found.
unfoldable pub accept_report : Task → QuantityReportIn → String → Action QuantityReport
accept_report task payload actor = do
  require_transition task is_reporting
  f ← gets (λ g. g)
  check (not (ltb (task.planned_quantity + 1) (accounted task.id f.reports + reported payload)))
      ExecutionError.quantity_exceeds_plan
  let report = report_of (next_report_id f.reports) task.id payload actor
  modify (λ g. record g { reports = g.reports ++ report ∷ [] })
  write_audit actor ActionName.quantity_report task.id
  pure report

unfoldable pub report_quantity : ℕ → QuantityReportIn → String → Action QuantityReport
report_quantity n payload actor = do
  task ← require_task n
  f ← gets (λ g. g)
  elim (find (is_report payload.report_id) f.reports) [
    | some existing ↦ do
      check (is_same_report n payload existing) ExecutionError.idempotency_key_reused
      pure existing
    | none ↦ accept_report task payload actor
  ]
