-- ===== src/Execution/Calls.antt =====
-- The public methods on tasks of services/central-api/app/repositories/execution.py as calls on the
-- database, and sequences of them. A call that raises leaves the database as it was.
use mini_ogas.Prelude.{ℕ, Result, ok, err, List, [], ◌∷◌, String}
use mini_ogas.Execution.Model.{ActionName, ExecutionError}
use mini_ogas.Execution.Access.{Action}
use mini_ogas.Execution.Tasks.Payloads.{
  ExecutionActionIn, SetupCompleteIn, CompleteTaskIn, QuantityReportIn, DowntimeStartIn,
  DowntimeEndIn,
}
use mini_ogas.Execution.Tasks.Setup
use mini_ogas.Execution.Tasks.Running
use mini_ogas.Execution.Tasks.Holds
use mini_ogas.Execution.Tasks.Reports
use mini_ogas.Execution.Tasks.Completion
use mini_ogas.Execution.Tasks.Downtimes
use mini_ogas.Execution.Governed.{Resource, Response, Request, Store, governed}

abbrev pub answer : {A : Type 0} → (A → Response) → Action A → Action Response
answer view m f = elim (m f) [ ok (a, f') ↦ ok (view a, f') | err e ↦ err e ]

-- A report carries its own number in place of an idempotency key.
abbrev pub on_facts : Action Response → Store → Result ExecutionError (Response × Store)
on_facts m s = elim (m s.facts) [ ok (r, f) ↦ ok (r, record s { facts = f }) | err e ↦ err e ]

pub data Call : Type 0 where
  start_setup : ℕ → ExecutionActionIn → Call
  complete_setup : ℕ → SetupCompleteIn → Call
  start_task : ℕ → ExecutionActionIn → Call
  pause_task : ℕ → ExecutionActionIn → Call
  resume_task : ℕ → ExecutionActionIn → Call
  hold_task : ℕ → ExecutionActionIn → Call
  release_hold : ℕ → ExecutionActionIn → Call
  report_quantity : ℕ → QuantityReportIn → Call
  complete_task : ℕ → CompleteTaskIn → Call
  start_downtime : ℕ → DowntimeStartIn → Call
  end_downtime : ℕ → DowntimeEndIn → Call
  close_task : ℕ → ExecutionActionIn → Call

-- The operation of a call, on the tables alone.
abbrev pub body : Call → String → ℕ → Action Response
body (Call.start_setup n p) actor now = answer Response.task_view (Setup.start_setup n p actor now)
body (Call.complete_setup n p) actor now =
    answer Response.task_view (Setup.complete_setup n p actor now)
body (Call.start_task n p) actor now = answer Response.task_view (Running.start_task n p actor now)
body (Call.pause_task n p) actor now = answer Response.task_view (Running.pause_task n p actor now)
body (Call.resume_task n p) actor now =
    answer Response.task_view (Running.resume_task n p actor now)
body (Call.hold_task n p) actor now = answer Response.task_view (Holds.hold_task n p actor now)
body (Call.release_hold n p) actor now =
    answer Response.task_view (Holds.release_hold n p actor now)
body (Call.report_quantity n p) actor now =
    answer Response.report_view (Reports.report_quantity n p actor)
body (Call.complete_task n p) actor now =
    answer Response.task_view (Completion.complete_task n p actor now)
body (Call.start_downtime n p) actor now =
    answer Response.downtime_view (Downtimes.start_downtime n p actor now)
body (Call.end_downtime n p) actor now =
    answer Response.downtime_view (Downtimes.end_downtime n p actor now)
body (Call.close_task n p) actor now = answer Response.task_view (Running.close_task n p actor now)

module _ (request_hash : Request → String) where
  -- An operation on a task under its action and the key and hash of an `ExecutionActionIn`.
  abbrev by_key :
      ℕ
      → ActionName
      → ExecutionActionIn
      → Action Response
      → Store
      → Result ExecutionError (Response × Store)
  by_key n action p m =
      governed request_hash (Resource.operation_task n) action p.idempotency_key
        (Request.action_request p) m

  unfoldable pub handle : Call → String → ℕ → Store → Result ExecutionError (Response × Store)
  handle (Call.start_setup n p) actor now =
      by_key n ActionName.setup_start p (body (Call.start_setup n p) actor now)
  handle (Call.complete_setup n p) actor now =
      governed request_hash (Resource.operation_task n) ActionName.setup_complete p.idempotency_key
        (Request.setup_request p) (body (Call.complete_setup n p) actor now)
  handle (Call.start_task n p) actor now =
      by_key n ActionName.start p (body (Call.start_task n p) actor now)
  handle (Call.pause_task n p) actor now =
      by_key n ActionName.pause p (body (Call.pause_task n p) actor now)
  handle (Call.resume_task n p) actor now =
      by_key n ActionName.resume p (body (Call.resume_task n p) actor now)
  handle (Call.hold_task n p) actor now =
      by_key n ActionName.hold p (body (Call.hold_task n p) actor now)
  handle (Call.release_hold n p) actor now =
      by_key n ActionName.release_hold p (body (Call.release_hold n p) actor now)
  handle (Call.report_quantity n p) actor now = on_facts (body (Call.report_quantity n p) actor now)
  handle (Call.complete_task n p) actor now =
      governed request_hash (Resource.operation_task n) ActionName.complete p.idempotency_key
        (Request.complete_request p) (body (Call.complete_task n p) actor now)
  handle (Call.start_downtime n p) actor now =
      governed request_hash (Resource.operation_task n) ActionName.downtime_start p.idempotency_key
        (Request.downtime_start_request p) (body (Call.start_downtime n p) actor now)
  handle (Call.end_downtime n p) actor now =
      governed request_hash (Resource.downtime n) ActionName.end p.idempotency_key
        (Request.downtime_end_request p) (body (Call.end_downtime n p) actor now)
  handle (Call.close_task n p) actor now =
      by_key n ActionName.close p (body (Call.close_task n p) actor now)

  -- The database after a call that may raise.
  abbrev pub after_call : Store → Result ExecutionError (Response × Store) → Store
  after_call s (ok (r, s')) = s'
  after_call s (err e) = s

  -- Calls one after another, each with its actor and its time.
  unfoldable pub run : List (Call × String × ℕ) → Store → Store
  run [] s = s
  run ((call, actor, now) ∷ calls) s = run calls (after_call s (handle call actor now s))
