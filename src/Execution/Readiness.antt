-- ===== src/Execution/Readiness.antt =====
-- When a task may run (services/central-api/app/repositories/execution.py).
use mini_ogas.Prelude.{
  ℕ, ◌≡◌, ◌↔◌, true, false, some, String, arith, find, find_sound, any, inl, inr, Result-cases, ok,
}
use mini_ogas.Execution.Model.{Task, TaskStatus, Facts, ActionName}
use mini_ogas.Execution.Access.{
  Action, is_task, require_task, is_maintenance_blocked, has_tool, is_over_life, is_uncalibrated,
}
use mini_ogas.Execution.Status.{
  TaskView, change_to, change_task_status, record_history, format_task, is_entry_of, changed_task,
  passes_maintenance_guard,
}
use mini_ogas.Execution.Lookups.{find-update_first, found-is_unchanged}
use mini_ogas.Execution.Tasks.Payloads.{ExecutionActionIn}
use mini_ogas.Execution.Tasks.Running.{start_task, resume_task, is_open_downtime_of}

-- No maintenance holds the equipment of the task, and its tools are within life and calibration.
abbrev pub IsSafe : ℕ → ℕ → Facts → Type 0
IsSafe n now f =
    (is_maintenance_blocked f n ≡ false)
    × (has_tool f n is_over_life ≡ false)
    × (has_tool f n (is_uncalibrated now) ≡ false)

-- The history has no entry of the task under this key.
abbrev pub IsFresh : ℕ → String → Facts → Type 0
IsFresh n key f = any (is_entry_of n key) f.history ≡ false

abbrev pub Returns : Action TaskView → Facts → Type 0
Returns m f = (v : TaskView) × (f' : Facts) × (m f ≡ ok (v, f'))

module _ (n : ℕ) (payload : ExecutionActionIn) (actor : String) (now : ℕ) (f : Facts) (t : Task)
    (e : find (is_task n) f.tasks ≡ some t) where
  start_task_tested :
      Returns (start_task n payload actor now) f
      → (t.status ≡ TaskStatus.ready) × IsSafe n now f × IsFresh n payload.idempotency_key f
  unfolding start_task change_task_status require_task record_history format_task
  start_task_tested (v, f', h) = ground (arith, e, find_sound (is_task n) f.tasks t e)

  start_task_taken :
      (t.status ≡ TaskStatus.ready) × IsSafe n now f × IsFresh n payload.idempotency_key f
      → Returns (start_task n payload actor now) f
  unfolding start_task change_task_status require_task record_history format_task
      passes_maintenance_guard
  start_task_taken (ready, safe, fresh) =
      let change =
        record (change_to TaskStatus.running ActionName.start actor payload.idempotency_key
          payload.reason "") { set_started = true } in
      let number : t.id ≡ n = ground (arith, find_sound (is_task n) f.tasks t e) in
      let found = find-update_first n t (changed_task change now) f.tasks number e in
      let unchanged = found-is_unchanged n t f.tasks e in
      elim (Result-cases (start_task n payload actor now f)) [
        | inl ((v, f'), h) ↦ (v, f', h)
        | inr (refusal, h) ↦ absurd (ground (arith, h, e, number, found, unchanged))
      ]

  resume_task_tested :
      Returns (resume_task n payload actor now) f
      → (t.status ≡ TaskStatus.paused)
        × (any (is_open_downtime_of n) f.downtimes ≡ false)
        × IsSafe n now f
        × IsFresh n payload.idempotency_key f
  unfolding resume_task change_task_status require_task record_history format_task
  resume_task_tested (v, f', h) = ground (arith, e, find_sound (is_task n) f.tasks t e)

  resume_task_taken :
      (t.status ≡ TaskStatus.paused)
        × (any (is_open_downtime_of n) f.downtimes ≡ false)
        × IsSafe n now f
        × IsFresh n payload.idempotency_key f
      → Returns (resume_task n payload actor now) f
  unfolding resume_task change_task_status require_task record_history format_task
      passes_maintenance_guard
  resume_task_taken (paused, no_downtime, safe, fresh) =
      let change =
        change_to TaskStatus.running ActionName.resume actor payload.idempotency_key payload.reason
          "" in
      let number : t.id ≡ n = ground (arith, find_sound (is_task n) f.tasks t e) in
      let found = find-update_first n t (changed_task change now) f.tasks number e in
      let unchanged = found-is_unchanged n t f.tasks e in
      elim (Result-cases (resume_task n payload actor now f)) [
        | inl ((v, f'), h) ↦ (v, f', h)
        | inr (refusal, h) ↦ absurd (ground (arith, h, e, number, found, unchanged))
      ]

  -- A task of this number that is found starts exactly when it is ready, no maintenance makes its
  -- equipment unavailable, none of its tools is over its life or without valid calibration, and its
  -- history does not hold the key.
  pub start_task-Returns :
      Returns (start_task n payload actor now) f
      ↔ ((t.status ≡ TaskStatus.ready) × IsSafe n now f × IsFresh n payload.idempotency_key f)
  start_task-Returns = (start_task_tested, start_task_taken)

  -- A task of this number that is found resumes exactly when it is paused and has no open downtime,
  -- no maintenance makes its equipment unavailable, none of its tools is over its life or without
  -- valid calibration, and its history does not hold the key.
  pub resume_task-Returns : Returns (resume_task n payload actor now) f ↔ (
      (t.status ≡ TaskStatus.paused)
      × (any (is_open_downtime_of n) f.downtimes ≡ false)
      × IsSafe n now f
      × IsFresh n payload.idempotency_key f)
  resume_task-Returns = (resume_task_tested, resume_task_taken)
