-- ===== src/Execution/Effects/Operations.antt =====
-- Each operation of services/central-api/app/repositories/execution.py does one of those changes.
use mini_ogas.Prelude.{
  ℕ, ◌≡◌, inl, inr, true, some, List, [], ◌∷◌, ◌++◌, String, arith, find, All-append, Option-cases,
  ok, find_sound,
}
use mini_ogas.Execution.Model.{TaskStatus, Hold, ActionName, Facts}
use mini_ogas.Execution.Access.{is_holdable, is_task, require_task}
use mini_ogas.Execution.Status.{
  change_task_status, record_history, TaskView, format_task, change_to,
}
use mini_ogas.Execution.Tasks.Payloads.{ExecutionActionIn, SetupCompleteIn}
use mini_ogas.Execution.Tasks.Setup.{start_setup, complete_setup}
use mini_ogas.Execution.Tasks.Running.{
  start_task, simple_task_transition, pause_task, resume_task, close_task,
}
use mini_ogas.Execution.Tasks.Holds.{hold_task, next_hold_id, hold_of}
use mini_ogas.Execution.Effects.{HoldsFit, Moved}

HoldsFit-append :
    (hs : List Hold) (h : Hold)
    → is_holdable h.prior_status ≡ true
    → HoldsFit hs
    → HoldsFit (hs ++ h ∷ [])
HoldsFit-append hs h holdable fit =
    All-append (λ g. is_holdable g.prior_status ≡ true) hs (h ∷ []) fit (holdable, tt)

pub start_setup-Moved :
    (n : ℕ) (payload : ExecutionActionIn) (actor : String) (now : ℕ) (f f' : Facts) (r : TaskView)
    → start_setup n payload actor now f ≡ ok (r, f')
    → Moved n now f f'
unfolding start_setup change_task_status require_task record_history format_task
start_setup-Moved n payload actor now f f' r h = elim (Option-cases (find (is_task n) f.tasks)) [
  | inl e ↦ absurd (ground (arith, e))
  | inr (t, e) ↦ (
    t,
    change_to TaskStatus.setup ActionName.setup_start actor payload.idempotency_key payload.reason
        "",
    ground (arith, e),
  )
]

pub complete_setup-Moved :
    (n : ℕ) (payload : SetupCompleteIn) (actor : String) (now : ℕ) (f f' : Facts) (r : TaskView)
    → complete_setup n payload actor now f ≡ ok (r, f')
    → Moved n now f f'
unfolding complete_setup change_task_status require_task record_history format_task
complete_setup-Moved n payload actor now f f' r h = elim (Option-cases (find (is_task n) f.tasks)) [
  | inl e ↦ absurd (ground (arith, e))
  | inr (t, e) ↦ (
    t,
    change_to TaskStatus.ready ActionName.setup_complete actor payload.idempotency_key ""
        payload.evidence_reference,
    ground (arith, e),
  )
]

pub start_task-Moved :
    (n : ℕ) (payload : ExecutionActionIn) (actor : String) (now : ℕ) (f f' : Facts) (r : TaskView)
    → start_task n payload actor now f ≡ ok (r, f')
    → Moved n now f f'
unfolding start_task change_task_status require_task record_history format_task
start_task-Moved n payload actor now f f' r h = elim (Option-cases (find (is_task n) f.tasks)) [
  | inl e ↦ absurd (ground (arith, e))
  | inr (t, e) ↦ (
    t,
    record (change_to TaskStatus.running ActionName.start actor payload.idempotency_key
        payload.reason "") { set_started = true },
    ground (arith, e),
  )
]

pub pause_task-Moved :
    (n : ℕ) (payload : ExecutionActionIn) (actor : String) (now : ℕ) (f f' : Facts) (r : TaskView)
    → pause_task n payload actor now f ≡ ok (r, f')
    → Moved n now f f'
unfolding pause_task change_task_status require_task record_history format_task
    simple_task_transition
pause_task-Moved n payload actor now f f' r h = elim (Option-cases (find (is_task n) f.tasks)) [
  | inl e ↦ absurd (ground (arith, e))
  | inr (t, e) ↦ (
    t,
    change_to TaskStatus.paused ActionName.pause actor payload.idempotency_key payload.reason "",
    ground (arith, e),
  )
]

pub resume_task-Moved :
    (n : ℕ) (payload : ExecutionActionIn) (actor : String) (now : ℕ) (f f' : Facts) (r : TaskView)
    → resume_task n payload actor now f ≡ ok (r, f')
    → Moved n now f f'
unfolding resume_task change_task_status require_task record_history format_task
resume_task-Moved n payload actor now f f' r h = elim (Option-cases (find (is_task n) f.tasks)) [
  | inl e ↦ absurd (ground (arith, e))
  | inr (t, e) ↦ (
    t,
    change_to TaskStatus.running ActionName.resume actor payload.idempotency_key payload.reason "",
    ground (arith, e),
  )
]

pub close_task-Moved :
    (n : ℕ) (payload : ExecutionActionIn) (actor : String) (now : ℕ) (f f' : Facts) (r : TaskView)
    → close_task n payload actor now f ≡ ok (r, f')
    → Moved n now f f'
unfolding close_task change_task_status require_task record_history format_task
close_task-Moved n payload actor now f f' r h = elim (Option-cases (find (is_task n) f.tasks)) [
  | inl e ↦ absurd (ground (arith, e))
  | inr (t, e) ↦ (
    t,
    record (change_to TaskStatus.closed ActionName.close actor payload.idempotency_key
        payload.reason "") { set_closed = true },
    ground (arith, e),
  )
]

pub hold_task-Moved :
    (n : ℕ) (payload : ExecutionActionIn) (actor : String) (now : ℕ) (f f' : Facts) (r : TaskView)
    → hold_task n payload actor now f ≡ ok (r, f')
    → Moved n now f f'
unfolding hold_task change_task_status require_task record_history format_task
hold_task-Moved n payload actor now f f' r h = elim (Option-cases (find (is_task n) f.tasks)) [
  | inl e ↦ absurd (ground (arith, e))
  | inr (t, e) ↦ (
    t,
    record (change_to TaskStatus.held ActionName.hold actor payload.idempotency_key payload.reason
        "") { hold_return_status = some t.status },
    ground (
      arith,
      e,
      find_sound (is_task n) f.tasks t e,
      HoldsFit-append f.holds (hold_of (next_hold_id f.holds) n t.status payload.reason actor now),
    ),
  )
]
