-- ===== src/Execution/Effects/Endings.antt =====
-- The operations of services/central-api/app/repositories/execution.py that end a step: completion,
-- downtime, the release of a hold, and a report.
use mini_ogas.Prelude.{
  ℕ, ◌≡◌, ◌⊎◌, inl, inr, Bool, true, some, List, [], ◌∷◌, String, arith, find, change_all,
  Option-cases, ok, find_sound, find_last,
}
use mini_ogas.Execution.Model.{TaskStatus, Task, Hold, QuantityReport, ActionName, Facts, Downtime}
use mini_ogas.Execution.Access.{is_holdable, is_task, require_task}
use mini_ogas.Execution.Status.{
  Change, changed_task, change_task_status, record_history, TaskView, format_task, change_to,
}
use mini_ogas.Execution.Lookups.{find-update_first}
use mini_ogas.Execution.Tasks.Payloads.{
  ExecutionActionIn, CompleteTaskIn, QuantityReportIn, DowntimeStartIn, DowntimeEndIn,
}
use mini_ogas.Execution.Tasks.Holds.{release_hold, is_open_hold_of, released_hold, is_hold_row}
use mini_ogas.Execution.Tasks.Reports.{report_quantity, accept_report, is_report}
use mini_ogas.Execution.Tasks.Completion.{
  complete_task, update_completion_aggregates, complete_execution,
}
use mini_ogas.Execution.Tasks.Downtimes.{start_downtime, end_downtime, is_downtime}
use mini_ogas.Execution.Effects.{HoldsFit, Moved, Reports}

HoldsFit-release :
    (p : Hold → Bool) (actor reason : String) (now : ℕ) (hs : List Hold)
    → HoldsFit hs
    → HoldsFit (change_all p (released_hold actor reason now) hs)
HoldsFit-release p actor reason now [] fit = tt
HoldsFit-release p actor reason now (h ∷ hs) fit =
    ground (arith, HoldsFit-release p actor reason now hs fit.1)

pub complete_task-Moved :
    (n : ℕ) (payload : CompleteTaskIn) (actor : String) (now : ℕ) (f f' : Facts) (r : TaskView)
    → complete_task n payload actor now f ≡ ok (r, f')
    → Moved n now f f'
unfolding complete_task change_task_status require_task record_history format_task
    update_completion_aggregates complete_execution
complete_task-Moved n payload actor now f f' r h = elim (Option-cases (find (is_task n) f.tasks)) [
  | inl e ↦ absurd (ground (arith, e))
  | inr (t, e) ↦
      let change : Change =
        record (change_to TaskStatus.completed ActionName.complete actor payload.idempotency_key ""
          payload.evidence_reference) { set_completed = true } in
      let number : t.id ≡ n = ground (arith, find_sound (is_task n) f.tasks t e) in
      let after = find-update_first n t (changed_task change now) f.tasks number e in
      (t, change, ground (arith, e, number, after))
]

pub start_downtime-Moved :
    (n : ℕ) (payload : DowntimeStartIn) (actor : String) (now : ℕ) (f f' : Facts) (r : Downtime)
    → start_downtime n payload actor now f ≡ ok (r, f')
    → Moved n now f f'
unfolding start_downtime change_task_status require_task record_history
start_downtime-Moved n payload actor now f f' r h = elim (Option-cases (find (is_task n) f.tasks)) [
  | inl e ↦ absurd (ground (arith, e))
  | inr (t, e) ↦ (
    t,
    change_to TaskStatus.paused ActionName.downtime_start actor payload.idempotency_key
        payload.reason payload.evidence_reference,
    ground (arith, e),
  )
]

pub end_downtime-Moved :
    (n : ℕ) (payload : DowntimeEndIn) (actor : String) (now : ℕ) (f f' : Facts) (r : Downtime)
    → end_downtime n payload actor now f ≡ ok (r, f')
    → (task : ℕ) × Moved task now f f'
unfolding end_downtime change_task_status require_task record_history
end_downtime-Moved n payload actor now f f' r h =
    elim (Option-cases (find (is_downtime n) f.downtimes)) [
      | inl e ↦ absurd (ground (arith, e))
      | inr (d, e) ↦ elim (Option-cases (find (is_task d.task_id) f.tasks)) [
        | inl e' ↦ absurd (ground (arith, e, e'))
        | inr (t, e') ↦ (
          d.task_id,
          (
            t,
            change_to TaskStatus.running ActionName.downtime_end actor payload.idempotency_key ""
                payload.evidence_reference,
            ground (arith, e, e'),
          ),
        )
      ]
    ]

find_last-HoldsFit :
    (p : Hold → Bool) (hs : List Hold) (h : Hold)
    → HoldsFit hs
    → find_last p hs ≡ some h
    → is_holdable h.prior_status ≡ true
find_last-HoldsFit p [] h fit e = absurd (cc)
find_last-HoldsFit p (g ∷ hs) h fit e = ground (arith, find_last-HoldsFit p hs h fit.1)

pub release_hold-Moved :
    (n : ℕ) (payload : ExecutionActionIn) (actor : String) (now : ℕ) (f f' : Facts) (r : TaskView)
    → HoldsFit f.holds
    → release_hold n payload actor now f ≡ ok (r, f')
    → Moved n now f f'
unfolding release_hold change_task_status require_task record_history format_task
release_hold-Moved n payload actor now f f' r fit h =
    elim (Option-cases (find (is_task n) f.tasks)) [
      | inl e ↦ absurd (ground (arith, e))
      | inr (t, e) ↦ elim (Option-cases (find_last (is_open_hold_of n) f.holds)) [
        | inl e' ↦ absurd (ground (arith, e, e'))
        | inr (hold, e') ↦
            let fits = find_last-HoldsFit (is_open_hold_of n) f.holds hold fit e' in
            (
              t,
              record (change_to hold.prior_status ActionName.release_hold actor
                  payload.idempotency_key payload.reason "") { clear_hold_return = true },
              ground (
                arith,
                e,
                e',
                fits,
                HoldsFit-release (is_hold_row hold.id) actor payload.reason now f.holds fit,
              ),
            )
      ]
    ]

pub report_quantity-Reports :
    (n : ℕ) (payload : QuantityReportIn) (actor : String) (f f' : Facts) (r : QuantityReport)
    → report_quantity n payload actor f ≡ ok (r, f')
    → (f' ≡ f) ⊎ ((t : Task) × Reports n t r f f')
unfolding report_quantity accept_report require_task
report_quantity-Reports n payload actor f f' r h = elim (Option-cases (find (is_task n) f.tasks)) [
  | inl e ↦ absurd (ground (arith, e))
  | inr (t, e) ↦ elim (Option-cases (find (is_report payload.report_id) f.reports)) [
    | inr (old, e') ↦ inl (ground (arith, e, e'))
    | inl e' ↦ inr (t, ground (arith, e, e', find_sound (is_task n) f.tasks t e))
  ]
]
