-- ===== src/Execution/Holds.antt =====
-- A task that is held and then released (services/central-api/app/repositories/execution.py).
use mini_ogas.Prelude.{
  change_all, ℕ, ◌≡◌, refl, Bool, true, false, some, List, [], ◌∷◌, ◌++◌, String, arith, find,
  find_last, find_sound, any, inl, inr, Result-cases, ok,
}
use mini_ogas.Execution.Model.{Task, TaskStatus, Hold, Facts, ActionName}
use mini_ogas.Execution.Access.{is_maintenance_blocked, is_task, require_task}
use mini_ogas.Execution.Status.{
  passes_maintenance_guard, TaskView, change_to, change_task_status, record_history, format_task,
  is_entry_of, changed_task,
}
use mini_ogas.Execution.Lookups.{find-update_first, found-is_unchanged}
use mini_ogas.Execution.Tasks.Payloads.{ExecutionActionIn}
use mini_ogas.Execution.Tasks.Holds.{
  is_hold_row, released_hold, hold_task, release_hold, hold_of, next_hold_id, is_open_hold_of,
}

find_last-append :
    (p : Hold → Bool) (hs : List Hold) (h : Hold) → p h ≡ true → find_last p (hs ++ h ∷ []) ≡ some h
find_last-append p [] h test = ground arith
find_last-append p (g ∷ hs) h test = ground (arith, find_last-append p hs h test)

-- What a hold leaves for its release.
record HeldFrom (n : ℕ) (t u : Task) (h : Hold) (f : Facts) : Type 0 where
  found : find (is_task n) f.tasks ≡ some u
  held : u.status ≡ TaskStatus.held
  last : find_last (is_open_hold_of n) f.holds ≡ some h
  prior : h.prior_status ≡ t.status

hold_task-HeldFrom :
    (n : ℕ) (payload : ExecutionActionIn) (actor : String) (now : ℕ) (f f' : Facts) (r : TaskView)
    (t : Task)
    → find (is_task n) f.tasks ≡ some t
    → hold_task n payload actor now f ≡ ok (r, f')
    → HeldFrom n t r.task (hold_of (next_hold_id f.holds) n t.status payload.reason actor now) f'
unfolding hold_task change_task_status require_task record_history format_task
hold_task-HeldFrom n payload actor now f f' r t e h =
    let change =
      record (change_to TaskStatus.held ActionName.hold actor payload.idempotency_key payload.reason
        "") { hold_return_status = some t.status } in
    let number = find_sound (is_task n) f.tasks t e in
    let hold = hold_of (next_hold_id f.holds) n t.status payload.reason actor now in
    let found = find-update_first n t (changed_task change now) f.tasks (ground arith) e in
    record {
      found = ground (arith, e, number, found);
      held = ground (arith, e, number, found);
      last = ground (arith, e, find_last-append (is_open_hold_of n) f.holds hold (ground arith));
      prior = refl;
    }

-- The guard reads no hold.
guard-holds :
    (u : Task) (s : TaskStatus) (now : ℕ) (f : Facts) (hs : List Hold)
    → passes_maintenance_guard u s now (record f { holds = hs })
      ≡ passes_maintenance_guard u s now f
unfolding passes_maintenance_guard is_maintenance_blocked
guard-holds u s now f hs = refl

release_hold-ok :
    (n : ℕ) (payload : ExecutionActionIn) (actor : String) (now : ℕ) (f : Facts) (t u : Task)
    (h : Hold)
    → HeldFrom n t u h f
    → any (is_entry_of n payload.idempotency_key) f.history ≡ false
    → passes_maintenance_guard u t.status now f ≡ true
    → (r : TaskView) × (f' : Facts) × (release_hold n payload actor now f ≡ ok (r, f'))
      × (r.task.status ≡ t.status)
unfolding release_hold change_task_status require_task record_history format_task
release_hold-ok n payload actor now f t u h m fresh safe =
    let change =
      record (change_to h.prior_status ActionName.release_hold actor payload.idempotency_key
        payload.reason "") { clear_hold_return = true } in
    let number : u.id ≡ n = ground (arith, find_sound (is_task n) f.tasks u m.found) in
    let found = find-update_first n u (changed_task change now) f.tasks number m.found in
    let released = change_all (is_hold_row h.id) (released_hold actor payload.reason now) f.holds in
    let passes : passes_maintenance_guard u h.prior_status now (record f { holds = released })
        ≡ true =
      rw (guard-holds u h.prior_status now f released, m.prior) safe in
    let unchanged = found-is_unchanged n u f.tasks m.found in
    elim (Result-cases (release_hold n payload actor now f)) [
      | inl ((r, f'), e) ↦ (
        r,
        f',
        e,
        ground
            (arith, e, number, found, unchanged, m.found, m.held, m.last, m.prior, fresh, passes),
      )
      | inr (refusal, e) ↦ absurd (
          ground
            (arith, e, number, found, unchanged, m.found, m.held, m.last, m.prior, fresh, passes))
    ]

-- A task that was put on hold can be released under a key that its history does not hold, if the
-- maintenance trigger allows the status that it was held in. It is then in that status.
pub release_hold-hold_task :
    (n : ℕ) (p q : ExecutionActionIn) (holder releaser : String) (now later : ℕ) (f f' : Facts)
    (r : TaskView) (t : Task)
    → find (is_task n) f.tasks ≡ some t
    → hold_task n p holder now f ≡ ok (r, f')
    → any (is_entry_of n q.idempotency_key) f'.history ≡ false
    → passes_maintenance_guard r.task t.status later f' ≡ true
    → (v : TaskView) × (f'' : Facts) × (release_hold n q releaser later f' ≡ ok (v, f''))
      × (v.task.status ≡ t.status)
release_hold-hold_task n p q holder releaser now later f f' r t e h fresh safe =
    release_hold-ok n q releaser later f' t r.task
      (hold_of (next_hold_id f.holds) n t.status p.reason holder now)
      (hold_task-HeldFrom n p holder now f f' r t e h) fresh safe
