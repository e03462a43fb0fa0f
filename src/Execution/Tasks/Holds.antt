-- ===== src/Execution/Tasks/Holds.antt =====
-- services/central-api/app/repositories/execution.py: a task is held and released.
use mini_ogas.Prelude.{
  not, ℕ, ◌+◌, max, Bool, true, false, ◌&&◌, none, some, List, [], ◌∷◌, ◌++◌, String, ◌==◌,
  find_last, any, change_all,
}
use mini_ogas.Execution.Model.{TaskStatus, Hold, HoldStatus, ActionName, ExecutionError}
use mini_ogas.Prelude.Actions.{pure, gets, or_fail, ◌>>=◌, ◌>>◌, modify, check}
use mini_ogas.Execution.Access.{Action, is_holdable, require_task, require_transition}
use mini_ogas.Execution.Status.{change_to, change_task_status, write_audit, TaskView, format_task}
use mini_ogas.Execution.Tasks.Payloads.{ExecutionActionIn, is_held}

abbrev pub is_open_hold : HoldStatus → Bool
is_open_hold HoldStatus.open_hold = true
is_open_hold _ = false

abbrev pub is_open_hold_of : ℕ → Hold → Bool
is_open_hold_of n h = h.task_id == n && is_open_hold h.status

-- The number that the database gives the next row.
unfoldable pub next_hold_id : List Hold → ℕ
next_hold_id [] = 1
next_hold_id (h ∷ hs) = max (h.id + 1) (next_hold_id hs)

-- The INSERT of `hold_task`: an index holds one open hold at most for a task.
abbrev pub insert_hold : Hold → Action (Unit {0})
insert_hold h = do
  f ← gets (λ g. g)
  check (not (any (is_open_hold_of h.task_id) f.holds)) ExecutionError.constraint_violated
  modify (λ g. record g { holds = g.holds ++ h ∷ [] })

abbrev pub hold_of : ℕ → ℕ → TaskStatus → String → String → ℕ → Hold
hold_of identifier n prior_status reason actor now = record {
  id = identifier;
  task_id = n;
  prior_status = prior_status;
  status = HoldStatus.open_hold;
  reason = reason;
  held_by = actor;
  held_at = now;
  released_by = none;
  released_at = none;
  release_reason = none;
}

unfoldable pub hold_task : ℕ → ExecutionActionIn → String → ℕ → Action TaskView
hold_task n payload actor now = do
  task ← require_task n
  require_transition task is_holdable
  f ← gets (λ g. g)
  insert_hold (hold_of (next_hold_id f.holds) n task.status payload.reason actor now)
  let change =
      change_to TaskStatus.held ActionName.hold actor payload.idempotency_key payload.reason ""
  _ ← change_task_status task (record change { hold_return_status = some task.status }) now
  response ← format_task n
  write_audit actor ActionName.hold n
  pure response

abbrev pub is_hold_row : ℕ → Hold → Bool
is_hold_row n h = h.id == n && is_open_hold h.status

abbrev pub released_hold : String → String → ℕ → Hold → Hold
released_hold actor reason now h = record h {
  status = HoldStatus.released;
  released_by = some actor;
  released_at = some now;
  release_reason = some reason;
}

unfoldable pub release_hold : ℕ → ExecutionActionIn → String → ℕ → Action TaskView
release_hold n payload actor now = do
  task ← require_task n
  require_transition task is_held
  f ← gets (λ g. g)
  hold ← or_fail (find_last (is_open_hold_of n) f.holds) ExecutionError.open_hold_not_found
  modify (λ g. record g {
    holds = change_all (is_hold_row hold.id) (released_hold actor payload.reason now) g.holds;
  })
  let change =
      change_to hold.prior_status ActionName.release_hold actor payload.idempotency_key
        payload.reason ""
  _ ← change_task_status task (record change { clear_hold_return = true }) now
  response ← format_task n
  write_audit actor ActionName.release_hold n
  pure response
