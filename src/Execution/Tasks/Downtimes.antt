-- ===== src/Execution/Tasks/Downtimes.antt =====
-- services/central-api/app/repositories/execution.py: downtime is started and ended.
use mini_ogas.Prelude.{
  not, ℕ, ◌+◌, max, Bool, ◌&&◌, ◌||◌, none, some, List, [], ◌∷◌, ◌++◌, String, str_eq, ◌==◌, find,
  any, change_all, count,
}
use mini_ogas.Execution.Model.{TaskStatus, Downtime, DowntimeStatus, ActionName, ExecutionError}
use mini_ogas.Prelude.Actions.{pure, gets, or_fail, ◌>>=◌, ◌>>◌, check, modify}
use mini_ogas.Execution.Access.{
  Action, require_task, require_transition, require_maintenance_readiness,
}
use mini_ogas.Execution.Status.{change_to, change_task_status, write_audit}
use mini_ogas.Execution.Tasks.Payloads.{DowntimeStartIn, DowntimeEndIn, is_running, is_paused}
use mini_ogas.Execution.Tasks.Running.{is_open_downtime, is_open_downtime_of}

pub next_downtime_id : List Downtime → ℕ
next_downtime_id [] = 1
next_downtime_id (d ∷ ds) = max (d.id + 1) (next_downtime_id ds)

abbrev pub conflicts : ℕ → String → Downtime → Bool
conflicts task code d = is_open_downtime_of task d || str_eq d.downtime_code code

-- `_insert_id` of `start_downtime`: codes are unique, and one downtime at most is open for a task.
abbrev pub insert_downtime : Downtime → Action (Unit {0})
insert_downtime d = do
  f ← gets (λ g. g)
  check (not (any (conflicts d.task_id d.downtime_code) f.downtimes))
      ExecutionError.downtime_already_open
  modify (λ g. record g { downtimes = g.downtimes ++ d ∷ [] })

abbrev pub is_downtime : ℕ → Downtime → Bool
is_downtime n d = d.id == n

-- `_format_downtime`
abbrev pub format_downtime : ℕ → Action Downtime
format_downtime n f = or_fail (find (is_downtime n) f.downtimes) ExecutionError.downtime_not_found f

unfoldable pub start_downtime : ℕ → DowntimeStartIn → String → ℕ → Action Downtime
start_downtime n payload actor now = do
  task ← require_task n
  require_transition task is_running
  f ← gets (λ g. g)
  let identifier = next_downtime_id f.downtimes
  insert_downtime (record {
    id = identifier;
    task_id = n;
    downtime_code = payload.downtime_code;
    status = DowntimeStatus.open_downtime;
    reason = payload.reason;
    start_evidence_reference = payload.evidence_reference;
    end_evidence_reference = none;
    started_by = actor;
    started_at = now;
    ended_by = none;
    ended_at = none;
  })
  _ ←
      change_task_status task
        (change_to TaskStatus.paused ActionName.downtime_start actor payload.idempotency_key
          payload.reason payload.evidence_reference)
        now
  response ← format_downtime identifier
  write_audit actor ActionName.downtime_start n
  pure response

abbrev pub is_downtime_row : ℕ → Downtime → Bool
is_downtime_row n d = d.id == n && is_open_downtime d.status

abbrev pub ended_downtime : DowntimeEndIn → String → ℕ → Downtime → Downtime
ended_downtime payload actor now d = record d {
  status = DowntimeStatus.ended;
  end_evidence_reference = some payload.evidence_reference;
  ended_by = some actor;
  ended_at = some now;
}

unfoldable pub end_downtime : ℕ → DowntimeEndIn → String → ℕ → Action Downtime
end_downtime n payload actor now = do
  downtime ← format_downtime n
  check (is_open_downtime downtime.status) ExecutionError.downtime_not_open
  task ← require_task downtime.task_id
  require_transition task is_paused
  require_maintenance_readiness downtime.task_id now
  f ← gets (λ g. g)
  check (count (is_downtime_row n) f.downtimes == 1) ExecutionError.downtime_close_conflict
  modify (λ g. record g {
    downtimes = change_all (is_downtime_row n) (ended_downtime payload actor now) g.downtimes;
  })
  _ ←
      change_task_status task
        (change_to TaskStatus.running ActionName.downtime_end actor payload.idempotency_key ""
          payload.evidence_reference)
        now
  response ← format_downtime n
  write_audit actor ActionName.downtime_end downtime.task_id
  pure response
