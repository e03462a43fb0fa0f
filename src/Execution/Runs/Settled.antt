-- ===== src/Execution/Runs/Settled.antt =====
-- Work order executions over sequences of calls
-- (services/central-api/app/repositories/execution.py).
use mini_ogas.Prelude.{
  ℕ, ◌≡◌, inl, inr, refl, true, false, List, [], ◌∷◌, String, arith, any, All, update_first,
  change_all, Bool-cases, subst, sym,
}
use mini_ogas.Execution.Model.{Task, TaskStatus, WorkOrderExecution, Facts}
use mini_ogas.Execution.Access.{is_done, same_status}
use mini_ogas.Execution.Status.{Change, changed_task, is_unchanged}
use mini_ogas.Execution.Tasks.Running.{starts, started_execution}
use mini_ogas.Execution.Tasks.Completion.{is_remaining, is_finished, finishes, finished_execution}
use mini_ogas.Execution.Effects.{HoldsFit, task_follows, Progress}
use mini_ogas.Execution.Governed.{Request, Store}
use mini_ogas.Execution.Calls.{Call, handle, after_call, run}
use mini_ogas.Execution.Runs.Steps.{Step, call-Step, Step-HoldsFit}

-- An execution that is completed or closed has no task that is not.
abbrev pub Settled : List Task → List WorkOrderExecution → Type 0
Settled ts = All (λ e. is_finished e.status ≡ true → any (is_remaining e.id) ts ≡ false)

done-task_follows :
    (s r : TaskStatus) → is_done s ≡ true → task_follows s r ≡ true → is_done r ≡ true
done-task_follows s r done along = ground arith

done-same_status : (s r : TaskStatus) → same_status s r ≡ true → is_done s ≡ is_done r
done-same_status s r same = ground arith

-- A task that moves along an arc does not come back to what remains.
remaining-update_first :
    (n : ℕ) (t : Task) (c : Change) (now : ℕ) (ts : List Task)
    → task_follows t.status c.to_status ≡ true
    → any (is_remaining n) ts ≡ false
    → any (is_remaining n) (update_first (is_unchanged t) (changed_task c now) ts) ≡ false
remaining-update_first n t c now [] along none_left = refl
remaining-update_first n t c now (u ∷ ts) along none_left = elim (Bool-cases (is_unchanged t u)) [
  | inl here ↦
      ground
        (arith, here, done-same_status u.status t.status, done-task_follows t.status c.to_status)
  | inr there ↦ ground (arith, there, remaining-update_first n t c now ts along)
]

Settled-tasks :
    (ts ts' : List Task) (es : List WorkOrderExecution)
    → ((n : ℕ) → any (is_remaining n) ts ≡ false → any (is_remaining n) ts' ≡ false)
    → Settled ts es
    → Settled ts' es
Settled-tasks ts ts' [] keep h = tt
Settled-tasks ts ts' (e ∷ es) keep h =
    (λ finished. keep e.id (h.0 finished), Settled-tasks ts ts' es keep h.1)

Settled-started :
    (n : ℕ) (ts : List Task) (es : List WorkOrderExecution)
    → Settled ts es
    → Settled ts (change_all (starts n) started_execution es)
Settled-started n ts [] h = tt
Settled-started n ts (e ∷ es) h = (ground arith, Settled-started n ts es h.1)

Settled-finished :
    (n now : ℕ) (ts : List Task) (es : List WorkOrderExecution)
    → any (is_remaining n) ts ≡ false
    → Settled ts es
    → Settled ts (change_all (finishes n) (finished_execution now) es)
Settled-finished n now ts [] none_left h = tt
Settled-finished n now ts (e ∷ es) none_left h =
    (ground arith, Settled-finished n now ts es none_left h.1)

Progress-Settled :
    (t : Task) (now : ℕ) (f f' : Facts)
    → Progress t now f f'
    → Settled f'.tasks f.executions
    → Settled f'.tasks f'.executions
Progress-Settled t now f f' (inl same) h = subst (Settled f'.tasks) (sym same) h
Progress-Settled t now f f' (inr (inl started)) h =
    subst (Settled f'.tasks) (sym started) (Settled-started t.execution_id f'.tasks f.executions h)
Progress-Settled t now f f' (inr (inr (none_left, finished))) h =
    subst (Settled f'.tasks) (sym finished)
      (Settled-finished t.execution_id now f'.tasks f.executions none_left h)

Step-Settled :
    (now : ℕ) (f f' : Facts)
    → Step now f f'
    → Settled f.tasks f.executions
    → Settled f'.tasks f'.executions
Step-Settled now f f' (Step.nothing same) h = subst (λ g. Settled g.tasks g.executions) (sym same) h
Step-Settled now f f' (Step.a_move n t c m) h = Progress-Settled t now f f' m.progress (
    Settled-tasks f.tasks f'.tasks f.executions
      (λ k none_left.
        subst (λ ts. any (is_remaining k) ts ≡ false) (sym m.tasks_after)
          (remaining-update_first k t c now f.tasks m.along none_left))
      h)
Step-Settled now f f' (Step.a_report n t r m) h =
    subst (Settled f'.tasks) (sym m.executions_same)
      (subst (λ ts. Settled ts f.executions) (sym m.tasks_same) h)

module _ (request_hash : Request → String) where
  -- Take any calls on operation tasks, and tables in which every hold remembers a status that a task
  -- can be held in, and every work order execution that is completed or closed has only tasks that
  -- are completed or closed. After the calls this holds of the executions, too: none is completed
  -- before its last task, and none of its tasks is taken up again.
  pub run-Settled :
      (calls : List (Call × String × ℕ)) (s : Store)
      → HoldsFit s.facts.holds
      → Settled s.facts.tasks s.facts.executions
      → Settled (run request_hash calls s).facts.tasks (run request_hash calls s).facts.executions
  unfolding run
  run-Settled [] s fit h = h
  run-Settled ((call, actor, now) ∷ calls) s fit h =
      let s' = after_call request_hash s (handle request_hash call actor now s) in
      let step = call-Step request_hash call actor now s fit in
      run-Settled calls s' (Step-HoldsFit now s.facts s'.facts step fit)
        (Step-Settled now s.facts s'.facts step h)
