-- ===== src/Execution/Runs/Steps.antt =====
-- What one call can do to the tables of services/central-api/app/repositories/execution.py.
use mini_ogas.Prelude.{
  ℕ, ◌≡◌, refl, ◌⊎◌, inl, inr, String, arith, find, ok, Option-cases, Result-cases, subst, sym,
}
use mini_ogas.Execution.Model.{Task, QuantityReport, Facts, ActionName}
use mini_ogas.Execution.Access.{Action}
use mini_ogas.Execution.Status.{Change}
use mini_ogas.Execution.Effects.{HoldsFit, Moves, Moved, Reports}
use mini_ogas.Execution.Effects.Operations.{
  close_task-Moved, complete_setup-Moved, hold_task-Moved, pause_task-Moved, resume_task-Moved,
  start_setup-Moved, start_task-Moved,
}
use mini_ogas.Execution.Effects.Endings.{
  complete_task-Moved, end_downtime-Moved, release_hold-Moved, report_quantity-Reports,
  start_downtime-Moved,
}
use mini_ogas.Execution.Tasks.Setup.{start_setup, complete_setup}
use mini_ogas.Execution.Tasks.Running.{start_task, pause_task, resume_task, close_task}
use mini_ogas.Execution.Tasks.Holds.{hold_task, release_hold}
use mini_ogas.Execution.Tasks.Reports.{report_quantity}
use mini_ogas.Execution.Tasks.Completion.{complete_task}
use mini_ogas.Execution.Tasks.Downtimes.{start_downtime, end_downtime}
use mini_ogas.Execution.Governed.{Resource, Response, Request, Store, governed, is_key}
use mini_ogas.Execution.Calls.{Call, handle, answer, body, on_facts, after_call}

pub data Step (now : ℕ) (f f' : Facts) : Type 0 where
  nothing : f' ≡ f → Step now f f'
  a_move : (n : ℕ) (t : Task) (c : Change) → Moves n t c now f f' → Step now f f'
  a_report : (n : ℕ) (t : Task) (r : QuantityReport) → Reports n t r f f' → Step now f f'

of_move : (n now : ℕ) (f f' : Facts) → Moved n now f f' → Step now f f'
of_move n now f f' (t, c, m) = Step.a_move n t c m

of_report :
    (n now : ℕ) (f f' : Facts) (r : QuantityReport)
    → (f' ≡ f) ⊎ ((t : Task) × Reports n t r f f')
    → Step now f f'
of_report n now f f' r (inl same) = Step.nothing same
of_report n now f f' r (inr (t, m)) = Step.a_report n t r m

answered :
    {A : Type 0} (view : A → Response) (m : Action A) (f f' : Facts) (r : Response) (P : Type 0)
    → ((a : A) → m f ≡ ok (a, f') → P)
    → answer view m f ≡ ok (r, f')
    → P
answered view m f f' r P known h = elim (Result-cases (m f)) [
  | inl ((a, g), e) ↦ known a (ground (arith, e))
  | inr (e, refused) ↦ absurd (ground (arith, refused))
]

pub body-Step :
    (call : Call) (actor : String) (now : ℕ) (f f' : Facts) (r : Response)
    → HoldsFit f.holds
    → body call actor now f ≡ ok (r, f')
    → Step now f f'
body-Step (Call.start_setup n p) actor now f f' r fit h =
    answered _ (start_setup n p actor now) f f' r _
      (λ a e. of_move n now f f' (start_setup-Moved n p actor now f f' a e)) h
body-Step (Call.complete_setup n p) actor now f f' r fit h =
    answered _ (complete_setup n p actor now) f f' r _
      (λ a e. of_move n now f f' (complete_setup-Moved n p actor now f f' a e)) h
body-Step (Call.start_task n p) actor now f f' r fit h =
    answered _ (start_task n p actor now) f f' r _
      (λ a e. of_move n now f f' (start_task-Moved n p actor now f f' a e)) h
body-Step (Call.pause_task n p) actor now f f' r fit h =
    answered _ (pause_task n p actor now) f f' r _
      (λ a e. of_move n now f f' (pause_task-Moved n p actor now f f' a e)) h
body-Step (Call.resume_task n p) actor now f f' r fit h =
    answered _ (resume_task n p actor now) f f' r _
      (λ a e. of_move n now f f' (resume_task-Moved n p actor now f f' a e)) h
body-Step (Call.hold_task n p) actor now f f' r fit h =
    answered _ (hold_task n p actor now) f f' r _
      (λ a e. of_move n now f f' (hold_task-Moved n p actor now f f' a e)) h
body-Step (Call.release_hold n p) actor now f f' r fit h =
    answered _ (release_hold n p actor now) f f' r _
      (λ a e. of_move n now f f' (release_hold-Moved n p actor now f f' a fit e)) h
body-Step (Call.report_quantity n p) actor now f f' r fit h =
    answered _ (report_quantity n p actor) f f' r _
      (λ a e. of_report n now f f' a (report_quantity-Reports n p actor f f' a e)) h
body-Step (Call.complete_task n p) actor now f f' r fit h =
    answered _ (complete_task n p actor now) f f' r _
      (λ a e. of_move n now f f' (complete_task-Moved n p actor now f f' a e)) h
body-Step (Call.start_downtime n p) actor now f f' r fit h =
    answered _ (start_downtime n p actor now) f f' r _
      (λ a e. of_move n now f f' (start_downtime-Moved n p actor now f f' a e)) h
body-Step (Call.end_downtime n p) actor now f f' r fit h =
    answered _ (end_downtime n p actor now) f f' r _
      (λ a e. let (task, m) = end_downtime-Moved n p actor now f f' a e in of_move task now f f' m)
      h
body-Step (Call.close_task n p) actor now f f' r fit h =
    answered _ (close_task n p actor now) f f' r _
      (λ a e. of_move n now f f' (close_task-Moved n p actor now f f' a e)) h

pub Step-HoldsFit : (now : ℕ) (f f' : Facts) → Step now f f' → HoldsFit f.holds → HoldsFit f'.holds
Step-HoldsFit now f f' (Step.nothing same) fit = subst (λ g. HoldsFit g.holds) (sym same) fit
Step-HoldsFit now f f' (Step.a_move n t c m) fit = m.holds_fit fit
Step-HoldsFit now f f' (Step.a_report n t r m) fit = subst HoldsFit (sym m.holds_same) fit

module _ (request_hash : Request → String) where
  -- A call under a key answers from the row of its key, or runs.
  governed-Step :
      (resource : Resource) (action : ActionName) (key : String) (request : Request)
      (m : Action Response) (now : ℕ) (s s' : Store) (r : Response)
      → ((f' : Facts) → m s.facts ≡ ok (r, f') → Step now s.facts f')
      → governed request_hash resource action key request m s ≡ ok (r, s')
      → Step now s.facts s'.facts
  unfolding governed
  governed-Step resource action key request m now s s' r run h =
      elim (Option-cases (find (is_key resource action key) s.idempotency)) [
        | inr (row, e) ↦ Step.nothing (ground (arith, e))
        | inl e ↦ elim (Result-cases (m s.facts)) [
          | inl ((a, f), e') ↦ run s'.facts (ground (arith, e, e'))
          | inr (refusal, e') ↦ absurd (ground (arith, e, e'))
        ]
      ]

  on_facts-Step :
      (m : Action Response) (now : ℕ) (s s' : Store) (r : Response)
      → ((f' : Facts) → m s.facts ≡ ok (r, f') → Step now s.facts f')
      → on_facts m s ≡ ok (r, s')
      → Step now s.facts s'.facts
  on_facts-Step m now s s' r run h = elim (Result-cases (m s.facts)) [
    | inl ((a, f), e) ↦ run s'.facts (ground (arith, e))
    | inr (refusal, e) ↦ absurd (ground (arith, e))
  ]

  pub handle-Step :
      (call : Call) (actor : String) (now : ℕ) (s s' : Store) (r : Response)
      → HoldsFit s.facts.holds
      → handle request_hash call actor now s ≡ ok (r, s')
      → Step now s.facts s'.facts
  unfolding handle
  handle-Step (Call.start_setup n p) actor now s s' r fit h =
      governed-Step _ _ _ _ _ now s s' r
        (λ f' e. body-Step (Call.start_setup n p) actor now s.facts f' r fit e) h
  handle-Step (Call.complete_setup n p) actor now s s' r fit h =
      governed-Step _ _ _ _ _ now s s' r
        (λ f' e. body-Step (Call.complete_setup n p) actor now s.facts f' r fit e) h
  handle-Step (Call.start_task n p) actor now s s' r fit h =
      governed-Step _ _ _ _ _ now s s' r
        (λ f' e. body-Step (Call.start_task n p) actor now s.facts f' r fit e) h
  handle-Step (Call.pause_task n p) actor now s s' r fit h =
      governed-Step _ _ _ _ _ now s s' r
        (λ f' e. body-Step (Call.pause_task n p) actor now s.facts f' r fit e) h
  handle-Step (Call.resume_task n p) actor now s s' r fit h =
      governed-Step _ _ _ _ _ now s s' r
        (λ f' e. body-Step (Call.resume_task n p) actor now s.facts f' r fit e) h
  handle-Step (Call.hold_task n p) actor now s s' r fit h =
      governed-Step _ _ _ _ _ now s s' r
        (λ f' e. body-Step (Call.hold_task n p) actor now s.facts f' r fit e) h
  handle-Step (Call.release_hold n p) actor now s s' r fit h =
      governed-Step _ _ _ _ _ now s s' r
        (λ f' e. body-Step (Call.release_hold n p) actor now s.facts f' r fit e) h
  handle-Step (Call.report_quantity n p) actor now s s' r fit h =
      on_facts-Step (body (Call.report_quantity n p) actor now) now s s' r
        (λ f' e. body-Step (Call.report_quantity n p) actor now s.facts f' r fit e) h
  handle-Step (Call.complete_task n p) actor now s s' r fit h =
      governed-Step _ _ _ _ _ now s s' r
        (λ f' e. body-Step (Call.complete_task n p) actor now s.facts f' r fit e) h
  handle-Step (Call.start_downtime n p) actor now s s' r fit h =
      governed-Step _ _ _ _ _ now s s' r
        (λ f' e. body-Step (Call.start_downtime n p) actor now s.facts f' r fit e) h
  handle-Step (Call.end_downtime n p) actor now s s' r fit h =
      governed-Step _ _ _ _ _ now s s' r
        (λ f' e. body-Step (Call.end_downtime n p) actor now s.facts f' r fit e) h
  handle-Step (Call.close_task n p) actor now s s' r fit h =
      governed-Step _ _ _ _ _ now s s' r
        (λ f' e. body-Step (Call.close_task n p) actor now s.facts f' r fit e) h

  pub call-Step :
      (call : Call) (actor : String) (now : ℕ) (s : Store)
      → HoldsFit s.facts.holds
      → Step now s.facts (after_call request_hash s (handle request_hash call actor now s)).facts
  call-Step call actor now s fit = elim (Result-cases (handle request_hash call actor now s)) [
    | inl ((r, s'), e) ↦ rw e (handle-Step call actor now s s' r fit e)
    | inr (refusal, e) ↦ rw e (Step.nothing refl)
  ]
