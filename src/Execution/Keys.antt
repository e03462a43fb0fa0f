-- ===== src/Execution/Keys.antt =====
-- Requests that come again under their key (services/central-api/app/repositories/execution.py).
use mini_ogas.Prelude.{
  ℕ, ◌≡◌, true, [], ◌∷◌, String, eq_refl, arith, find, ok, Option-cases, inl, inr, Result-cases,
  find-append_none, find_sound,
}
use mini_ogas.Execution.Model.{ActionName, Facts, QuantityReport}
use mini_ogas.Execution.Access.{Action, is_task, require_task}
use mini_ogas.Execution.Tasks.Payloads.{QuantityReportIn}
use mini_ogas.Execution.Tasks.Reports.{
  report_quantity, accept_report, is_report, report_of, next_report_id,
}
use mini_ogas.Execution.Governed.{
  Resource, Response, Request, Store, governed, same_resource, is_key, row_of,
}
use mini_ogas.Execution.Calls.{Call, handle, on_facts, answer}

same_resource_self : (r : Resource) → same_resource r r ≡ true
same_resource_self (Resource.operation_task n) = ground arith
same_resource_self (Resource.downtime n) = ground arith

row_of-is_key :
    (resource : Resource) (action : ActionName) (key hash : String) (r : Response)
    → is_key resource action key (row_of resource action key hash r) ≡ true
row_of-is_key resource action key hash r = ground (arith, same_resource_self resource, eq_refl key)

governed_again :
    (request_hash : Request → String) (resource : Resource) (action : ActionName) (key : String)
    (request : Request) (m m' : Action Response) (s s' : Store) (r : Response)
    → governed request_hash resource action key request m s ≡ ok (r, s')
    → governed request_hash resource action key request m' s' ≡ ok (r, s')
unfolding governed
governed_again request_hash resource action key request m m' s s' r h =
    elim (Option-cases (find (is_key resource action key) s.idempotency)) [
      | inr (row, e) ↦ ground (arith, e)
      | inl e ↦ ground (
        arith,
        e,
        eq_refl (request_hash request),
        row_of-is_key resource action key (request_hash request) r,
        find-append_none (is_key resource action key) s.idempotency
            (row_of resource action key (request_hash request) r ∷ []) e,
      )
    ]

-- A report that was taken is found under its number and answered again.
report_quantity_again :
    (n : ℕ) (payload : QuantityReportIn) (actor actor' : String) (f f' : Facts) (r : QuantityReport)
    → report_quantity n payload actor f ≡ ok (r, f')
    → report_quantity n payload actor' f' ≡ ok (r, f')
unfolding report_quantity accept_report require_task
report_quantity_again n payload actor actor' f f' r h =
    elim (Option-cases (find (is_task n) f.tasks)) [
      | inl e ↦ absurd (ground (arith, e))
      | inr (t, e) ↦ elim (Option-cases (find (is_report payload.report_id) f.reports)) [
        | inr (old, e') ↦ ground (arith, e, e')
        | inl e' ↦
            let id = find_sound (is_task n) f.tasks t e in
            let new = report_of (next_report_id f.reports) t.id payload actor in
            ground (
              arith,
              e,
              e',
              id,
              eq_refl payload.report_id,
              eq_refl payload.evidence_reference,
              find-append_none (is_report payload.report_id) f.reports (new ∷ []) e',
            )
      ]
    ]

on_facts_again :
    (view : QuantityReport → Response) (m m' : Action QuantityReport) (s s' : Store) (r : Response)
    → ((q : QuantityReport) (f : Facts) → m s.facts ≡ ok (q, f) → m' f ≡ ok (q, f))
    → on_facts (answer view m) s ≡ ok (r, s')
    → on_facts (answer view m') s' ≡ ok (r, s')
on_facts_again view m m' s s' r again h = elim (Result-cases (m s.facts)) [
  | inl ((q, f), e) ↦ ground (arith, e, again q f e)
  | inr (e, refused) ↦ absurd (ground (arith, refused))
]

module _ (request_hash : Request → String) where
  -- A call that was answered and comes again under its key, from whomever and whenever, gets the
  -- same answer and changes nothing.
  pub handle_again :
      (call : Call) (actor actor' : String) (now now' : ℕ) (s s' : Store) (r : Response)
      → handle request_hash call actor now s ≡ ok (r, s')
      → handle request_hash call actor' now' s' ≡ ok (r, s')
  unfolding handle
  handle_again (Call.start_setup n p) actor actor' now now' s s' r h =
      governed_again _ _ _ _ _ _ _ _ _ _ h
  handle_again (Call.complete_setup n p) actor actor' now now' s s' r h =
      governed_again _ _ _ _ _ _ _ _ _ _ h
  handle_again (Call.start_task n p) actor actor' now now' s s' r h =
      governed_again _ _ _ _ _ _ _ _ _ _ h
  handle_again (Call.pause_task n p) actor actor' now now' s s' r h =
      governed_again _ _ _ _ _ _ _ _ _ _ h
  handle_again (Call.resume_task n p) actor actor' now now' s s' r h =
      governed_again _ _ _ _ _ _ _ _ _ _ h
  handle_again (Call.hold_task n p) actor actor' now now' s s' r h =
      governed_again _ _ _ _ _ _ _ _ _ _ h
  handle_again (Call.release_hold n p) actor actor' now now' s s' r h =
      governed_again _ _ _ _ _ _ _ _ _ _ h
  handle_again (Call.report_quantity n p) actor actor' now now' s s' r h =
      on_facts_again Response.report_view (report_quantity n p actor) (report_quantity n p actor') s
        s' r (λ q f. report_quantity_again n p actor actor' s.facts f q) h
  handle_again (Call.complete_task n p) actor actor' now now' s s' r h =
      governed_again _ _ _ _ _ _ _ _ _ _ h
  handle_again (Call.start_downtime n p) actor actor' now now' s s' r h =
      governed_again _ _ _ _ _ _ _ _ _ _ h
  handle_again (Call.end_downtime n p) actor actor' now now' s s' r h =
      governed_again _ _ _ _ _ _ _ _ _ _ h
  handle_again (Call.close_task n p) actor actor' now now' s s' r h =
      governed_again _ _ _ _ _ _ _ _ _ _ h
