-- ===== src/Execution/Runs/Sound.antt =====
-- Operation tasks over sequences of calls
-- (services/central-api/app/repositories/execution.py).
use mini_ogas.Prelude.{ℕ, List, [], ◌∷◌, String, subst, sym}
use mini_ogas.Execution.Model.{Facts}
use mini_ogas.Execution.Effects.{HoldsFit}
use mini_ogas.Execution.Soundness.{IsSound, Moves-IsSound, Reports-IsSound}
use mini_ogas.Execution.Governed.{Request, Store}
use mini_ogas.Execution.Calls.{Call, handle, after_call, run}
use mini_ogas.Execution.Runs.Steps.{Step, call-Step, Step-HoldsFit}

pub Step-IsSound : (now : ℕ) (f f' : Facts) → Step now f f' → IsSound f → IsSound f'
Step-IsSound now f f' (Step.nothing same) h = subst IsSound (sym same) h
Step-IsSound now f f' (Step.a_move n t c m) h = Moves-IsSound n t c now f f' m h
Step-IsSound now f f' (Step.a_report n t r m) h = Reports-IsSound n t r f f' m h

module _ (request_hash : Request → String) where
  -- Take any calls on operation tasks, each with its actor and its time, and tables that are sound:
  -- no two tasks have the same number; the last entry of a task's history is its status; its reports
  -- add up to at most its plan and the tolerance; and if it is completed or closed, they add up to
  -- the plan within the tolerance and it names evidence. Let every hold remember a status that a
  -- task can be held in. After the calls, of which any may be refused or repeated, both still hold.
  pub run-IsSound :
      (calls : List (Call × String × ℕ)) (s : Store)
      → HoldsFit s.facts.holds
      → IsSound s.facts
      → HoldsFit (run request_hash calls s).facts.holds × IsSound (run request_hash calls s).facts
  unfolding run
  run-IsSound [] s fit h = (fit, h)
  run-IsSound ((call, actor, now) ∷ calls) s fit h =
      let s' = after_call request_hash s (handle request_hash call actor now s) in
      let step = call-Step request_hash call actor now s fit in
      run-IsSound calls s' (Step-HoldsFit now s.facts s'.facts step fit)
        (Step-IsSound now s.facts s'.facts step h)
