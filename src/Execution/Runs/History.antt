-- ===== src/Execution/Runs/History.antt =====
-- The status history over sequences of calls
-- (services/central-api/app/repositories/execution.py).
use mini_ogas.Prelude.{
  ℕ, ◌≡◌, refl, Bool, true, false, Option, none, some, List, [], ◌∷◌, ◌++◌, String, subst, sym,
  append-nil, append_assoc, arith, find, All, inl, inr, Bool-cases,
}
use mini_ogas.Execution.Model.{Task, TaskStatus, Facts, HistoryEntry}
use mini_ogas.Execution.Access.{is_task}
use mini_ogas.Execution.Status.{entry_of}
use mini_ogas.Execution.Effects.{HoldsFit, task_follows}
use mini_ogas.Execution.Soundness.{IsSound, IsSoundTask, last_status}
use mini_ogas.Execution.Governed.{Request, Store}
use mini_ogas.Execution.Calls.{Call, handle, after_call, run}
use mini_ogas.Execution.Runs.Steps.{Step, call-Step, Step-HoldsFit}
use mini_ogas.Execution.Runs.Sound.{Step-IsSound}

abbrev pub is_arc : Option TaskStatus → TaskStatus → Bool
is_arc none s = false
is_arc (some r) s = task_follows r s

-- Each entry starts where the one before it for its task ended, and follows an arc.
abbrev pub Chained : List HistoryEntry → List HistoryEntry → Type 0
Chained past [] = Unit
Chained past (e ∷ es) =
    (last_status e.task_id past ≡ e.from_status)
    × (is_arc e.from_status e.to_status ≡ true)
    × Chained (past ++ e ∷ []) es

abbrev pub Extends : List HistoryEntry → List HistoryEntry → Type 0
Extends past later = (es : List HistoryEntry) × (later ≡ past ++ es) × Chained past es

Chained-append :
    (past es ds : List HistoryEntry)
    → Chained past es
    → Chained (past ++ es) ds
    → Chained past (es ++ ds)
Chained-append past [] ds h k = subst (λ es. Chained es ds) (append-nil past) k
Chained-append past (e ∷ es) ds h k = (
  h.0,
  h.1,
  Chained-append (past ++ e ∷ []) es ds h.2
      (subst (λ xs. Chained xs ds) (sym (append_assoc past (e ∷ []) es)) k),
)

Extends-trans : (a b c : List HistoryEntry) → Extends a b → Extends b c → Extends a c
Extends-trans a b c (es, h, k) (ds, h', k') = (
  es ++ ds,
  ground (arith, append_assoc a es ds),
  Chained-append a es ds k (subst (λ xs. Chained xs ds) h k'),
)

Extends-same : (a b : List HistoryEntry) → b ≡ a → Extends a b
Extends-same a b same = ([], ground (arith, append-nil a), tt)

find-All :
    (P : Task → Type 0) (p : Task → Bool) (ts : List Task) (t : Task)
    → find p ts ≡ some t
    → All P ts
    → P t
find-All P p [] t e h = absurd (ground arith)
find-All P p (u ∷ ts) t e h = elim (Bool-cases (p u)) [
  | inl here ↦ subst P (ground (arith)) h.0
  | inr there ↦ find-All P p ts t (ground arith) h.1
]

Step-Extends : (now : ℕ) (f f' : Facts) → Step now f f' → IsSound f → Extends f.history f'.history
Step-Extends now f f' (Step.nothing same) h = Extends-same f.history f'.history (ground arith)
Step-Extends now f f' (Step.a_move n t c m) h =
    let now_sound =
      find-All (IsSoundTask f.history f.reports) (is_task n) f.tasks t m.found h.sound in
    (entry_of t c now ∷ [], m.history_after, (now_sound.logged, m.along, tt))
Step-Extends now f f' (Step.a_report n t r m) h = Extends-same f.history f'.history m.history_same

module _ (request_hash : Request → String) where
  -- Under the same conditions as for sound tables, calls only add entries to the end of the status
  -- history. Each entry that they add starts in the status that the entry before it for its task
  -- ended in, and goes along one of the arcs that `task_follows` lists.
  pub run-Extends :
      (calls : List (Call × String × ℕ)) (s : Store)
      → HoldsFit s.facts.holds
      → IsSound s.facts
      → Extends s.facts.history (run request_hash calls s).facts.history
  unfolding run
  run-Extends [] s fit h = Extends-same s.facts.history s.facts.history refl
  run-Extends ((call, actor, now) ∷ calls) s fit h =
      let s' = after_call request_hash s (handle request_hash call actor now s) in
      let step = call-Step request_hash call actor now s fit in
      Extends-trans s.facts.history s'.facts.history (run request_hash calls s').facts.history
        (Step-Extends now s.facts s'.facts step h)
        (run-Extends calls s' (Step-HoldsFit now s.facts s'.facts step fit)
          (Step-IsSound now s.facts s'.facts step h))
