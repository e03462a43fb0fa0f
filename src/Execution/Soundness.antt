-- ===== src/Execution/Soundness.antt =====
-- What stays true of every operation task under the operations of
-- services/central-api/app/repositories/execution.py: its history ends in its status, its reports
-- stay within its plan, and a task that is done has reports for the plan, and evidence.
use mini_ogas.Prelude.{
  ℕ, ◌+◌, ◌≤◌, ◌≡◌, ◌≢◌, inl, inr, refl, Bool, true, false, not, Option, none, some, List, [], ◌∷◌,
  ◌++◌, arith, find, update_first, All, Bool-cases, is_empty, find_sound, or_else, if◌then◌else◌,
  ◌==◌, subst, sym,
}
use mini_ogas.Execution.Model.{TaskStatus, Task, QuantityReport, HistoryEntry, Facts}
use mini_ogas.Execution.Access.{same_quantity, is_done, is_task}
use mini_ogas.Execution.Status.{Change, changed_task, is_unchanged, entry_of, accounted, total}
use mini_ogas.Execution.Lookups.{is_unchanged_self}
use mini_ogas.Execution.Effects.{Moves, Reports}

-- The status that the last entry for a task moved it to.
abbrev pub last_status : ℕ → List HistoryEntry → Option TaskStatus
last_status n [] = none
last_status n (e ∷ es) =
    or_else (last_status n es) (if e.task_id == n then some e.to_status else none)

abbrev pub has_evidence : Task → Bool
has_evidence t = elim t.completion_evidence_reference [ none ↦ false | some s ↦ not (is_empty s) ]

pub record IsSoundTask (history : List HistoryEntry) (reports : List QuantityReport) (t : Task)
    : Type 0 where
  pub logged : last_status t.id history ≡ some t.status
  pub within_plan : accounted t.id reports ≤ t.planned_quantity + 1
  pub conserved :
      is_done t.status ≡ true → same_quantity (accounted t.id reports) t.planned_quantity ≡ true
  pub evidenced : is_done t.status ≡ true → has_evidence t ≡ true

abbrev pub Distinct : List Task → Type 0
Distinct [] = Unit
Distinct (t ∷ ts) = All (λ u. u.id ≢ t.id) ts × Distinct ts

pub record IsSound (f : Facts) : Type 0 where
  pub distinct : Distinct f.tasks
  pub sound : All (IsSoundTask f.history f.reports) f.tasks

pub last_status-append :
    (n : ℕ) (es : List HistoryEntry) (e : HistoryEntry)
    → last_status n (es ++ e ∷ []) ≡ (if e.task_id == n then some e.to_status else last_status n es)
last_status-append n [] e = ground arith
last_status-append n (d ∷ es) e = ground (arith, last_status-append n es e)

accounted-append :
    (n : ℕ) (rs : List QuantityReport) (r : QuantityReport)
    → accounted n (rs ++ r ∷ []) ≡ accounted n rs + (if r.task_id == n then total r else 0)
accounted-append n [] r = ground arith
accounted-append n (q ∷ rs) r = ground (arith, accounted-append n rs r)

All-others :
    (P Q : Task → Type 0) (n : ℕ) (ts : List Task)
    → ((u : Task) → u.id ≢ n → P u → Q u)
    → All (λ u. u.id ≢ n) ts
    → All P ts
    → All Q ts
All-others P Q n [] keep other h = tt
All-others P Q n (u ∷ ts) keep other h = (keep u other.0 h.0, All-others P Q n ts keep other.1 h.1)

-- Where numbers are distinct, a change to the task found by its number touches no other.
All-update_first :
    (P Q : Task → Type 0) (change : Task → Task) (n : ℕ) (t : Task) (ts : List Task)
    → Distinct ts
    → find (is_task n) ts ≡ some t
    → (P t → Q (change t))
    → ((u : Task) → u.id ≢ n → P u → Q u)
    → All P ts
    → All Q (update_first (is_unchanged t) change ts)
All-update_first P Q change n t [] d e hit keep h = absurd (cc)
All-update_first P Q change n t (u ∷ ts) d e hit keep h = elim (Bool-cases (is_task n u)) [
  | inl here ↦
      let same : u ≡ t = ground arith in
      let other : All (λ v. v.id ≢ n) ts =
        let number : u.id ≡ n = ground arith in subst (λ k. All (λ v. v.id ≢ k) ts) number d.0 in
      let test : is_unchanged t u ≡ true =
        subst (λ v. is_unchanged t v ≡ true) (sym same) (is_unchanged_self t) in
      rw test
        (subst (λ v. P v → Q (change v)) (sym same) hit h.0, All-others P Q n ts keep other h.1)
  | inr there ↦
      let later : find (is_task n) ts ≡ some t = ground arith in
      let number : is_task n t ≡ true = find_sound (is_task n) ts t later in
      let test : is_unchanged t u ≡ false = ground arith in
      let away : u.id ≢ n = ground arith in
      rw test (keep u away h.0, All-update_first P Q change n t ts d.1 later hit keep h.1)
]

All-update_first_id :
    (n : ℕ) (test : Task → Bool) (change : Task → Task) (ts : List Task)
    → ((t : Task) → (change t).id ≡ t.id)
    → All (λ u. u.id ≢ n) ts
    → All (λ u. u.id ≢ n) (update_first test change ts)
All-update_first_id n test change [] same h = tt
All-update_first_id n test change (t ∷ ts) same h = elim (Bool-cases (test t)) [
  | inl here ↦ rw here (rw same h.0, h.1)
  | inr there ↦ rw there (h.0, All-update_first_id n test change ts same h.1)
]

-- A change that keeps numbers keeps them distinct.
Distinct-update_first :
    (test : Task → Bool) (change : Task → Task) (ts : List Task)
    → ((t : Task) → (change t).id ≡ t.id)
    → Distinct ts
    → Distinct (update_first test change ts)
Distinct-update_first test change [] same h = tt
Distinct-update_first test change (t ∷ ts) same h = elim (Bool-cases (test t)) [
  | inl here ↦ rw here (subst (λ k. All (λ u. u.id ≢ k) ts) (sym (same t)) h.0, h.1)
  | inr there ↦ rw there (
    All-update_first_id t.id test change ts same h.0,
    Distinct-update_first test change ts same h.1,
  )
]

changed_task_sound :
    (n : ℕ) (t : Task) (c : Change) (now : ℕ) (f f' : Facts)
    → Moves n t c now f f'
    → t.id ≡ n
    → IsSoundTask f.history f.reports t
    → IsSoundTask (f.history ++ entry_of t c now ∷ []) f.reports (changed_task c now t)
changed_task_sound n t c now f f' m number h =
    ground (arith, number, last_status-append t.id f.history (entry_of t c now))

pub other_task_sound :
    (u : Task) (es : List HistoryEntry) (rs : List QuantityReport) (e : HistoryEntry)
    → u.id ≢ e.task_id
    → IsSoundTask es rs u
    → IsSoundTask (es ++ e ∷ []) rs u
other_task_sound u es rs e away h = ground (arith, last_status-append u.id es e)

pub Moves-IsSound :
    (n : ℕ) (t : Task) (c : Change) (now : ℕ) (f f' : Facts)
    → Moves n t c now f f'
    → IsSound f
    → IsSound f'
Moves-IsSound n t c now f f' m h =
    let number : t.id ≡ n = ground (arith, find_sound (is_task n) f.tasks t m.found) in
    let tasks = update_first (is_unchanged t) (changed_task c now) f.tasks in
    let history = f.history ++ entry_of t c now ∷ [] in
    let sound : All (IsSoundTask history f.reports) tasks =
      All-update_first (IsSoundTask f.history f.reports) (IsSoundTask history f.reports)
        (changed_task c now) n t f.tasks h.distinct m.found
        (changed_task_sound n t c now f f' m number)
        (λ u away. other_task_sound u f.history f.reports (entry_of t c now) (ground arith))
        h.sound in
    record {
      distinct = subst Distinct (sym m.tasks_after) (
          Distinct-update_first (is_unchanged t) (changed_task c now) f.tasks (λ u. refl)
            h.distinct);
      sound = rw (m.tasks_after, m.history_after, m.reports_after) sound;
    }

update_first-same : (test : Task → Bool) (ts : List Task) → update_first test (λ t. t) ts ≡ ts
update_first-same test [] = refl
update_first-same test (t ∷ ts) = ground (arith, update_first-same test ts)

reported_task_sound :
    (n : ℕ) (t : Task) (r : QuantityReport) (f f' : Facts)
    → Reports n t r f f'
    → t.id ≡ n
    → IsSoundTask f.history f.reports t
    → IsSoundTask f.history (f.reports ++ r ∷ []) t
reported_task_sound n t r f f' m number h =
    ground (arith, number, accounted-append t.id f.reports r)

unreported_task_sound :
    (u : Task) (es : List HistoryEntry) (rs : List QuantityReport) (r : QuantityReport)
    → u.id ≢ r.task_id
    → IsSoundTask es rs u
    → IsSoundTask es (rs ++ r ∷ []) u
unreported_task_sound u es rs r away h = ground (arith, accounted-append u.id rs r)

pub Reports-IsSound :
    (n : ℕ) (t : Task) (r : QuantityReport) (f f' : Facts)
    → Reports n t r f f'
    → IsSound f
    → IsSound f'
Reports-IsSound n t r f f' m h =
    let number : t.id ≡ n = ground (arith, find_sound (is_task n) f.tasks t m.found) in
    let reports = f.reports ++ r ∷ [] in
    let sound : All (IsSoundTask f.history reports)
        (update_first (is_unchanged t) (λ u. u) f.tasks) =
      All-update_first (IsSoundTask f.history f.reports) (IsSoundTask f.history reports) (λ u. u) n
        t f.tasks h.distinct m.found (reported_task_sound n t r f f' m number)
        (λ u away. unreported_task_sound u f.history f.reports r (ground arith)) h.sound in
    record {
      distinct = subst Distinct (sym m.tasks_same) h.distinct;
      sound =
          rw (m.tasks_same, m.history_same, m.reports_after)
            (rw (update_first-same (is_unchanged t) f.tasks) at sound);
    }
