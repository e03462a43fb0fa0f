-- ===== src/Execution/Lookups.antt =====
-- Finding a task in the tables of services/central-api/app/repositories/execution.py before and after
-- an update.
use mini_ogas.Prelude.{
  ℕ, ◌≡◌, refl, true, some, List, [], ◌∷◌, arith, find, find_sound, any, update_first, Bool-cases,
  inl, inr, subst, sym,
}
use mini_ogas.Execution.Model.{Task}
use mini_ogas.Execution.Access.{is_task}
use mini_ogas.Execution.Status.{is_unchanged}

pub is_unchanged_self : (t : Task) → is_unchanged t t ≡ true
is_unchanged_self t = ground arith

-- The task that an update found by its row is found again as it left.
pub find-update_first :
    (n : ℕ) (t : Task) (change : Task → Task) (ts : List Task)
    → (change t).id ≡ n
    → find (is_task n) ts ≡ some t
    → find (is_task n) (update_first (is_unchanged t) change ts) ≡ some (change t)
find-update_first n t change [] same e = absurd (cc)
find-update_first n t change (u ∷ ts) same e = elim (Bool-cases (is_task n u)) [
  | inl here ↦ ground arith
  | inr there ↦
      let later : find (is_task n) ts ≡ some t = ground arith in
      let number = find_sound (is_task n) ts t later in
      ground (arith, find-update_first n t change ts same later)
]

pub found-is_unchanged :
    (n : ℕ) (t : Task) (ts : List Task)
    → find (is_task n) ts ≡ some t
    → any (is_unchanged t) ts ≡ true
found-is_unchanged n t [] e = absurd (cc)
found-is_unchanged n t (u ∷ ts) e = elim (Bool-cases (is_task n u)) [
  | inl here ↦
      let same : u ≡ t = ground arith in
      let test : is_unchanged t u ≡ true =
        subst (λ v. is_unchanged t v ≡ true) (sym same) (is_unchanged_self t) in
      rw test refl
  | inr there ↦
      let rest = found-is_unchanged n t ts (ground arith) in
      elim (Bool-cases (is_unchanged t u)) [ inl this ↦ rw this refl | inr other ↦ rw other rest ]
]
