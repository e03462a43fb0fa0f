-- ===== src/Prelude/Actions.antt =====
-- Transactions: an action takes the state, and returns its result with the state it leaves, or raises.

use mathlib.Core.Path.{◌≡◌, refl, sym, ap, subst, ◌∙◌}
use mathlib.Core.Logic.{inl, inr}
use native.Mathlib.Omega.{arith}
use mathlib.Core.Bool.{Bool, true, false}
use mathlib.Core.Option.{Option, none, some}
use mini_ogas.Prelude.Results.{Result, ok, err, Result-cases}

abbrev pub Transaction : Type 0 → Type 0 → Type 0 → Type 0
Transaction S E A = S → Result E (A × S)

module _ {S E A : Type 0} where
  abbrev pub pure : A → Transaction S E A
  pure a s = ok (a, s)

  abbrev pub raise : E → Transaction S E A
  raise e s = err e

  abbrev pub gets : (S → A) → Transaction S E A
  gets r s = ok (r s, s)

  abbrev pub or_fail : Option A → E → Transaction S E A
  or_fail none e = raise e
  or_fail (some a) e = pure a

module _ {S E : Type 0} where
  abbrev pub check : Bool → E → Transaction S E (Unit {0})
  check true e s = ok (tt, s)
  check false e s = err e

  abbrev pub modify : (S → S) → Transaction S E (Unit {0})
  modify change s = ok (tt, change s)

infixl 5 ◌>>=◌ ◌>>◌
module _ {S E A B : Type 0} where
  -- The next part sees the state that this part leaves, and does not run where this part raises.
  abbrev pub ◌>>=◌ : Transaction S E A → (A → Transaction S E B) → Transaction S E B
  ◌>>=◌ part next before = elim (part before) [
    | ok (a, after) ↦ next a after
    | err error ↦ err error
  ]

abbrev pub ◌>>◌ :
    {S E B : Type 0} → Transaction S E (Unit {0}) → Transaction S E B → Transaction S E B
m >> k = m >>= λ _. k

-- A chain that succeeds, taken apart at its first part.
pub bind-ok :
    {S E A B : Type 0} (part : Transaction S E A) (next : A → Transaction S E B) (before : S)
    (r : B × S)
    → (part >>= next) before ≡ ok r
    → (a : A) × (after : S) × (part before ≡ ok (a, after)) × (next a after ≡ ok r)
bind-ok part next before r h = elim (Result-cases (part before)) [
  | inl ((a, after), e) ↦ (
    a,
    after,
    e,
    sym (ap (λ x. (elim x [ ok (a, after) ↦ next a after | err error ↦ err error ])) e) ∙ h,
  )
  | inr (error, e) ↦ absurd (ground arith)
]

-- An action that leaves the state as it is.
abbrev pub Reads : {S E A : Type 0} → Transaction S E A → Type 0
Reads {S} {E} {A} part =
    (before : S) (a : A) (after : S) → part before ≡ ok (a, after) → after ≡ before

pub bind-Reads :
    {S E A B : Type 0} (part : Transaction S E A) (next : A → Transaction S E B) (before : S)
    (r : B × S)
    → Reads part
    → (part >>= next) before ≡ ok r
    → (a : A) × (part before ≡ ok (a, before)) × (next a before ≡ ok r)
bind-Reads part next before r reads h =
    let (a, after, e, rest) = bind-ok part next before r h in
    let same = reads before a after e in
    (a, subst (λ t. part before ≡ ok (a, t)) same e, subst (λ t. next a t ≡ ok r) same rest)

pub Reads-bind :
    {S E A B : Type 0} (part : Transaction S E A) (next : A → Transaction S E B)
    → Reads part
    → ((a : A) → Reads (next a))
    → Reads (part >>= next)
Reads-bind part next reads then_reads before b after h =
    let (a, e, rest) = bind-Reads part next before (b, after) reads h in
    then_reads a before b after rest

-- The outcome of a run.
abbrev pub is_ok : {E A : Type 0} → Result E A → Bool
is_ok (ok a) = true
is_ok (err e) = false

abbrev pub state_of : {S E A : Type 0} → Result E (A × S) → S → S
state_of (ok (a, s)) default = s
state_of (err e) default = default

pub ran :
    {S E A : Type 0} (r : Result E (A × S)) (default : S)
    → is_ok r ≡ true
    → (a : A) × (r ≡ ok (a, state_of r default))
ran (ok (a, s)) default h = (a, refl)
ran (err e) default h = absurd (ground arith)
