-- ===== src/Safety/Risk.antt =====
-- The risk levels of services/central-api/app/safety_governor.py.
use mini_ogas.Prelude.{
  ℕ, ◌≡◌, refl, ◌↔◌, ◌⊎◌, true, false, List, [], ◌∷◌, String, codes, codes_eq, lower, arith,
  Bool-cases, inl, inr,
}
use mini_ogas.Safety.{RiskLevel, normalize_risk, is_high_risk}

codes_eq-eq : (xs ys : List ℕ) → codes_eq xs ys ≡ true → xs ≡ ys
codes_eq-eq [] [] h = refl
codes_eq-eq [] (y ∷ ys) h = absurd (ground arith)
codes_eq-eq (x ∷ xs) [] h = absurd (ground arith)
codes_eq-eq (x ∷ xs) (y ∷ ys) h = ground (arith, codes_eq-eq xs ys)

-- The text of the medium level is that of no higher one.
no_higher :
    (text : List ℕ)
    → codes_eq text (codes "medium") ≡ true
    → (codes_eq text (codes "high") ≡ false) × (codes_eq text (codes "critical") ≡ false)
no_higher text h = rw (codes_eq-eq text (codes "medium") h) (refl, refl)

-- A level is high exactly for the fixed high-risk actions and for the texts "high" and "critical",
-- in letters of either case.
pub normalize_risk-high :
    (action risk : String)
    → (normalize_risk action risk ≡ RiskLevel.high) ↔ (
        (is_high_risk action ≡ true)
        ⊎ (codes_eq (lower risk) (codes "high") ≡ true)
        ⊎ (codes_eq (lower risk) (codes "critical") ≡ true))
unfolding normalize_risk
normalize_risk-high action String.[] = ground arith
normalize_risk-high action (String.◌∷◌ c s) = ground arith

-- A level is medium exactly for the text "medium", in letters of either case, with an action that is
-- not one of the fixed high-risk actions. It is low exactly for every text but "medium", "high" and
-- "critical", in letters of either case, with such an action.
pub normalize_risk-low :
    (action risk : String)
    → ((normalize_risk action risk ≡ RiskLevel.medium)
        ↔ ((is_high_risk action ≡ false) × (codes_eq (lower risk) (codes "medium") ≡ true)))
      × ((normalize_risk action risk ≡ RiskLevel.low) ↔ (
          (is_high_risk action ≡ false)
          × (codes_eq (lower risk) (codes "medium") ≡ false)
          × (codes_eq (lower risk) (codes "high") ≡ false)
          × (codes_eq (lower risk) (codes "critical") ≡ false)))
unfolding normalize_risk
normalize_risk-low action String.[] = (ground arith, ground arith)
normalize_risk-low action (String.◌∷◌ c s) =
    elim (Bool-cases (codes_eq (lower (String.◌∷◌ c s)) (codes "medium"))) [
      | inl e ↦
          let (not_high, not_critical) = no_higher (lower (String.◌∷◌ c s)) e in
          (ground (arith, e, not_high, not_critical), ground (arith, e, not_high, not_critical))
      | inr e ↦ (ground (arith, e), ground (arith, e))
    ]
