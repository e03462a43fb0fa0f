-- ===== src/Planning/Order.antt =====
-- The order of a plan (services/production-planner/app/main.py).
use mini_ogas.Prelude.{◌≤◌, List, [], ◌∷◌, map, arith, All, Bool-cases, inl, inr}
use mini_ogas.Planning.{
  PlanningRequest, PlanItem, is_first, item_of, insert_sorted, sort, code_before, distinct,
  wanted_codes, plan,
}

-- No item stands behind a less urgent one.
abbrev pub IsUrgentFirst : List PlanItem → Type 0
IsUrgentFirst [] = Unit
IsUrgentFirst (i ∷ is) = All (λ j. i.priority ≤ j.priority) is × IsUrgentFirst is

All-behind :
    (i j : PlanItem) (is : List PlanItem)
    → i.priority ≤ j.priority
    → All (λ k. j.priority ≤ k.priority) is
    → All (λ k. i.priority ≤ k.priority) is
All-behind i j [] le h = tt
All-behind i j (k ∷ is) le h = (omega (arith, h.0), All-behind i j is le h.1)

All-insert_sorted :
    (i j : PlanItem) (is : List PlanItem)
    → i.priority ≤ j.priority
    → All (λ k. i.priority ≤ k.priority) is
    → All (λ k. i.priority ≤ k.priority) (insert_sorted is_first j is)
unfolding insert_sorted
All-insert_sorted i j [] le h = (le, tt)
All-insert_sorted i j (k ∷ is) le h = elim (Bool-cases (is_first k j)) [
  | inl first ↦ rw first (h.0, All-insert_sorted i j is le h.1)
  | inr behind ↦ rw behind (le, h)
]

insert_sorted-IsUrgentFirst :
    (j : PlanItem) (is : List PlanItem)
    → IsUrgentFirst is
    → IsUrgentFirst (insert_sorted is_first j is)
unfolding insert_sorted
insert_sorted-IsUrgentFirst j [] h = (tt, tt)
insert_sorted-IsUrgentFirst j (k ∷ is) h = elim (Bool-cases (is_first k j)) [
  | inl first ↦
      rw first (All-insert_sorted k j is (ground arith) h.0, insert_sorted-IsUrgentFirst j is h.1)
  | inr behind ↦
      let le : j.priority ≤ k.priority = ground arith in
      rw behind ((le, All-behind j k is le h.0), h)
]

sort-IsUrgentFirst : (is : List PlanItem) → IsUrgentFirst (sort is_first is)
unfolding sort
sort-IsUrgentFirst [] = tt
sort-IsUrgentFirst (i ∷ is) =
    insert_sorted-IsUrgentFirst i (sort is_first is) (sort-IsUrgentFirst is)

-- A plan has its most urgent items first.
pub plan-IsUrgentFirst : (r : PlanningRequest) → IsUrgentFirst (plan r)
unfolding plan
plan-IsUrgentFirst r =
    sort-IsUrgentFirst (map (item_of r) (sort code_before (distinct (wanted_codes r))))
