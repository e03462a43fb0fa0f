-- ===== src/Execution/Orders/Sequence.antt =====
-- The operations of a routing by their sequence (services/central-api/app/repositories/execution.py).
use mini_ogas.Prelude.{
  ℕ, ◌≤◌, ◌≡◌, refl, Bool, List, [], ◌∷◌, arith, count, All, leb, Bool-cases, inl, inr,
}
use mini_ogas.Execution.Orders.{Operation}
use mini_ogas.Execution.Orders.Dispatch.{insert_operation, sorted_operations}

abbrev pub IsAscending : List Operation → Type 0
IsAscending [] = Unit {0}
IsAscending (o ∷ os) = All (λ q. o.sequence ≤ q.sequence) os × IsAscending os

All-insert_operation :
    (n : ℕ) (o : Operation) (os : List Operation)
    → n ≤ o.sequence
    → All (λ q. n ≤ q.sequence) os
    → All (λ q. n ≤ q.sequence) (insert_operation o os)
All-insert_operation n o [] h all = (h, tt)
All-insert_operation n o (q ∷ qs) h (a, all) = elim (Bool-cases (leb o.sequence q.sequence)) [
  | inl e ↦ rw e (h, (a, all))
  | inr e ↦ rw e (a, All-insert_operation n o qs h all)
]

at_least :
    (n m : ℕ) (os : List Operation)
    → n ≤ m
    → All (λ q. m ≤ q.sequence) os
    → All (λ q. n ≤ q.sequence) os
at_least n m [] h all = tt
at_least n m (o ∷ os) h (a, all) = (omega (arith, h, a), at_least n m os h all)

insert_operation-IsAscending :
    (o : Operation) (os : List Operation) → IsAscending os → IsAscending (insert_operation o os)
insert_operation-IsAscending o [] h = (tt, tt)
insert_operation-IsAscending o (q ∷ qs) (all, rest) =
    elim (Bool-cases (leb o.sequence q.sequence)) [
      | inl e ↦
          let le : o.sequence ≤ q.sequence = ground arith in
          rw e ((le, at_least o.sequence q.sequence qs le all), (all, rest))
      | inr e ↦
          let le : q.sequence ≤ o.sequence = ground arith in
          rw e (All-insert_operation q.sequence o qs le all, insert_operation-IsAscending o qs rest)
    ]

pub sorted_operations-IsAscending : (os : List Operation) → IsAscending (sorted_operations os)
sorted_operations-IsAscending [] = tt
sorted_operations-IsAscending (o ∷ os) =
    insert_operation-IsAscending o (sorted_operations os) (sorted_operations-IsAscending os)

count-insert_operation :
    (test : Operation → Bool) (o : Operation) (os : List Operation)
    → count test (insert_operation o os) ≡ count test (o ∷ os)
count-insert_operation test o [] = refl
count-insert_operation test o (q ∷ qs) = ground (arith, count-insert_operation test o qs)

pub count-sorted_operations :
    (test : Operation → Bool) (os : List Operation)
    → count test (sorted_operations os) ≡ count test os
count-sorted_operations test [] = refl
count-sorted_operations test (o ∷ os) =
    ground
      (arith, count-insert_operation test o (sorted_operations os), count-sorted_operations test os)
