-- ===== src/Planning/Items.antt =====
-- The items of a plan (services/production-planner/app/main.py).
use mini_ogas.Prelude.{
  ◌≤◌, ◌≡◌, refl, ap, ◌∙◌, Bool, not, ◌&&◌, ◌||◌, ◌++◌, List, [], ◌∷◌, map, String, str_eq, eq_iff,
  arith, All, any, count, ltb, if◌then◌else◌, Bool-cases, inl, inr,
}
use mini_ogas.Planning.{
  PlanningRequest, PlanItem, AllocationOrder, MarketSignal, codes_of_orders, committed, item_of,
  insert_sorted, sort, distinct, wanted_codes, plan, code_before, is_first,
}

-- An item takes on orders: it makes what they need in all, and is as urgent as the most urgent.
pub record Serves (orders : List AllocationOrder) (i : PlanItem) : Type 0 where
  pub enough : committed orders ≤ i.target_quantity
  pub some_made : 5 ≤ i.target_quantity
  pub urgent : All (λ o. i.priority ≤ o.priority) orders
  pub no_later : i.priority ≤ 6

module _ {A : Type 0} (comes_before : A → A → Bool) where
  All-insert_sorted :
      (P : A → Type 0) (a : A) (bs : List A)
      → P a
      → All P bs
      → All P (insert_sorted comes_before a bs)
  unfolding insert_sorted
  All-insert_sorted P a [] h k = (h, tt)
  All-insert_sorted P a (b ∷ bs) h k = elim (Bool-cases (comes_before b a)) [
    | inl first ↦ rw first (k.0, All-insert_sorted P a bs h k.1)
    | inr after ↦ rw after (h, k)
  ]

  pub All-sort : (P : A → Type 0) (bs : List A) → All P bs → All P (sort comes_before bs)
  unfolding sort
  All-sort P [] h = tt
  All-sort P (b ∷ bs) h = All-insert_sorted P b (sort comes_before bs) h.0 (All-sort P bs h.1)

  count-insert_sorted :
      (p : A → Bool) (a : A) (bs : List A)
      → count p (insert_sorted comes_before a bs) ≡ count p (a ∷ bs)
  unfolding insert_sorted
  count-insert_sorted p a [] = refl
  count-insert_sorted p a (b ∷ bs) = ground (arith, count-insert_sorted p a bs)

  pub count-sort : (p : A → Bool) (bs : List A) → count p (sort comes_before bs) ≡ count p bs
  unfolding sort
  count-sort p [] = refl
  count-sort p (b ∷ bs) =
      ground (arith, count-insert_sorted p b (sort comes_before bs), count-sort p bs)

count-items :
    (r : PlanningRequest) (code : String) (cs : List String)
    → count (λ i. str_eq i.product_code code) (map (item_of r) cs) ≡ count (λ c. str_eq c code) cs
unfolding item_of
count-items r code [] = refl
count-items r code (c ∷ cs) = ground (arith, count-items r code cs)

any-count : {A : Type 0} (p : A → Bool) (xs : List A) → any p xs ≡ ltb 0 (count p xs)
any-count p [] = refl
any-count p (a ∷ rest) = ground (arith, any-count p rest)

count-distinct :
    (x : String) (cs : List String)
    → count (λ c. str_eq c x) (distinct cs) ≡ (if any (λ c. str_eq c x) cs then 1 else 0)
unfolding distinct
count-distinct x [] = refl
count-distinct x (c ∷ cs) = elim (Bool-cases (str_eq c x)) [
  | inl same ↦
      let test : any (λ d. str_eq d c) (distinct cs) ≡ any (λ d. str_eq d x) (distinct cs) =
        ap (λ y. any (λ d. str_eq d y) (distinct cs)) ((eq_iff c x).0 same) in
      ground (arith, same, test, any-count (λ d. str_eq d x) (distinct cs), count-distinct x cs)
  | inr other ↦ ground (arith, other, count-distinct x cs)
]

-- An order still has to be made.
abbrev pub is_open_order : String → AllocationOrder → Bool
is_open_order code o =
    str_eq o.product_code code
    && not (str_eq o.status "completed")
    && not (str_eq o.status "cancelled")
    && not (str_eq o.status "rejected")

any_append :
    {A : Type 0} (p : A → Bool) (xs ys : List A) → any p (xs ++ ys) ≡ (any p xs || any p ys)
any_append p [] ys = refl
any_append p (a ∷ rest) ys = ground (arith, any_append p rest ys)

any_signal :
    (code : String) (ss : List MarketSignal)
    → any (λ c. str_eq c code) (map (λ s. s.product_code) ss)
      ≡ any (λ s. str_eq s.product_code code) ss
any_signal code [] = refl
any_signal code (s ∷ ss) = ground (arith, any_signal code ss)

any_order :
    (code : String) (os : List AllocationOrder)
    → any (λ c. str_eq c code) (codes_of_orders os) ≡ any (is_open_order code) os
any_order code [] = refl
any_order code (o ∷ os) = ground (arith, any_order code os)

wanted_codes_lem :
    (r : PlanningRequest) (code : String)
    → any (λ c. str_eq c code) (wanted_codes r) ≡ (
        any (λ s. str_eq s.product_code code) r.market_signals
        || any (is_open_order code) r.allocation_orders)
wanted_codes_lem r code = ground (
  arith,
  any_append (λ c. str_eq c code) (map (λ s. s.product_code) r.market_signals)
      (codes_of_orders r.allocation_orders),
  any_signal code r.market_signals,
  any_order code r.allocation_orders,
)

-- A plan has exactly one item for a product that has a market signal, or an order whose status is
-- none of completed, cancelled and rejected, and it has none for any other product.
pub plan-count :
    (r : PlanningRequest) (code : String)
    → count (λ i. str_eq i.product_code code) (plan r) ≡ (
        if any (λ s. str_eq s.product_code code) r.market_signals
          || any (is_open_order code) r.allocation_orders
        then 1
        else 0)
unfolding plan
plan-count r code =
    let cs = sort code_before (distinct (wanted_codes r)) in
    count-sort is_first (λ i. str_eq i.product_code code) (map (item_of r) cs)
    ∙ count-items r code cs
    ∙ count-sort code_before (λ c. str_eq c code) (distinct (wanted_codes r))
    ∙ count-distinct code (wanted_codes r)
    ∙ ap (λ b. if b then 1 else 0) (wanted_codes_lem r code)
