-- ===== src/Outbox/Selection.antt =====
-- The first unfinished message, and the rows that a claim selects (services/central-api/app/core/outbox.py).
use mini_ogas.Prelude.{
  ℕ, zero, suc, ◌≤◌, ◌≡◌, ◌≢◌, ◌⊎◌, inl, inr, refl, sym, subst, Bool, true, false, ◌&&◌, List, [],
  ◌∷◌, String, arith, leb, any, count, All, Bool-cases,
}
use mini_ogas.Outbox.{
  Message, is_pending, is_unfinished, take, precedes, is_predecessor, is_candidate, select,
  insert_message, in_order,
}

abbrev pub In : Message → List Message → Type 0
In m [] = ⊥
In m (n ∷ ns) = (n ≡ m) ⊎ In m ns

pub any-In :
    (test : Message → Bool) (m : Message) (ms : List Message)
    → In m ms
    → test m ≡ true
    → any test ms ≡ true
any-In test m [] w h = absurd w
any-In test m (n ∷ ns) (inl e) h =
    let here : test n ≡ true = subst (λ x. test x ≡ true) (sym e) h in ground (arith, here)
any-In test m (n ∷ ns) (inr w) h = ground (arith, any-In test m ns w h)

module _ (text_before : String → String → Bool)
    (irreflexive : (a : String) → text_before a a ≡ false)
    (transitive : (a b c : String)
      → text_before a b ≡ true
      → text_before b c ≡ true
      → text_before a c ≡ true) where
  precedes_self : (m : Message) → precedes text_before m m ≡ false
  precedes_self m = ground (arith, irreflexive m.message_id)

  precedes_trans :
      (a b c : Message)
      → precedes text_before a b ≡ true
      → precedes text_before b c ≡ true
      → precedes text_before a c ≡ true
  precedes_trans a b c h k = ground (arith, transitive a.message_id b.message_id c.message_id)

  abbrev is_earlier : Message → Message → Bool
  is_earlier m x = is_unfinished x && precedes text_before x m

  none_earlier :
      (m : Message) (ms : List Message)
      → any is_unfinished ms ≡ false
      → any (is_earlier m) ms ≡ false
  none_earlier m [] h = refl
  none_earlier m (n ∷ ns) h = ground (arith, none_earlier m ns)

  below_first :
      (n m : Message) (ms : List Message)
      → precedes text_before n m ≡ true
      → any (is_earlier m) ms ≡ false
      → any (is_earlier n) ms ≡ false
  below_first n m [] before h = refl
  below_first n m (x ∷ xs) before h =
      ground (arith, before, precedes_trans x n m, below_first n m xs before)

  -- Of unfinished messages there is one that no unfinished one precedes.
  least :
      (ms : List Message)
      → any is_unfinished ms ≡ true
      → (m : Message) × In m ms × (is_unfinished m ≡ true) × (any (is_earlier m) ms ≡ false)
  least [] h = absurd (ground arith)
  least (n ∷ ns) h = elim (Bool-cases (any is_unfinished ns)) [
    | inr e ↦
        (n, inl refl, ground (arith, e), ground (arith, e, precedes_self n, none_earlier n ns e))
    | inl e ↦
        let (m, there, open_, first) = least ns e in
        elim (Bool-cases (is_earlier m n)) [
          | inr later ↦ (m, inr there, open_, ground (arith, later, first))
          | inl earlier ↦ (
            n,
            inl refl,
            ground (arith, earlier),
            ground (arith, precedes_self n, below_first n m ns (ground (arith, earlier)) first),
          )
        ]
  ]

  no_predecessor :
      (m : Message) (ms : List Message)
      → any (is_earlier m) ms ≡ false
      → any (is_predecessor text_before m) ms ≡ false
  no_predecessor m [] h = refl
  no_predecessor m (n ∷ ns) h = ground (arith, no_predecessor m ns)

  pub candidate_there :
      (now : ℕ) (ms : List Message)
      → ((m : Message)
          → In m ms
          → is_unfinished m ≡ true
          → (is_pending m.status && leb m.available_at now) ≡ true)
      → any is_unfinished ms ≡ true
      → any (is_candidate text_before now ms) ms ≡ true
  candidate_there now ms due some_left =
      let (m, there, unfinished, first) = least ms some_left in
      let free = no_predecessor m ms first in
      any-In (is_candidate text_before now ms) m ms there
        (ground (arith, due m there unfinished, free))

  -- The rows that a claim looks at are pending ones of the queue, and there is one.
  pub selected :
      (test : Message → Bool) (P : Message → Type 0) (ms : List Message)
      → ((m : Message) → In m ms → test m ≡ true → P m)
      → All P (select text_before test ms)
  selected test P [] keep = tt
  selected test P (m ∷ ms) keep = elim (Bool-cases (test m)) [
    | inl e ↦ rw e (keep m (inl refl) e, selected test P ms (λ x w t. keep x (inr w) t))
    | inr e ↦ rw e (selected test P ms (λ x w t. keep x (inr w) t))
  ]

  All-insert :
      (P : Message → Type 0) (m : Message) (ms : List Message)
      → P m
      → All P ms
      → All P (insert_message text_before m ms)
  All-insert P m [] h all = (h, tt)
  All-insert P m (n ∷ ns) h (a, all) = elim (Bool-cases (precedes text_before n m)) [
    | inl e ↦ rw e (a, All-insert P m ns h all)
    | inr e ↦ rw e (h, (a, all))
  ]

  pub All-in_order :
      (P : Message → Type 0) (ms : List Message) → All P ms → All P (in_order text_before ms)
  All-in_order P [] all = tt
  All-in_order P (m ∷ ms) (a, all) =
      All-insert P m (in_order text_before ms) a (All-in_order P ms all)

  pub head_of :
      (P : Message → Type 0) (n : ℕ) (ms : List Message)
      → All P ms
      → 1 ≤ n
      → count (λ m. true) ms ≢ 0
      → (r : Message) × (rows : List Message) × (take n ms ≡ r ∷ rows) × P r
  head_of P zero ms all h some_left = absurd (omega (arith, h))
  head_of P (suc n) [] all h some_left = absurd (some_left refl)
  head_of P (suc n) (m ∷ ms) (a, all) h some_left = (m, take n ms, refl, a)

  count-insert :
      (m : Message) (ms : List Message)
      → count (λ x. true) (insert_message text_before m ms) ≡ suc (count (λ x. true) ms)
  count-insert m [] = refl
  count-insert m (n ∷ ns) = ground (arith, count-insert m ns)

  pub count-in_order :
      (ms : List Message) → count (λ x. true) (in_order text_before ms) ≡ count (λ x. true) ms
  count-in_order [] = refl
  count-in_order (m ∷ ms) =
      ground (arith, count-insert m (in_order text_before ms), count-in_order ms)

  pub count-select :
      (test : Message → Bool) (ms : List Message)
      → count (λ x. true) (select text_before test ms) ≡ count test ms
  count-select test [] = refl
  count-select test (m ∷ ms) = ground (arith, count-select test ms)
