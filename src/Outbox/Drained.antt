-- ===== src/Outbox/Drained.antt =====
-- A worker that claims and publishes drains the queue (services/central-api/app/core/outbox.py).
use mini_ogas.Prelude.{
  ℕ, zero, suc, ◌-◌, ◌≤◌, ◌<◌, ◌≡◌, ◌≢◌, inl, inr, refl, sym, subst, max, Bool, true, false, ◌&&◌,
  ◌||◌, some, List, [], ◌∷◌, String, str_eq, eq_refl, arith, leb, any, count, change_all,
  if◌then◌else◌, Bool-cases,
}
use mini_ogas.Outbox.{
  MessageStatus, Message, Claim, is_pending, is_unfinished, is_stale, reset, is_pending_id, claimed,
  claim_of, claim_rows, is_candidate, select, in_order, candidates, claim_pending,
  is_unpublished_id, mark_published,
}
use mini_ogas.Outbox.Rounds.{
  publish_all, publish_all-count, claim_rows-count, any-count, first_row, claim_rows-first,
}
use mini_ogas.Outbox.Selection.{
  In, any-In, candidate_there, selected, All-in_order, head_of, count-in_order, count-select,
}

In-change_all :
    (test : Message → Bool) (change : Message → Message) (m : Message) (ms : List Message)
    → In m (change_all test change ms)
    → (n : Message) × In n ms × ((if test n then change n else n) ≡ m)
In-change_all test change m [] w = absurd w
In-change_all test change m (n ∷ ns) (inl e) = (n, inl refl, e)
In-change_all test change m (n ∷ ns) (inr w) =
    let (k, there, e) = In-change_all test change m ns w in (k, inr there, e)

abbrev is_of : Message → Claim → Bool
is_of m c = str_eq m.message_id c.message_id

-- A message that is not claimed is as it was.
unclaimed :
    (now : ℕ) (token : String) (rows : List Message) (m : Message) (ms : List Message)
    → In m (claim_rows now token rows ms).1
    → any (is_of m) (claim_rows now token rows ms).0 ≡ false
    → In m ms
unfolding claim_rows
unclaimed now token [] m ms w free = w
unclaimed now token (r ∷ rows) m ms w free =
    elim (Bool-cases (any (is_pending_id r.message_id) ms)) [
      | inl there ↦
          let after = change_all (is_pending_id r.message_id) (claimed now token) ms in
          let e = claim_rows-first now token r rows ms there in
          let w' : In m (claim_rows now token rows after).1 =
            subst (λ (x : List Claim × List Message). In m x.1) e w in
          let free' : (is_of m (claim_of token r)
                || any (is_of m) (claim_rows now token rows after).0)
              ≡ false =
            subst (λ (x : List Claim × List Message). any (is_of m) x.0 ≡ false) e free in
          let back = unclaimed now token rows m after w' (ground (arith, free')) in
          let (n, before, same) =
            In-change_all (is_pending_id r.message_id) (claimed now token) m ms back in
          elim (Bool-cases (is_pending_id r.message_id n)) [
            | inl t ↦ absurd (ground (arith, t, same, free'))
            | inr t ↦ let kept : n ≡ m = ground (arith, t, same) in subst (λ x. In x ms) kept before
          ]
      | inr gone ↦
          let e : claim_rows now token (r ∷ rows) ms ≡ claim_rows now token rows ms =
            ground (arith, gone) in
          unclaimed now token rows m ms (subst (λ (x : List Claim × List Message). In m x.1) e w)
            (subst (λ (x : List Claim × List Message). any (is_of m) x.0 ≡ false) e free)
    ]

-- What is unfinished after the publications was not claimed.
unpublished :
    (now : ℕ) (cs : List Claim) (m : Message) (ms : List Message)
    → In m (publish_all now cs ms)
    → is_unfinished m ≡ true
    → In m ms × (any (is_of m) cs ≡ false)
unfolding mark_published
unpublished now [] m ms w open_ = (w, refl)
unpublished now (c ∷ cs) m ms w open_ =
    let (there, free) = unpublished now cs m (mark_published c.message_id now ms).1 w open_ in
    let publish : Message → Message = λ m. record m {
      status = MessageStatus.published;
      published_at = some now;
      claim_token = "";
      last_error = "";
    } in
    let (n, before, e) = In-change_all (is_unpublished_id c.message_id) publish m ms there in
    elim (Bool-cases (is_unpublished_id c.message_id n)) [
      | inl t ↦ absurd (ground (arith, t, e))
      | inr t ↦
          let same : n ≡ m = ground (arith, t, e) in
          (subst (λ x. In x ms) same before, ground (arith, free, t, same, open_))
    ]

-- A row that a claim looks at when it comes: it is available, and free or its lease has run out.
abbrev pub is_due : ℕ → ℕ → Message → Bool
is_due now lease m =
    leb m.available_at now && (is_pending m.status || is_stale (now - max 1 lease) m)

abbrev pub AllDue : ℕ → ℕ → List Message → Type 0
AllDue now lease ms = (m : Message) → In m ms → is_unfinished m ≡ true → is_due now lease m ≡ true

count-reset :
    (t : ℕ) (ms : List Message)
    → count is_unfinished (change_all (is_stale t) reset ms) ≡ count is_unfinished ms
count-reset t [] = refl
count-reset t (m ∷ ms) = ground (arith, count-reset t ms)

any-positive : (ms : List Message) → 1 ≤ count is_unfinished ms → any is_unfinished ms ≡ true
any-positive [] h = absurd (omega (arith, h))
any-positive (m ∷ ms) h = ground (arith, any-positive ms)

reset-AllDue :
    (now lease : ℕ) (ms : List Message)
    → AllDue now lease ms
    → (m : Message) → In m (change_all (is_stale (now - max 1 lease)) reset ms)
    → is_unfinished m ≡ true
    → (is_pending m.status && leb m.available_at now) ≡ true
reset-AllDue now lease ms due m w open_ =
    let (n, there, e) = In-change_all (is_stale (now - max 1 lease)) reset m ms w in
    elim (Bool-cases (is_stale (now - max 1 lease) n)) [
      | inl t ↦
          let same : reset n ≡ m = ground (arith, t, e) in
          let unfinished : is_unfinished n ≡ true = ground (arith, t) in
          let d = due n there unfinished in
          subst (λ x. (is_pending x.status && leb x.available_at now) ≡ true) same
            (ground (arith, d))
      | inr t ↦
          let same : n ≡ m = ground (arith, t, e) in
          let d = due n there (subst (λ x. is_unfinished x ≡ true) (sym same) open_) in
          subst (λ x. (is_pending x.status && leb x.available_at now) ≡ true) same
            (ground (arith, d, t))
    ]

module _ (text_before : String → String → Bool) (now limit lease : ℕ) (token : String) where
  -- A claim, and the publication of what was claimed.
  pub round : List Message → List Message
  round ms =
      publish_all now (claim_pending text_before now limit lease token ms).0
        (claim_pending text_before now limit lease token ms).1

  pub rounds : ℕ → List Message → List Message
  rounds zero ms = ms
  rounds (suc n) ms = rounds n (round ms)

  round-AllDue : (ms : List Message) → AllDue now lease ms → AllDue now lease (round ms)
  unfolding round claim_pending
  round-AllDue ms due m w open_ =
      let released = change_all (is_stale (now - max 1 lease)) reset ms in
      let rows = candidates text_before now limit released in
      let (there, free) =
        unpublished now (claim_rows now token rows released).0 m
          (claim_rows now token rows released).1 w open_ in
      let ready =
        reset-AllDue now lease ms due m (unclaimed now token rows m released there free) open_ in
      ground (arith, ready)

  round-count_le : (ms : List Message) → count is_unfinished (round ms) ≤ count is_unfinished ms
  unfolding round claim_pending
  round-count_le ms =
      let released = change_all (is_stale (now - max 1 lease)) reset ms in
      let rows = candidates text_before now limit released in
      omega (
        arith,
        count-reset (now - max 1 lease) ms,
        claim_rows-count now token rows released,
        publish_all-count now (claim_rows now token rows released).0
            (claim_rows now token rows released).1,
      )

  module _ (irreflexive : (a : String) → text_before a a ≡ false)
      (transitive : (a b c : String)
        → text_before a b ≡ true
        → text_before b c ≡ true
        → text_before a c ≡ true) where
    round-count :
        (ms : List Message)
        → AllDue now lease ms
        → 1 ≤ count is_unfinished ms
        → count is_unfinished (round ms) < count is_unfinished ms
    unfolding round claim_pending
    round-count ms due some_left =
        let released = change_all (is_stale (now - max 1 lease)) reset ms in
        let test = is_candidate text_before now released in
        let same = count-reset (now - max 1 lease) ms in
        let there =
          candidate_there text_before irreflexive transitive now released
            (reset-AllDue now lease ms due)
            (any-positive released (omega (arith, same, some_left))) in
        let P : Message → Type 0 = λ r. any (is_pending_id r.message_id) released ≡ true in
        let chosen = select text_before test released in
        let all = All-in_order text_before irreflexive transitive P chosen (
          selected text_before irreflexive transitive test P released (λ m w t.
            any-In (is_pending_id m.message_id) m released w
              (ground (arith, t, eq_refl m.message_id)))) in
        let some_row : count (λ m. true) (in_order text_before chosen) ≢ 0 = λ e. absurd (
          omega (
            arith,
            e,
            count-in_order text_before irreflexive transitive chosen,
            count-select text_before irreflexive transitive test released,
            any-count test released there,
          )) in
        let (r, rest, e, pending) =
          head_of text_before irreflexive transitive P (max 1 limit) (in_order text_before chosen)
            all (omega arith) some_row in
        let fewer =
          subst
            (λ rows.
              count is_unfinished (
                publish_all now (claim_rows now token rows released).0
                  (claim_rows now token rows released).1)
              < count is_unfinished released)
            (sym e) (first_row now token r rest released pending) in
        subst (λ n. count is_unfinished (round ms) < n) same fewer

    -- Where every unfinished message is due, a worker that claims, whatever the limit, and publishes
    -- what it claimed, has finished all messages after as many rounds at that time as there are
    -- unfinished ones, or more.
    pub rounds-count :
        (k : ℕ) (ms : List Message)
        → AllDue now lease ms
        → count is_unfinished ms ≤ k
        → count is_unfinished (rounds k ms) ≡ 0
    unfolding rounds
    rounds-count zero ms due h = omega (arith, h)
    rounds-count (suc k) ms due h = elim (Bool-cases (leb 1 (count is_unfinished ms))) [
      | inl e ↦
          let some_left : 1 ≤ count is_unfinished ms = ground arith in
          rounds-count k (round ms) (round-AllDue ms due)
            (omega (arith, h, round-count ms due some_left))
      | inr e ↦
          let none_left : count is_unfinished ms ≡ 0 = ground arith in
          rounds-count k (round ms) (round-AllDue ms due)
            (omega (arith, none_left, round-count_le ms))
    ]
