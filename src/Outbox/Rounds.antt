-- ===== src/Outbox/Rounds.antt =====
-- What claims and publications do to the number of unfinished messages
-- (services/central-api/app/core/outbox.py).
use mini_ogas.Prelude.{
  ℕ, ◌+◌, ◌≤◌, ◌<◌, ◌≡◌, refl, sym, subst, ◌∙◌, Bool, true, ◌&&◌, List, [], ◌∷◌, String, arith, any,
  count, change_all,
}
use mini_ogas.Outbox.{
  Message, Claim, is_unfinished, has_id, is_pending_id, claimed, claim_of, claim_rows,
  mark_published,
}

-- A worker publishes what it claimed.
abbrev pub publish_all : ℕ → List Claim → List Message → List Message
publish_all now [] ms = ms
publish_all now (c ∷ cs) ms = publish_all now cs (mark_published c.message_id now ms).1

abbrev unfinished_id : String → Message → Bool
unfinished_id id m = has_id id m && is_unfinished m

-- Publishing takes a message off the unfinished ones.
mark_published-count :
    (id : String) (now : ℕ) (ms : List Message)
    → count is_unfinished (mark_published id now ms).1 + count (unfinished_id id) ms
      ≡ count is_unfinished ms
unfolding mark_published
mark_published-count id now [] = refl
mark_published-count id now (m ∷ ms) = ground (arith, mark_published-count id now ms)

pub publish_all-count :
    (now : ℕ) (cs : List Claim) (ms : List Message)
    → count is_unfinished (publish_all now cs ms) ≤ count is_unfinished ms
publish_all-count now [] ms = omega arith
publish_all-count now (c ∷ cs) ms = omega (
  arith,
  mark_published-count c.message_id now ms,
  publish_all-count now cs (mark_published c.message_id now ms).1,
)

pub any-count : (test : Message → Bool) (ms : List Message) → any test ms ≡ true → 1 ≤ count test ms
any-count test [] h = absurd (ground arith)
any-count test (m ∷ ms) h = ground (arith, any-count test ms)

-- A claim keeps what is unfinished.
claim-count :
    (now : ℕ) (token id : String) (ms : List Message)
    → count is_unfinished (change_all (is_pending_id id) (claimed now token) ms)
      ≡ count is_unfinished ms
claim-count now token id [] = refl
claim-count now token id (m ∷ ms) = ground (arith, claim-count now token id ms)

claim-any :
    (now : ℕ) (token id other : String) (ms : List Message)
    → any (unfinished_id other) (change_all (is_pending_id id) (claimed now token) ms)
      ≡ any (unfinished_id other) ms
claim-any now token id other [] = refl
claim-any now token id other (m ∷ ms) = ground (arith, claim-any now token id other ms)

pub claim_rows-count :
    (now : ℕ) (token : String) (rows ms : List Message)
    → count is_unfinished (claim_rows now token rows ms).1 ≡ count is_unfinished ms
unfolding claim_rows
claim_rows-count now token [] ms = refl
claim_rows-count now token (r ∷ rows) ms =
    let after = change_all (is_pending_id r.message_id) (claimed now token) ms in
    ground (
      arith,
      claim_rows-count now token rows after,
      claim_rows-count now token rows ms,
      claim-count now token r.message_id ms,
    )

claim_rows-any :
    (now : ℕ) (token other : String) (rows ms : List Message)
    → any (unfinished_id other) (claim_rows now token rows ms).1 ≡ any (unfinished_id other) ms
unfolding claim_rows
claim_rows-any now token other [] ms = refl
claim_rows-any now token other (r ∷ rows) ms =
    let after = change_all (is_pending_id r.message_id) (claimed now token) ms in
    ground (
      arith,
      claim_rows-any now token other rows after,
      claim_rows-any now token other rows ms,
      claim-any now token r.message_id other ms,
    )

pending-unfinished :
    (id : String) (ms : List Message)
    → any (is_pending_id id) ms ≡ true
    → any (unfinished_id id) ms ≡ true
pending-unfinished id [] h = absurd (ground arith)
pending-unfinished id (m ∷ ms) h = ground (arith, pending-unfinished id ms)

pub claim_rows-first :
    (now : ℕ) (token : String) (r : Message) (rows ms : List Message)
    → any (is_pending_id r.message_id) ms ≡ true
    → claim_rows now token (r ∷ rows) ms ≡ (
      claim_of token r
          ∷ (claim_rows now token rows
              (change_all (is_pending_id r.message_id) (claimed now token) ms)).0,
      (claim_rows now token rows
          (change_all (is_pending_id r.message_id) (claimed now token) ms)).1,
    )
unfolding claim_rows
claim_rows-first now token r rows ms there = ground (arith, there)

-- The first row that is claimed is published.
pub first_row :
    (now : ℕ) (token : String) (r : Message) (rows ms : List Message)
    → any (is_pending_id r.message_id) ms ≡ true
    → count is_unfinished (
        publish_all now
          (claim_rows now token (r ∷ rows) ms).0
          (claim_rows now token (r ∷ rows) ms).1)
      < count is_unfinished ms
first_row now token r rows ms there =
    let after = change_all (is_pending_id r.message_id) (claimed now token) ms in
    let out = (claim_rows now token rows after).1 in
    let kept : any (unfinished_id r.message_id) out ≡ true =
      claim_rows-any now token r.message_id rows after
      ∙ claim-any now token r.message_id r.message_id ms
      ∙ pending-unfinished r.message_id ms there in
    subst
      (λ (x : List Claim × List Message).
        count is_unfinished (publish_all now x.0 x.1) < count is_unfinished ms)
      (sym (claim_rows-first now token r rows ms there))
      (omega (
        arith,
        any-count (unfinished_id r.message_id) out kept,
        mark_published-count r.message_id now out,
        claim_rows-count now token rows after,
        claim-count now token r.message_id ms,
        publish_all-count now (claim_rows now token rows after).0
            (mark_published r.message_id now out).1,
      ))
