-- ===== src/Material/Genealogy/Paths.antt =====
-- Chains of edges, and what new edges do to them
-- (services/central-api/app/repositories/material_flow.py).
use mini_ogas.Prelude.{ℕ, ◌≡◌, ◌⊎◌, inl, inr, refl}

-- A chain of one link or more.
pub data Chain (R : ℕ → ℕ → Type 0) (a : ℕ) : ℕ → Type 0 where
  link : (b : ℕ) → R a b → Chain R a b
  further : (b c : ℕ) → Chain R a b → R b c → Chain R a c

module _ (R : ℕ → ℕ → Type 0) where
  pub before : (a b c : ℕ) → R a b → Chain R b c → Chain R a c
  before a b _ r (Chain.link c q) = Chain.further b c (Chain.link b r) q
  before a b _ r (Chain.further d c chain q) = Chain.further d c (before a b d r chain) q

  pub joined : (a b c : ℕ) → Chain R a b → Chain R b c → Chain R a c
  joined a b _ p (Chain.link c q) = Chain.further b c p q
  joined a b _ p (Chain.further d c chain q) = Chain.further d c (joined a b d p chain) q

module _ (R S : ℕ → ℕ → Type 0) where
  pub mapped : ((a b : ℕ) → R a b → S a b) → (a b : ℕ) → Chain R a b → Chain S a b
  mapped f a _ (Chain.link b r) = Chain.link b (f a b r)
  mapped f a _ (Chain.further c b chain r) = Chain.further c b (mapped f a c chain) (f c b r)

abbrev pub Both : (ℕ → ℕ → Type 0) → (ℕ → ℕ → Type 0) → ℕ → ℕ → Type 0
Both Old New a b = Old a b ⊎ New a b

-- Links are added, and no old chain leads from where a new link ends to where a new link starts.
module _ (Old New : ℕ → ℕ → Type 0) (apart : (p c p' c' : ℕ) → New p c → New p' c' → ¬ (c ≡ p'))
    (no_return : (p c p' c' : ℕ) → New p c → New p' c' → ¬ Chain Old c p') where
  -- A lot at or below the end of a new link.
  data Below : ℕ → Type 0 where
    at_end : (p c : ℕ) → New p c → Below c
    below : (p c b : ℕ) → New p c → Chain Old c b → Below b

  below-Old : (a b : ℕ) → Below a → Both Old New a b → Old a b
  below-Old a b w (inl r) = r
  below-Old _ b (Below.at_end p a n) (inr m) = absurd (apart p a a b n m refl)
  below-Old _ b (Below.below p c a n chain) (inr m) = absurd (no_return p c a b n m chain)

  step_down : (a b : ℕ) → Below a → Old a b → Below b
  step_down _ b (Below.at_end p a n) r = Below.below p a b n (Chain.link b r)
  step_down _ b (Below.below p c a n chain) r = Below.below p c b n (Chain.further a b chain r)

  -- From there on a chain is old.
  stays : (a b : ℕ) → Below a → Chain (Both Old New) a b → Chain Old a b × Below b
  stays a _ w (Chain.link b r) =
      let old = below-Old a b w r in (Chain.link b old, step_down a b w old)
  stays a _ w (Chain.further c b chain r) =
      let (chain', w') = stays a c w chain in
      let old = below-Old c b w' r in (Chain.further c b chain' old, step_down c b w' old)

  continued : (a c b : ℕ) → Chain Old a c ⊎ Below c → Both Old New c b → Chain Old a b ⊎ Below b
  continued a c b (inl chain) (inl r) = inl (Chain.further c b chain r)
  continued a c b (inl chain) (inr n) = inr (Below.at_end c b n)
  continued a c b (inr w) r = inr (step_down c b w (below-Old c b w r))

  parted : (a b : ℕ) → Chain (Both Old New) a b → Chain Old a b ⊎ Below b
  parted a _ (Chain.link b (inl r)) = inl (Chain.link b r)
  parted a _ (Chain.link b (inr n)) = inr (Below.at_end a b n)
  parted a _ (Chain.further c b chain r) = continued a c b (parted a c chain) r

  pub no_new_cycle : ((a : ℕ) → ¬ Chain Old a a) → (a : ℕ) → ¬ Chain (Both Old New) a a
  no_new_cycle acyclic a chain = elim (parted a a chain) [
    | inl old ↦ acyclic a old
    | inr w ↦ let (old, _) = stays a a w chain in acyclic a old
  ]
