-- ===== src/Commands/Verifier/Window.antt =====
-- The window of observations of services/central-api/app/command_verifier.py.
use mini_ogas.Prelude.{
  ℕ, subst, sym, ap, ◌∙◌, zero, suc, ◌+◌, ◌-◌, ◌≤◌, ◌<◌, ◌≡◌, refl, ◌⊎◌, inl, inr, Bool, true,
  false, some, List, [], ◌∷◌, ◌++◌, String, length, drop, arith,
}
use mini_ogas.Commands.Evidence.{Evidence, Observation}
use mini_ogas.Commands.Model.{VerificationStatus, Production, NodeCommand}
use mini_ogas.Commands.Verifier.Readings.{
  downstream_of, downstream_production, is_seen, production_of, or_no_readings, observation_of,
}
use mini_ogas.Commands.Verifier.{
  is_verdict, is_ready, observations_of, latest, judged, observe, watch, evidence_of,
}

length-drop : (n : ℕ) (os : List Observation) → length (drop n os) ≡ length os - n
length-drop zero os = ground arith
length-drop (suc n) [] = ground arith
length-drop (suc n) (o ∷ os) = ground (arith, length-drop n os)

length-snoc : (os : List Observation) (o : Observation) → length (os ++ o ∷ []) ≡ length os + 1
length-snoc [] o = refl
length-snoc (p ∷ os) o = ground (arith, length-snoc os o)

length-latest :
    (limit : ℕ) (os : List Observation) (o : Observation)
    → length os < limit
    → length (latest limit (os ++ o ∷ [])) ≡ length os + 1
length-latest limit os o short =
    ground (arith, length-drop (length (os ++ o ∷ []) - limit) (os ++ o ∷ []), length-snoc os o)

module _ (min_observations max_observations : ℕ) where
  -- A command that is still to be judged, with this many observations.
  record IsOpen (k : ℕ) (c : NodeCommand) : Type 0 where
    undecided : is_verdict c.verification_status ≡ false
    ready : is_ready c ≡ true
    observed : length (observations_of c) ≡ k

  judged-Window :
      (c : NodeCommand) (e : Evidence) (is_downstream_seen : Bool) (now : ℕ)
      → is_verdict c.verification_status ≡ false
      → min_observations ≤ max_observations
      → ((judged min_observations max_observations c e is_downstream_seen now).0 ≡ c
          × (e.observation_count < max_observations))
        ⊎ (is_verdict
              (judged min_observations max_observations c e is_downstream_seen
                now).0.verification_status
            ≡ true)
  judged-Window c e is_downstream_seen now h le = ground arith

  pub observing : NodeCommand → List (String × Production) → ℕ → NodeCommand
  observing c system now = record c {
    verification_evidence = some (evidence_of max_observations c system now);
    verification_status = VerificationStatus.observing;
    updated_at = now;
  }

  pub observe-judged :
      (c : NodeCommand) (system : List (String × Production)) (now : ℕ)
      → is_verdict c.verification_status ≡ false
      → is_ready c ≡ true
      → observe min_observations max_observations c system now
        ≡ judged min_observations max_observations
            (observing c system now)
            (evidence_of max_observations c system now)
            (is_seen (downstream_production (downstream_of c.node_code) system))
            now
  unfolding observe observing
  observe-judged c system now undecided ready = rw (undecided, ready) refl

  observing-IsOpen :
      (k : ℕ) (c : NodeCommand) (system : List (String × Production)) (now : ℕ)
      → k < max_observations
      → IsOpen k c
      → IsOpen (k + 1) (observing c system now)
  unfolding observing
  observing-IsOpen k c system now lt h = record {
    undecided = refl;
    ready = h.ready;
    observed =
        let target = or_no_readings (production_of c.node_code system) in
        let downstream = downstream_production (downstream_of c.node_code) system in
        let sink = or_no_readings (production_of "grinding-workshop-01" system) in
        let new = observation_of target (downstream_of c.node_code) downstream sink now in
        let short : length (observations_of c) < max_observations = ground (arith, h.observed) in
        length-latest max_observations (observations_of c) new short ∙ ap (λ n. n + 1) h.observed;
  }

  observe-IsOpen :
      (k : ℕ) (c : NodeCommand) (system : List (String × Production)) (now : ℕ)
      → min_observations ≤ max_observations
      → k < max_observations
      → IsOpen k c
      → (IsOpen (k + 1) (observe min_observations max_observations c system now).0
          × (k + 1 < max_observations))
        ⊎ (is_verdict (observe min_observations max_observations c system now).0.verification_status
            ≡ true)
  unfolding observing
  observe-IsOpen k c system now le lt h =
      let e = evidence_of max_observations c system now in
      let seen = is_seen (downstream_production (downstream_of c.node_code) system) in
      let next : IsOpen (k + 1) (observing c system now) = observing-IsOpen k c system now lt h in
      rw (observe-judged c system now h.undecided h.ready)
        (elim (judged-Window (observing c system now) e seen now next.undecided le) [
          | inl (same, more) ↦ inl (
            subst (IsOpen (k + 1)) (sym same) next,
            subst (λ n. n < max_observations) next.observed more,
          )
          | inr final ↦ inr final
        ])

  observe-verdict :
      (c : NodeCommand) (system : List (String × Production)) (now : ℕ)
      → is_verdict c.verification_status ≡ true
      → (observe min_observations max_observations c system now).0 ≡ c
  unfolding observe
  observe-verdict c system now h = ground (arith, h)

  watch-verdict :
      (runs : List (List (String × Production) × ℕ)) (c : NodeCommand)
      → is_verdict c.verification_status ≡ true
      → watch min_observations max_observations runs c ≡ c
  unfolding watch
  watch-verdict [] c h = refl
  watch-verdict ((system, now) ∷ runs) c h =
      rw (observe-verdict c system now h) (watch-verdict runs c h)

  watch-IsOpen :
      (runs : List (List (String × Production) × ℕ)) (k : ℕ) (c : NodeCommand)
      → min_observations ≤ max_observations
      → k < max_observations
      → max_observations ≤ k + length runs
      → IsOpen k c
      → is_verdict (watch min_observations max_observations runs c).verification_status ≡ true
  unfolding watch
  watch-IsOpen [] k c le lt enough h = absurd (omega arith)
  watch-IsOpen ((system, now) ∷ runs) k c le lt enough h =
      let c' = (observe min_observations max_observations c system now).0 in
      elim (observe-IsOpen k c system now le lt h) [
        | inl (next, more) ↦ watch-IsOpen runs (k + 1) c' le more (omega arith) next
        | inr final ↦
            subst (λ d. is_verdict d.verification_status ≡ true) (sym (watch-verdict runs c' final))
              final
      ]

  -- A command that sets a rate, was carried out and has no verdict and no observations yet has a
  -- verdict (effective, partial, failed or inconclusive) after as many observations as the window
  -- holds, or more, whatever the production was and whenever they were made. The window is as the
  -- constructor accepts it: not empty, and not shorter than the observations a verdict needs.
  pub watch-decides :
      (runs : List (List (String × Production) × ℕ)) (c : NodeCommand)
      → 1 ≤ min_observations
      → min_observations ≤ max_observations
      → max_observations ≤ length runs
      → is_verdict c.verification_status ≡ false
      → is_ready c ≡ true
      → observations_of c ≡ []
      → is_verdict (watch min_observations max_observations runs c).verification_status ≡ true
  watch-decides runs c one le enough undecided ready fresh =
      watch-IsOpen runs 0 c le (omega arith) (omega arith)
        (record { undecided = undecided; ready = ready; observed = rw fresh refl })
