-- ===== src/Commands/Verifier/Verdicts.antt =====
-- The verdicts of services/central-api/app/command_verifier.py.
use mini_ogas.Prelude.{ℕ, ◌≤◌, ◌≡◌, ◌⊎◌, true, false}
use mini_ogas.Commands.Evidence.{Evidence}
use mini_ogas.Commands.Verifier.{is_effect_proven}

-- The effect is there: enough observations, the rate applied, no harm, and a movement that shows it.
abbrev pub IsEffective : ℕ → Evidence → Type 0
IsEffective least e =
    (least ≤ e.observation_count)
    × (e.target_applied ≡ true)
    × (e.severe_starvation ≡ false)
    × (e.throughput_floor_ok ≡ true)
    × (is_effect_proven e ≡ true)

-- The rate was not applied in the whole window, or was applied and did harm.
abbrev pub IsFailed : ℕ → ℕ → Evidence → Type 0
IsFailed least most e =
    (least ≤ e.observation_count)
    × (((e.target_applied ≡ false) × (most ≤ e.observation_count))
        ⊎ ((e.target_applied ≡ true)
            × ((e.severe_starvation ≡ true) ⊎ (e.throughput_floor_ok ≡ false))))
