-- ===== src/Commands/Verifier.antt =====
-- services/central-api/app/command_verifier.py: the effect of a command, judged from the production
-- that is observed after it. Readings has what is made of one observation.
pub mod Readings
pub mod Window
pub mod Verdicts
mod Tests
use mini_ogas.Prelude.{
  ℕ, ◌+◌, ◌-◌, ◌*◌, Bool, true, false, not, ◌&&◌, ◌||◌, Option, none, some, List, [], ◌∷◌, ◌++◌,
  String, str_eq, ltb, leb, length, drop, is_empty, if◌then◌else◌,
}
use mini_ogas.Commands.Evidence.{RateDirection, Evidence, Observation}
use mini_ogas.Commands.Model.{
  Status, VerificationStatus, ResultMessage, Production, NodeCommand, is_applied,
}
use mini_ogas.Commands.Verifier.Readings.{
  production_of, downstream_production, is_seen, or_no_readings, downstream_of, observation_of,
  is_applied_rate, is_flow_improved, is_starved, is_floor_kept, direction_of, has_moved,
}

pub record VerificationResult : Type 0 where
  pub status : VerificationStatus
  pub message : ResultMessage
  pub evidence : Option Evidence
  pub terminal : Bool

-- `verification_status in TERMINAL_VERIFICATION_STATUSES`
abbrev pub is_verdict : VerificationStatus → Bool
is_verdict VerificationStatus.effective = true
is_verdict VerificationStatus.partial = true
is_verdict VerificationStatus.failed = true
is_verdict VerificationStatus.inconclusive = true
is_verdict _ = false

-- The command has been carried out and is to be judged.
abbrev pub is_ready : NodeCommand → Bool
is_ready c = str_eq c.command_type "set_target_rate" && is_applied c.status

abbrev pub observations_of : NodeCommand → List Observation
observations_of c = elim c.verification_evidence [ none ↦ [] | some e ↦ e.observations ]

-- `observations[-limit:]`, for a limit of one at least.
abbrev pub latest : ℕ → List Observation → List Observation
latest limit os = drop (length os - limit) os

-- `_finish`
abbrev pub status_after : VerificationStatus → Status
status_after VerificationStatus.effective = Status.verified
status_after VerificationStatus.partial = Status.verified
status_after VerificationStatus.failed = Status.failed
status_after _ = Status.applied

abbrev pub finish :
    NodeCommand → VerificationStatus → String → Evidence → ℕ → NodeCommand × VerificationResult
finish c status message evidence now = (
  record c {
    verification_status = status;
    verification_evidence = some evidence;
    verified_at = some now;
    updated_at = now;
    result_message = ResultMessage.text message;
    status = status_after status;
  },
  record {
    status = status;
    message = ResultMessage.text message;
    evidence = some evidence;
    terminal = true;
  },
)

abbrev pub still_observing : NodeCommand → String → Evidence → NodeCommand × VerificationResult
still_observing c message evidence = (
  c,
  record {
    status = VerificationStatus.observing;
    message = ResultMessage.text message;
    evidence = some evidence;
    terminal = false;
  },
)

-- `effect_proven`
abbrev pub is_effect_proven : Evidence → Bool
is_effect_proven e = elim e.rate_direction [
  | RateDirection.increase ↦ e.own_rate_moved
  | RateDirection.unchanged ↦ e.target_applied
  | RateDirection.decrease ↦
      if is_empty e.downstream_node then e.own_rate_moved else e.flow_improved
]

abbrev pub effect_message : Evidence → String
effect_message e = elim e.rate_direction [
  | RateDirection.increase ↦ "target applied and observed node production rate increased"
  | RateDirection.unchanged ↦ "requested target was already applied"
  | RateDirection.decrease ↦
      if is_empty e.downstream_node
      then "target applied and observed node production rate decreased"
      else "target applied and observed downstream flow improved"
]

-- The evidence after one more observation, in a window of `limit` observations.
abbrev pub evidence_of : ℕ → NodeCommand → List (String × Production) → ℕ → Evidence
evidence_of limit c system now =
    let expected = c.parameters.target_rate in
    let target = or_no_readings (production_of c.node_code system) in
    let code = downstream_of c.node_code in
    let downstream = downstream_production code system in
    let sink = or_no_readings (production_of "grinding-workshop-01" system) in
    let baseline_target = or_no_readings (production_of c.node_code c.verification_baseline) in
    let baseline_downstream = downstream_production code c.verification_baseline in
    let baseline_sink =
      or_no_readings (production_of "grinding-workshop-01" c.verification_baseline) in
    let observations =
      latest limit (observations_of c ++ observation_of target code downstream sink now ∷ []) in
    record {
      expected_target_rate = expected;
      observed_target_rate = target.target_rate;
      target_applied = is_applied_rate expected target.target_rate;
      observation_count = length observations;
      downstream_node = code;
      flow_improved = is_flow_improved observations baseline_downstream;
      rate_direction = direction_of expected baseline_target.target_rate;
      own_rate_moved = has_moved expected baseline_target target.actual_rate;
      severe_starvation = is_starved downstream;
      throughput_floor_ok =
          is_floor_kept c.node_code expected baseline_target.target_rate baseline_sink.actual_rate
            sink.actual_rate;
      observations = observations;
    }

-- `CommandVerifier`, with its window of observations.
module _ (min_observations max_observations : ℕ) where
  -- The part of `observe` after the evidence was kept with the command.
  abbrev pub judged : NodeCommand → Evidence → Bool → ℕ → NodeCommand × VerificationResult
  judged c e is_downstream_seen now =
      if ltb e.observation_count min_observations
      then still_observing c "waiting for more production observations" e
      else if not e.target_applied
      then (if ltb e.observation_count max_observations
          then still_observing c "target rate has not appeared in heartbeat yet" e
          else finish c VerificationStatus.failed
              "target rate was not applied within the verification window" e now)
      else if e.severe_starvation || not e.throughput_floor_ok
      then finish c VerificationStatus.failed
          "command caused an unacceptable downstream production effect" e now
      else if is_effect_proven e
      then finish c VerificationStatus.effective (effect_message e) e now
      else if ltb e.observation_count max_observations
      then still_observing c "target applied; waiting for downstream trend" e
      else if not (is_empty e.downstream_node) && not is_downstream_seen
      then finish c VerificationStatus.inconclusive "downstream observations were unavailable" e now
      else finish c VerificationStatus.partial "target applied but downstream flow did not improve"
          e now

  -- `observe`, with the command as it leaves it
  unfoldable pub observe :
      NodeCommand → List (String × Production) → ℕ → NodeCommand × VerificationResult
  observe c system now =
      if is_verdict c.verification_status
      then (
        c,
        record {
          status = c.verification_status;
          message = c.result_message;
          evidence = c.verification_evidence;
          terminal = true;
        },
      )
      else if not (is_ready c)
      then (
        c,
        record {
          status = VerificationStatus.not_started;
          message = ResultMessage.text "command is not ready for verification";
          evidence = none;
          terminal = false;
        },
      )
      else let e = evidence_of max_observations c system now in
        let observing = record c {
          verification_evidence = some e;
          verification_status = VerificationStatus.observing;
          updated_at = now;
        } in
        let is_downstream_seen =
          is_seen (downstream_production (downstream_of c.node_code) system) in
        judged observing e is_downstream_seen now

  -- Observations one after another, each with its production and its time.
  unfoldable pub watch : List (List (String × Production) × ℕ) → NodeCommand → NodeCommand
  watch [] c = c
  watch ((system, now) ∷ rest) c = watch rest (observe c system now).0
