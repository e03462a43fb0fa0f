-- ===== src/Commands/Verifier/Readings.antt =====
-- What services/central-api/app/command_verifier.py makes of one observation. A reading is a number
-- of millionths or missing; where the source subtracts, divides or takes a share, the model compares
-- the sides multiplied out.
use mini_ogas.Prelude.{
  ℕ, ◌+◌, ◌*◌, Bool, true, false, ◌&&◌, ◌||◌, Option, none, some, List, [], ◌∷◌, String, str_eq,
  ltb, leb, ◌==◌, is_empty, if◌then◌else◌,
}
use mini_ogas.Commands.Evidence.{Backlog, Observation, RateDirection}
use mini_ogas.Commands.Model.{Production}

-- `system_production.get(node)`
abbrev pub production_of : String → List (String × Production) → Option Production
production_of node [] = none
production_of node ((code, p) ∷ rest) =
    let found = production_of node rest in if str_eq code node then some p else found

abbrev pub no_readings : Production
no_readings = record {
  wip_input = none;
  wip_output = none;
  target_rate = none;
  actual_rate = none;
  utilization = none;
}

abbrev pub or_no_readings : Option Production → Production
or_no_readings none = no_readings
or_no_readings (some p) = p

-- `DOWNSTREAM_NODE.get(node, "")`
abbrev pub downstream_of : String → String
downstream_of node =
    if str_eq node "turning-workshop-01"
    then "milling-workshop-01"
    else if str_eq node "milling-workshop-01"
    then "grinding-workshop-01"
    else ""

abbrev pub downstream_production : String → List (String × Production) → Option Production
downstream_production code system = if is_empty code then none else production_of code system

abbrev pub is_seen : Option Production → Bool
is_seen none = false
is_seen (some p) = true

-- `_backlog`
abbrev pub backlog_of : Option ℕ → Option ℕ → Option Backlog
backlog_of (some incoming) (some outgoing) =
    some (record { incoming = incoming; outgoing = outgoing })
backlog_of _ _ = none

abbrev pub backlog : Option Production → Option Backlog
backlog none = none
backlog (some p) = backlog_of p.wip_input p.wip_output

abbrev pub observation_of : Production → String → Option Production → Production → ℕ → Observation
observation_of target code downstream sink now =
    let readings = or_no_readings downstream in
    record {
      observed_at = now;
      target_rate = target.target_rate;
      actual_rate = target.actual_rate;
      downstream_node = code;
      downstream_backlog = backlog downstream;
      downstream_wip_input = readings.wip_input;
      downstream_utilization = readings.utilization;
      sink_actual_rate = sink.actual_rate;
    }

-- `target_applied`, within 0.001
abbrev pub is_applied_rate : Option ℕ → Option ℕ → Bool
is_applied_rate (some expected) (some observed) =
    leb observed (expected + 1000) && leb expected (observed + 1000)
is_applied_rate _ _ = false

abbrev pub backlogs : List Observation → List Backlog
backlogs [] = []
backlogs (o ∷ os) =
    let rest = backlogs os in elim o.downstream_backlog [ none ↦ rest | some b ↦ b ∷ rest ]

abbrev pub last_of : Backlog → List Backlog → Backlog
last_of b [] = b
last_of b (c ∷ cs) = last_of c cs

-- `last - reference <= -0.5`
abbrev pub has_shrunk : Backlog → Backlog → Bool
has_shrunk reference last =
    leb (last.incoming + reference.outgoing + 500_000) (reference.incoming + last.outgoing)

-- `flow_improved`: against the baseline, or else against the first backlog of the window.
abbrev pub is_improved_since : Option Backlog → List Backlog → Bool
is_improved_since baseline [] = false
is_improved_since (some b) (c ∷ cs) = has_shrunk b (last_of c cs)
is_improved_since none (c ∷ []) = false
is_improved_since none (c ∷ d ∷ cs) = has_shrunk c (last_of d cs)

abbrev pub is_flow_improved : List Observation → Option Production → Bool
is_flow_improved os baseline = is_improved_since (backlog baseline) (backlogs os)

-- `severe_starvation`
abbrev pub is_short : Option ℕ → Option ℕ → Bool
is_short (some wip) (some utilization) = leb wip 2_000_000 && leb utilization 450_000
is_short _ _ = false

abbrev pub is_starved : Option Production → Bool
is_starved none = false
is_starved (some p) = is_short p.wip_input p.utilization

-- `throughput_floor_ok` for a sink that had the rate `before`: nine tenths of what the sink itself
-- was told to make, or else seven tenths of what it made.
abbrev pub is_above_floor : Bool → Option ℕ → Option ℕ → ℕ → ℕ → Bool
is_above_floor true (some expected) (some requested) before current =
    if requested == 0
    then leb (before * 7) (current * 10)
    else leb (before * expected * 9) (current * requested * 10)
is_above_floor _ _ _ before current = leb (before * 7) (current * 10)

abbrev pub is_floor_kept : String → Option ℕ → Option ℕ → Option ℕ → Option ℕ → Bool
is_floor_kept node expected requested none current = true
is_floor_kept node expected requested (some before) none = before == 0
is_floor_kept node expected requested (some before) (some current) =
    before == 0
    || is_above_floor (str_eq node "grinding-workshop-01") expected requested before current

-- `rate_direction`
abbrev pub direction_of : Option ℕ → Option ℕ → RateDirection
direction_of (some expected) (some requested) =
    if ltb (expected + 1000) requested
    then RateDirection.decrease
    else if ltb (requested + 1000) expected
    then RateDirection.increase
    else RateDirection.unchanged
direction_of _ _ = RateDirection.unchanged

-- `own_rate_moved`
abbrev pub has_moved_by : ℕ → ℕ → ℕ → ℕ → Bool
has_moved_by expected requested before current =
    if ltb expected requested
    then leb (current + 20_000) before
    else if ltb requested expected
    then leb (before + 20_000) current
    else false

abbrev pub has_moved : Option ℕ → Production → Option ℕ → Bool
has_moved (some expected) baseline (some current) = elim baseline.actual_rate [
  | none ↦ false
  | some before ↦ elim baseline.target_rate [
    | none ↦ false
    | some requested ↦ has_moved_by expected requested before current
  ]
]
has_moved _ baseline _ = false
