-- ===== src/Commands/Evidence.antt =====
-- What services/central-api/app/command_verifier.py keeps with a command: the observations of its
-- window and what was made of them. Rates and utilizations are whole millionths, as are amounts.
use mini_ogas.Prelude.{ℕ, Bool, List, Option, String}

-- A difference of amounts, by its two terms.
pub record Backlog : Type 0 where
  pub incoming : ℕ
  pub outgoing : ℕ

pub record Observation : Type 0 where
  pub observed_at : ℕ
  pub target_rate : Option ℕ
  pub actual_rate : Option ℕ
  pub downstream_node : String
  pub downstream_backlog : Option Backlog
  pub downstream_wip_input : Option ℕ
  pub downstream_utilization : Option ℕ
  pub sink_actual_rate : Option ℕ

pub data RateDirection : Type 0 where
  unchanged decrease increase : RateDirection

pub record Evidence : Type 0 where
  pub expected_target_rate : Option ℕ
  pub observed_target_rate : Option ℕ
  pub target_applied : Bool
  pub observation_count : ℕ
  pub downstream_node : String
  pub flow_improved : Bool
  pub rate_direction : RateDirection
  pub own_rate_moved : Bool
  pub severe_starvation : Bool
  pub throughput_floor_ok : Bool
  pub observations : List Observation
