-- ===== src/Commands/Model.antt =====
-- NodeCommand of services/central-api/app/models.py, and the status sets of
-- services/central-api/app/command_manager.py. Times are whole microseconds, rates whole
-- millionths. Of a command's parameters the keys that the life cycle reads are fields, and the
-- others are an association list; the composed result messages are kept by their parts. The source
-- takes parameters of any type: an idempotency key that is no text, and a time to live that is
-- negative or no number, for which `int` raises, are left out.
use mini_ogas.Prelude.{ℕ, Bool, true, false, List, Option, String, str_eq}
use mini_ogas.Commands.Evidence.{Evidence}

-- The texts that the source compares a status with; any other text is `other`.
pub data Status : Type 0 where
  pending queued waiting_approval claimed executed applied failed verified : Status
  rejected expired superseded cancelled : Status
  other : String → Status

pub data VerificationStatus : Type 0 where
  not_started observing verified effective partial failed inconclusive : VerificationStatus

pub data ResultMessage : Type 0 where
  text : String → ResultMessage
  accepted_by : String → ResultMessage
  cancelled_by : String → String → ResultMessage
  claim_timed_out : ℕ → ResultMessage
  superseded_by : ℕ → ResultMessage
  rate_verified : ℕ → ResultMessage

pub record Parameters : Type 0 where
  pub idempotency_key : Option String
  pub ttl_seconds : Option ℕ
  pub target_rate : Option ℕ
  pub workflow_kind : Option String
  pub retry_of : Option ℕ
  pub others : List (String × String)

-- A node's production readings, each missing or a number.
pub record Production : Type 0 where
  pub wip_input : Option ℕ
  pub wip_output : Option ℕ
  pub target_rate : Option ℕ
  pub actual_rate : Option ℕ
  pub utilization : Option ℕ

pub record NodeCommand : Type 0 where
  pub id : ℕ
  pub node_code : String
  pub command_type : String
  pub risk_level : String
  pub status : Status
  pub operator : String
  pub parameters : Parameters
  pub claimed_by : String
  pub result_message : ResultMessage
  pub version : ℕ
  pub expires_at : Option ℕ
  pub dispatched_at : Option ℕ
  pub received_at : Option ℕ
  pub applied_at : Option ℕ
  pub verified_at : Option ℕ
  pub attempt_count : ℕ
  pub verification_status : VerificationStatus
  pub verification_baseline : List (String × Production)
  pub verification_evidence : Option Evidence
  pub created_at : ℕ
  pub updated_at : ℕ

-- `status in CLAIMABLE_STATUSES`
abbrev pub is_claimable : Status → Bool
is_claimable Status.pending = true
is_claimable Status.queued = true
is_claimable _ = false

-- `status == APPROVAL_STATUS`
abbrev pub is_waiting : Status → Bool
is_waiting Status.waiting_approval = true
is_waiting _ = false

-- `status in {APPROVAL_STATUS, "pending", "queued"}`
abbrev pub is_open : Status → Bool
is_open Status.waiting_approval = true
is_open Status.pending = true
is_open Status.queued = true
is_open _ = false

-- `status in TERMINAL_STATUSES`
abbrev pub is_terminal : Status → Bool
is_terminal Status.failed = true
is_terminal Status.verified = true
is_terminal Status.rejected = true
is_terminal Status.expired = true
is_terminal Status.superseded = true
is_terminal Status.cancelled = true
is_terminal _ = false

-- `status in RETRYABLE_STATUSES`
abbrev pub is_retryable : Status → Bool
is_retryable Status.failed = true
is_retryable Status.rejected = true
is_retryable Status.expired = true
is_retryable Status.cancelled = true
is_retryable _ = false

abbrev pub is_claimed : Status → Bool
is_claimed Status.claimed = true
is_claimed _ = false

-- `status in {"executed", "applied"}`
abbrev pub is_applied : Status → Bool
is_applied Status.executed = true
is_applied Status.applied = true
is_applied _ = false

-- `status in {"expired", "superseded", "rejected", "cancelled"}`
abbrev pub is_dead : Status → Bool
is_dead Status.expired = true
is_dead Status.superseded = true
is_dead Status.rejected = true
is_dead Status.cancelled = true
is_dead _ = false

-- `status in {"claimed", "pending", "queued", "executed", "applied", "failed"}`
abbrev pub accepts_result : Status → Bool
accepts_result Status.claimed = true
accepts_result Status.pending = true
accepts_result Status.queued = true
accepts_result Status.executed = true
accepts_result Status.applied = true
accepts_result Status.failed = true
accepts_result _ = false

abbrev pub is_verified : Status → Bool
is_verified Status.verified = true
is_verified _ = false

abbrev pub is_cancelled : Status → Bool
is_cancelled Status.cancelled = true
is_cancelled _ = false

-- `result_message == message`, where the message is a reported text.
abbrev pub is_message : ResultMessage → String → Bool
is_message (ResultMessage.text t) s = str_eq t s
is_message _ s = false
