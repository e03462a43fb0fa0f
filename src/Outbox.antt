-- ===== src/Outbox.antt =====
-- The durable queue of services/central-api/app/core/outbox.py, for one tenant and site: `outbox_messages`
-- as a list of rows.
pub mod Rounds
pub mod Selection
pub mod Drained
pub mod Finals
mod Tests
use mini_ogas.Prelude.{
  ℕ, zero, suc, ◌+◌, ◌-◌, ◌*◌, max, min, Bool, true, false, not, ◌&&◌, ◌||◌, Option, none, some,
  List, [], ◌∷◌, ◌++◌, String, str_eq, ltb, leb, any, change_all, ◌==◌, if◌then◌else◌,
}

pub data MessageStatus : Type 0 where
  pending publishing published dead_letter : MessageStatus

pub record Message : Type 0 where
  pub message_id : String
  pub aggregate_type : String
  pub aggregate_id : String
  pub payload : String
  pub status : MessageStatus
  pub attempts : ℕ
  pub available_at : ℕ
  pub created_at : ℕ
  pub claim_token : String
  pub claimed_at : Option ℕ
  pub published_at : Option ℕ
  pub last_error : String

abbrev pub is_pending : MessageStatus → Bool
is_pending MessageStatus.pending = true
is_pending _ = false

abbrev pub is_publishing : MessageStatus → Bool
is_publishing MessageStatus.publishing = true
is_publishing _ = false

abbrev pub is_published : MessageStatus → Bool
is_published MessageStatus.published = true
is_published _ = false

-- `status IN ('pending', 'publishing')`
abbrev pub is_unfinished : Message → Bool
is_unfinished m = is_pending m.status || is_publishing m.status

abbrev pub has_id : String → Message → Bool
has_id id m = str_eq m.message_id id

-- The part of an envelope that is kept.
pub record Envelope : Type 0 where
  pub message_id : String
  pub message_type : String
  pub node_code : String
  pub payload : String

-- The source reads the clock for each of the two times.
abbrev pub message_of : Envelope → ℕ → ℕ → Message
message_of e available created = record {
  message_id = e.message_id;
  aggregate_type = e.message_type;
  aggregate_id = e.node_code;
  payload = e.payload;
  status = MessageStatus.pending;
  attempts = 0;
  available_at = available;
  created_at = created;
  claim_token = "";
  claimed_at = none;
  published_at = none;
  last_error = "";
}

-- `enqueue_in_transaction`: whether a row was inserted, and the rows.
unfoldable pub enqueue : Envelope → ℕ → ℕ → List Message → Bool × List Message
enqueue e available created ms = elim (any (has_id e.message_id) ms) [
  | true ↦ (false, ms)
  | false ↦ (true, ms ++ message_of e available created ∷ [])
]

-- `claimed_at IS NOT NULL AND claimed_at < ?`
abbrev pub is_before : Option ℕ → ℕ → Bool
is_before none t = false
is_before (some c) t = ltb c t

abbrev pub is_stale : ℕ → Message → Bool
is_stale stale_before m = is_publishing m.status && is_before m.claimed_at stale_before

abbrev pub reset : Message → Message
reset m = record m { status = MessageStatus.pending; claim_token = ""; claimed_at = none }

abbrev pub is_same_aggregate : Message → Message → Bool
is_same_aggregate a b =
    str_eq a.aggregate_type b.aggregate_type && str_eq a.aggregate_id b.aggregate_id

abbrev pub is_pending_id : String → Message → Bool
is_pending_id id m = has_id id m && is_pending m.status

abbrev pub claimed : ℕ → String → Message → Message
claimed now token m = record m {
  status = MessageStatus.publishing;
  attempts = m.attempts + 1;
  claimed_at = some now;
  claim_token = token;
}

-- What a worker gets of a message.
pub record Claim : Type 0 where
  pub message_id : String
  pub payload : String
  pub attempts : ℕ
  pub claim_token : String

abbrev pub claim_of : String → Message → Claim
claim_of token m = record {
  message_id = m.message_id;
  payload = m.payload;
  attempts = m.attempts + 1;
  claim_token = token;
}

-- The loop over the rows that were selected.
unfoldable pub claim_rows : ℕ → String → List Message → List Message → List Claim × List Message
claim_rows now token [] ms = ([], ms)
claim_rows now token (row ∷ rows) ms = elim (any (is_pending_id row.message_id) ms) [
  | true ↦
      let (claims, out) =
        claim_rows now token rows
          (change_all (is_pending_id row.message_id) (claimed now token) ms) in
      (claim_of token row ∷ claims, out)
  | false ↦ claim_rows now token rows ms
]

abbrev pub take : ℕ → List Message → List Message
take zero ms = []
take (suc n) [] = []
take (suc n) (m ∷ ms) = m ∷ take n ms

-- The order of two texts is the database's: a parameter.
module _ (text_before : String → String → Bool) where
  -- `(created_at, message_id)`
  abbrev pub precedes : Message → Message → Bool
  precedes a b =
      ltb a.created_at b.created_at
      || (a.created_at == b.created_at && text_before a.message_id b.message_id)

  abbrev pub is_predecessor : Message → Message → Bool
  is_predecessor candidate m =
      is_same_aggregate m candidate && is_unfinished m && precedes m candidate

  abbrev pub is_candidate : ℕ → List Message → Message → Bool
  is_candidate now ms m =
      is_pending m.status && leb m.available_at now && not (any (is_predecessor m) ms)

  abbrev pub select : (Message → Bool) → List Message → List Message
  select test [] = []
  select test (m ∷ ms) = if test m then m ∷ select test ms else select test ms

  -- `ORDER BY created_at, message_id`
  abbrev pub insert_message : Message → List Message → List Message
  insert_message m [] = m ∷ []
  insert_message m (n ∷ ns) =
      let rest = insert_message m ns in if precedes n m then n ∷ rest else m ∷ n ∷ ns

  abbrev pub in_order : List Message → List Message
  in_order [] = []
  in_order (m ∷ ms) = insert_message m (in_order ms)

  -- `claim_pending` on the rows whose expired leases were taken back
  abbrev pub candidates : ℕ → ℕ → List Message → List Message
  candidates now limit ms = take (max 1 limit) (in_order (select (is_candidate now ms) ms))

  -- `claim_pending`; the token is new
  unfoldable pub claim_pending : ℕ → ℕ → ℕ → String → List Message → List Claim × List Message
  claim_pending now limit lease token ms =
      let released = change_all (is_stale (now - max 1 lease)) reset ms in
      claim_rows now token (candidates now limit released) released

-- `mark_published`, `mark_failed` and `mark_dead_letter`, with whether a row was changed.
abbrev pub is_unpublished_id : String → Message → Bool
is_unpublished_id id m = has_id id m && not (is_published m.status)

unfoldable pub mark_published : String → ℕ → List Message → Bool × List Message
mark_published id now ms = (
  any (is_unpublished_id id) ms,
  change_all (is_unpublished_id id)
      (λ m. record m {
        status = MessageStatus.published;
        published_at = some now;
        claim_token = "";
        last_error = "";
      })
      ms,
)

abbrev pub power_of_two : ℕ → ℕ
power_of_two zero = 1
power_of_two (suc n) = 2 * power_of_two n

unfoldable pub retry_seconds : ℕ → ℕ
retry_seconds attempts = min 60 (max 1 (power_of_two (min (max attempts 1) 6)))

-- The error that is kept is cut to 1024 characters before.
unfoldable pub mark_failed : String → String → ℕ → ℕ → List Message → Bool × List Message
unfolding retry_seconds
mark_failed id error attempts now ms = (
  any (is_unpublished_id id) ms,
  change_all (is_unpublished_id id)
      (λ m. record m {
        status = MessageStatus.pending;
        available_at = now + retry_seconds attempts;
        claim_token = "";
        claimed_at = none;
        last_error = error;
      })
      ms,
)

unfoldable pub mark_dead_letter : String → String → List Message → Bool × List Message
mark_dead_letter id error ms = (
  any (is_unpublished_id id) ms,
  change_all (is_unpublished_id id)
      (λ m. record m {
        status = MessageStatus.dead_letter;
        claim_token = "";
        claimed_at = none;
        last_error = error;
      })
      ms,
)
