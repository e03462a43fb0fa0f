-- ===== src/Outbox/Tests.antt =====
-- Runs of services/central-api/app/core/outbox.py on a small queue, and its theorems at them.
use mini_ogas.Prelude.{
  ℕ, ◌≤◌, ◌≡◌, refl, subst, Bool, true, false, none, some, List, [], ◌∷◌, String, arith, find,
  count, inl, inr,
}
use mini_ogas.Outbox.{
  Message, MessageStatus, Claim, is_unfinished, has_id, claim_rows, claim_pending, retry_seconds,
}
use mini_ogas.Outbox.Drained.{is_due, AllDue, rounds, rounds-count}
use mini_ogas.Outbox.Finals.{Call, run, run-published, retry_seconds-bounds}

-- One order of texts, for the parameter of the model: none is before another.
abbrev no_order : String → String → Bool
no_order a b = false

abbrev first : Message
first = record {
  message_id = "m-1";
  aggregate_type = "audit";
  aggregate_id = "central";
  payload = "a";
  status = MessageStatus.pending;
  attempts = 0;
  available_at = 1;
  created_at = 1;
  claim_token = "";
  claimed_at = none;
  published_at = none;
  last_error = "";
}

-- A claim whose lease has run out.
abbrev second : Message
second = record first {
  message_id = "m-2";
  status = MessageStatus.publishing;
  attempts = 1;
  created_at = 2;
  claim_token = "old";
  claimed_at = some 3;
}

abbrev done : Message
done = record first { message_id = "m-0"; status = MessageStatus.published; created_at = 0 }

abbrev queue : List Message
queue = done ∷ first ∷ second ∷ []

abbrev identifiers : List Claim → List String
identifiers [] = []
identifiers (c ∷ cs) = c.message_id ∷ identifiers cs

-- The second message waits for the first, which is of its aggregate.
queue-claimed : identifiers (claim_pending no_order 100 10 30 "t" queue).0 ≡ "m-1" ∷ []
unfolding claim_pending claim_rows
queue-claimed = refl

queue-AllDue : AllDue 100 30 queue
queue-AllDue m (inl e) h = subst (λ x. is_due 100 30 x ≡ true) e (absurd (ground arith))
queue-AllDue m (inr (inl e)) h = subst (λ x. is_due 100 30 x ≡ true) e refl
queue-AllDue m (inr (inr (inl e))) h = subst (λ x. is_due 100 30 x ≡ true) e refl
queue-AllDue m (inr (inr (inr w))) h = absurd w

rounds-count_example : count is_unfinished (rounds no_order 100 10 30 "t" 2 queue) ≡ 0
rounds-count_example =
    rounds-count no_order 100 10 30 "t" (λ a. refl) (λ a b c h k. h) 2 queue queue-AllDue
      (omega arith)

abbrev calls : List (Call × ℕ)
calls = (Call.failure "m-0" "late" 3, 50) ∷ (Call.claim 10 30 "t", 100) ∷ []

run-published_example : find (has_id "m-0") (run no_order calls queue) ≡ some done
run-published_example = run-published no_order calls "m-0" done queue refl refl

retry_seconds-bounds_example :
    (2 ≤ retry_seconds 1) × (retry_seconds 1 ≤ 60) × (retry_seconds 1 ≤ retry_seconds 9)
retry_seconds-bounds_example = retry_seconds-bounds 1 9 (omega arith)
