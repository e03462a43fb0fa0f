-- ===== src/Commands/Manager/Effects.antt =====
-- What a call of CommandManager (services/central-api/app/command_manager.py) does to the list:
-- nothing, one change to the commands that pass a test, one change to the command found by its
-- number, or a new command after the open ones of its kind are superseded. Each change moves a
-- command along an arc of its life cycle. Invariants are proved once for each of the four.
use mini_ogas.Prelude.{
  change_all, ℕ, ◌+◌, ◌≡◌, refl, Bool, true, false, some, List, String, arith, find, update_first,
  Option-cases, inl, inr, ◌⊎◌, Bool-cases, [], ◌∷◌,
}
use mini_ogas.Commands.Model.{Status, NodeCommand, Parameters, Production, is_retryable}
use mini_ogas.Commands.Methods.{
  Commands, supersede_pending, append_bounded, create_command, new_command, max_id, find_existing,
  text_or_empty, find_command, find_for_node, has_id, has_id_on, record_result, with_result,
  normalized, claim_for_node, is_claimable_by, claimed, approved, accepted, rejected, cancelled,
  retry_parameters, expire_stale_claims, is_stale, expired, verify_target_rate, is_reached, reached,
}
use mini_ogas.Commands.Methods
use mini_ogas.Commands.Manager.Calls.{Call, after, apply, run}

-- The arcs of the life cycle. A status that is not listed is left for itself alone.
abbrev pub follows : Status → Status → Bool
follows Status.pending Status.claimed = true
follows Status.pending Status.applied = true
follows Status.pending Status.failed = true
follows Status.pending Status.superseded = true
follows Status.pending Status.cancelled = true
follows Status.queued Status.claimed = true
follows Status.queued Status.applied = true
follows Status.queued Status.failed = true
follows Status.queued Status.superseded = true
follows Status.queued Status.cancelled = true
follows Status.waiting_approval Status.pending = true
follows Status.waiting_approval Status.verified = true
follows Status.waiting_approval Status.rejected = true
follows Status.waiting_approval Status.superseded = true
follows Status.waiting_approval Status.cancelled = true
follows Status.claimed Status.applied = true
follows Status.claimed Status.failed = true
follows Status.claimed Status.expired = true
follows Status.claimed Status.cancelled = true
follows Status.executed Status.applied = true
follows Status.executed Status.failed = true
follows Status.executed Status.verified = true
follows Status.applied Status.applied = true
follows Status.applied Status.failed = true
follows Status.applied Status.verified = true
follows Status.applied Status.cancelled = true
follows Status.failed Status.applied = true
follows Status.failed Status.failed = true
follows (Status.other s) Status.cancelled = true
follows _ _ = false

pub record Arc (c d : NodeCommand) : Type 0 where
  pub same_id : d.id ≡ c.id
  pub same_node : d.node_code ≡ c.node_code
  pub same_type : d.command_type ≡ c.command_type
  pub same_parameters : d.parameters ≡ c.parameters
  pub along : follows c.status d.status ≡ true

pub data Effect (cs cs' : Commands) : Type 0 where
  same : cs' ≡ cs → Effect cs cs'
  all :
      (test : NodeCommand → Bool) (change : NodeCommand → NodeCommand)
      → ((c : NodeCommand) → test c ≡ true → Arc c (change c))
      → cs' ≡ change_all test change cs
      → Effect cs cs'
  one :
      (test : NodeCommand → Bool) (change : NodeCommand → NodeCommand) (c : NodeCommand)
      → find test cs ≡ some c
      → Arc c (change c)
      → cs' ≡ update_first test change cs
      → Effect cs cs'
  added :
      (c : NodeCommand) (now : ℕ)
      → c.id ≡ max_id cs + 1
      → cs' ≡ append_bounded (supersede_pending cs c.node_code c.command_type c.id now).0 c
      → Effect cs cs'

create_command-Effect :
    (numbered_key : ℕ → String) (cs : Commands) (node type risk : String) (status : Status)
    (operator : String) (parameters : Parameters) (baseline : List (String × Production)) (now : ℕ)
    → Effect cs
        (create_command numbered_key cs node type risk status operator parameters baseline now).0
unfolding create_command new_command
create_command-Effect numbered_key cs node type risk status operator parameters baseline now =
    let key = text_or_empty parameters.idempotency_key in
    elim (Option-cases (find_existing cs node type key)) [
      | inr (c, e) ↦ rw (e, create_command) (Effect.same refl)
      | inl e ↦
          rw (e, create_command)
            (Effect.added
              (new_command numbered_key (max_id cs + 1) node type risk status operator parameters
                baseline now)
              now refl refl)
    ]

-- A call that finds a command changes it along an arc, or leaves everything as it is.
abbrev MayChange :
    (NodeCommand → Bool) → (NodeCommand → NodeCommand) → NodeCommand → Commands → Commands → Type 0
MayChange test change c cs cs' =
    (cs' ≡ cs) ⊎ (Arc c (change c) × (cs' ≡ update_first test change cs))

MayChange-Effect :
    (test : NodeCommand → Bool) (change : NodeCommand → NodeCommand) (c : NodeCommand)
    (cs cs' : Commands)
    → find test cs ≡ some c
    → MayChange test change c cs cs'
    → Effect cs cs'
MayChange-Effect test change c cs cs' e (inl unchanged) = Effect.same unchanged
MayChange-Effect test change c cs cs' e (inr (arc, updated)) =
    Effect.one test change c e arc updated

module _ (cs : Commands) where
  record_result-Effect :
      (node : String) (n : ℕ) (status : Status) (message : String) (now : ℕ)
      → Effect cs (after cs (λ r. r.0) (record_result cs node n status message now))
  unfolding record_result find_for_node
  record_result-Effect node n status message now =
      elim (Option-cases (find (has_id_on node n) cs)) [
        | inl e ↦ rw (e, record_result) (Effect.same refl)
        | inr (c, e) ↦
            MayChange-Effect (has_id_on node n) (with_result (normalized status) message now) c cs _
              e (ground (arith, e))
      ]

  approve-Effect :
      (n : ℕ) (actor : String) (now : ℕ)
      → Effect cs (after cs (λ r. r.0) (Methods.approve cs n actor now))
  unfolding Methods.approve find_command
  approve-Effect n actor now = elim (Option-cases (find (has_id n) cs)) [
    | inl e ↦ rw (e, Methods.approve) (Effect.same refl)
    | inr (c, e) ↦ MayChange-Effect (has_id n) (approved actor now) c cs _ e (ground (arith, e))
  ]

  approve_human_review-Effect :
      (n : ℕ) (actor : String) (now : ℕ)
      → Effect cs (after cs (λ r. r.0) (Methods.approve_human_review cs n actor now))
  unfolding Methods.approve_human_review find_command
  approve_human_review-Effect n actor now = elim (Option-cases (find (has_id n) cs)) [
    | inl e ↦ rw (e, Methods.approve_human_review) (Effect.same refl)
    | inr (c, e) ↦ MayChange-Effect (has_id n) (accepted actor now) c cs _ e (ground (arith, e))
  ]

  reject-Effect :
      (n : ℕ) (actor : String) (now : ℕ)
      → Effect cs (after cs (λ r. r.0) (Methods.reject cs n actor now))
  unfolding Methods.reject find_command
  reject-Effect n actor now = elim (Option-cases (find (has_id n) cs)) [
    | inl e ↦ rw (e, Methods.reject) (Effect.same refl)
    | inr (c, e) ↦ MayChange-Effect (has_id n) (rejected actor now) c cs _ e (ground (arith, e))
  ]

  cancel-Effect :
      (n : ℕ) (actor reason : String) (now : ℕ)
      → Effect cs (after cs (λ r. r.0) (Methods.cancel cs n actor reason now))
  unfolding Methods.cancel find_command
  cancel-Effect n actor reason now = elim (Option-cases (find (has_id n) cs)) [
    | inl e ↦ rw (e, Methods.cancel) (Effect.same refl)
    | inr (c, e) ↦
        MayChange-Effect (has_id n) (cancelled actor reason now) c cs _ e (ground (arith, e))
  ]

  retry-Effect :
      (numbered_key : ℕ → String) (n : ℕ) (actor : String) (now : ℕ)
      → Effect cs (after cs (λ r. r.0) (Methods.retry numbered_key cs n actor now))
  unfolding Methods.retry find_command
  retry-Effect numbered_key n actor now = elim (Option-cases (find (has_id n) cs)) [
    | inl e ↦ rw (e, Methods.retry) (Effect.same refl)
    | inr (c, e) ↦ elim (Bool-cases (is_retryable c.status)) [
      | inl may ↦
          rw (e, Methods.retry)
            (rw may (
              create_command-Effect numbered_key cs c.node_code c.command_type c.risk_level
                Status.pending actor (retry_parameters c) [] now))
      | inr refused ↦ rw (e, Methods.retry) (rw refused (Effect.same refl))
    ]
  ]

  claim_for_node-Effect :
      (node agent : String) (now : ℕ) → Effect cs (claim_for_node cs node agent now).0
  unfolding claim_for_node
  claim_for_node-Effect node agent now =
      Effect.all (is_claimable_by node) (claimed node agent now) (λ c h. ground arith) refl

  expire_stale_claims-Effect : (ttl now : ℕ) → Effect cs (expire_stale_claims cs ttl now).0
  unfolding expire_stale_claims
  expire_stale_claims-Effect ttl now =
      Effect.all (is_stale ttl now) (expired ttl now) (λ c h. ground arith) refl

  verify_target_rate-Effect :
      (node : String) (rate now : ℕ) → Effect cs (verify_target_rate cs node rate now).0
  unfolding verify_target_rate
  verify_target_rate-Effect node rate now =
      Effect.all (is_reached node rate) (reached rate now) (λ c h. ground arith) refl

pub apply-Effect :
    (numbered_key : ℕ → String) (call : Call) (now : ℕ) (cs : Commands)
    → Effect cs (apply numbered_key call now cs)
unfolding apply
apply-Effect k (Call.create node type risk status operator parameters baseline) now cs =
    create_command-Effect k cs node type risk status operator parameters baseline now
apply-Effect k (Call.claim node agent) now cs = claim_for_node-Effect cs node agent now
apply-Effect k (Call.result node n status message) now cs =
    record_result-Effect cs node n status message now
apply-Effect k (Call.approve n actor) now cs = approve-Effect cs n actor now
apply-Effect k (Call.approve_human_review n actor) now cs =
    approve_human_review-Effect cs n actor now
apply-Effect k (Call.reject n actor) now cs = reject-Effect cs n actor now
apply-Effect k (Call.cancel n actor reason) now cs = cancel-Effect cs n actor reason now
apply-Effect k (Call.retry n actor) now cs = retry-Effect cs k n actor now
apply-Effect k (Call.expire ttl) now cs = expire_stale_claims-Effect cs ttl now
apply-Effect k (Call.verify node rate) now cs = verify_target_rate-Effect cs node rate now

-- An invariant that every effect keeps holds after every sequence of calls.
pub run_invariant {ℓ} :
    (P : Commands → Type ℓ)
    → ((cs cs' : Commands) → Effect cs cs' → P cs → P cs')
    → (numbered_key : ℕ → String) (calls : List (Call × ℕ)) (cs : Commands) → P cs
    → P (run numbered_key calls cs)
unfolding run
run_invariant P keep k [] cs h = h
run_invariant P keep k ((call, now) ∷ calls) cs h =
    run_invariant P keep k calls (apply k call now cs)
      (keep cs (apply k call now cs) (apply-Effect k call now cs) h)
