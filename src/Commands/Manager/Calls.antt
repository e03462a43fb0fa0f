-- ===== src/Commands/Manager/Calls.antt =====
-- The calls of CommandManager (services/central-api/app/command_manager.py) as values, so that
-- theorems range over every sequence of them. A call that raises leaves the commands alone.
use mini_ogas.Prelude.{ℕ, List, [], ◌∷◌, String, Result, ok, err}
use mini_ogas.Commands.Model.{Status, Parameters, Production}
use mini_ogas.Commands.Methods.{
  Commands, CommandError, create_command, claim_for_node, record_result, expire_stale_claims,
  verify_target_rate,
}
use mini_ogas.Commands.Methods

-- The arguments of each method, `now` left out.
pub data Call : Type 0 where
  create :
      String → String → String → Status → String → Parameters → List (String × Production) → Call
  claim : String → String → Call
  result : String → ℕ → Status → String → Call
  approve : ℕ → String → Call
  approve_human_review : ℕ → String → Call
  reject : ℕ → String → Call
  cancel : ℕ → String → String → Call
  retry : ℕ → String → Call
  expire : ℕ → Call
  verify : String → ℕ → Call

-- The commands after a call that may raise.
abbrev pub after {ℓ} : {A : Type ℓ} → Commands → (A → Commands) → Result CommandError A → Commands
after commands f (ok a) = f a
after commands f (err e) = commands

module _ (numbered_key : ℕ → String) where
  unfoldable pub apply : Call → ℕ → Commands → Commands
  apply (Call.create node type risk status operator parameters baseline) now cs =
      (create_command numbered_key cs node type risk status operator parameters baseline now).0
  apply (Call.claim node agent) now cs = (claim_for_node cs node agent now).0
  apply (Call.result node n status message) now cs =
      after cs (λ r. r.0) (record_result cs node n status message now)
  apply (Call.approve n actor) now cs = after cs (λ r. r.0) (Methods.approve cs n actor now)
  apply (Call.approve_human_review n actor) now cs =
      after cs (λ r. r.0) (Methods.approve_human_review cs n actor now)
  apply (Call.reject n actor) now cs = after cs (λ r. r.0) (Methods.reject cs n actor now)
  apply (Call.cancel n actor reason) now cs =
      after cs (λ r. r.0) (Methods.cancel cs n actor reason now)
  apply (Call.retry n actor) now cs =
      after cs (λ r. r.0) (Methods.retry numbered_key cs n actor now)
  apply (Call.expire ttl) now cs = (expire_stale_claims cs ttl now).0
  apply (Call.verify node rate) now cs = (verify_target_rate cs node rate now).0

  -- Calls one after another, each with its time.
  unfoldable pub run : List (Call × ℕ) → Commands → Commands
  run [] cs = cs
  run ((call, now) ∷ calls) cs = run calls (apply call now cs)
