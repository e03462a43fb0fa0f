-- ===== src/Principals/Runs.antt =====
-- Calls on credentials that come one after another
-- (services/central-api/app/core/principals.py).
use mini_ogas.Prelude.{ℕ, ◌≤◌, refl, none, some, List, [], ◌∷◌, String, count}
use Prim.Native.String.{◌++◌ as str_append}
use mini_ogas.Principals.{PrincipalType, Store, Secrets, is_live_of, revoke_principal_credentials}
use mini_ogas.Principals.Credentials.{
  rotate_node_credential, rotate_service_credential, rotate_ai_agent_credential,
  provision_node_credential,
}
use mini_ogas.Principals.Live.{Alters, Alters-OneLive, OneLive}
use mini_ogas.Principals.Effects.{rotate-Alters, provision_node_credential-Alters}

-- The calls that change credentials.
pub data Request : Type 0 where
  rotate_node rotate_service rotate_ai_agent provision : String → Secrets → Request
  revoke : String → ℕ → Request

module _ (token_hash : String → String) where
  abbrev pub perform : Request → Store → Store
  perform (Request.rotate_node code secret) s = (rotate_node_credential token_hash code secret s).1
  perform (Request.rotate_service name secret) s =
      (rotate_service_credential token_hash name secret s).1
  perform (Request.rotate_ai_agent name secret) s =
      (rotate_ai_agent_credential token_hash name secret s).1
  perform (Request.provision code secret) s = (provision_node_credential token_hash code secret s).1
  perform (Request.revoke id now) s = (revoke_principal_credentials id now s).1

  abbrev pub run_all : List Request → Store → Store
  run_all [] s = s
  run_all (r ∷ rs) s = run_all rs (perform r s)

  perform-Alters : (r : Request) (s : Store) → Alters s.credentials (perform r s).credentials
  unfolding rotate_node_credential rotate_service_credential rotate_ai_agent_credential
      revoke_principal_credentials
  perform-Alters (Request.rotate_node code secret) s =
      rotate-Alters token_hash (str_append "node:" code) PrincipalType.node code (some code)
        "node_agent" secret s
  perform-Alters (Request.rotate_service name secret) s =
      rotate-Alters token_hash (str_append "service:" name) PrincipalType.service name none
        "service_reader" secret s
  perform-Alters (Request.rotate_ai_agent name secret) s =
      rotate-Alters token_hash (str_append "ai:" name) PrincipalType.ai_agent name none "ai_agent"
        secret s
  perform-Alters (Request.provision code secret) s =
      provision_node_credential-Alters token_hash code secret s
  perform-Alters (Request.revoke id now) s = Alters.withdrawn id now refl

  -- If no principal has more than one credential that is not revoked, that stays so over any calls
  -- that rotate, provision and revoke credentials, those that raise included.
  pub run_all-OneLive :
      (rs : List Request) (s : Store)
      → OneLive s.credentials
      → (k : String) → count (is_live_of k) (run_all rs s).credentials ≤ 1
  run_all-OneLive [] s one = one
  run_all-OneLive (r ∷ rs) s one =
      run_all-OneLive rs (perform r s)
        (Alters-OneLive s.credentials (perform r s).credentials (perform-Alters r s) one)
