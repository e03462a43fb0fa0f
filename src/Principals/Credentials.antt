-- ===== src/Principals/Credentials.antt =====
-- The rotation, provision and check of credentials (services/central-api/app/core/principals.py).
use Prim.Native.String.{◌++◌ as str_append}
use mini_ogas.Prelude.{
  ℕ, Bool, true, false, not, ◌&&◌, Option, none, some, List, String, str_eq, leb, any, find, length,
  codes, is_empty, if◌then◌else◌, err,
}
use mini_ogas.Prelude.Actions.{pure, gets, modify, ◌>>=◌, ◌>>◌}
use mini_ogas.Principals.{
  PrincipalType, PrincipalError, Principal, Credential, Store, Secrets, Issued, Call, Action,
  committed, next_of, is_node_code, is_principal, is_none, is_of, newest_live, id_of,
  insert_credential, revoke_live, enrolled,
}

abbrev pub is_expired : Option ℕ → ℕ → Bool
is_expired none now = false
is_expired (some e) now = leb e now

abbrev pub is_usable : String → ℕ → List Principal → Credential → Bool
is_usable hash now ps c =
    str_eq c.token_hash hash
    && is_none c.revoked_at
    && not (is_expired c.expires_at now)
    && any (λ p. is_principal c.principal_id p && p.active) ps

-- The principal of `_authenticate_credential`, with the number of its credential.
-- The digest of a token is a parameter.
module _ (token_hash : String → String) where
  -- The last transaction of a rotation.
  unfoldable pub replace_credential : String → Secrets → Action Issued
  replace_credential id secret = do
    s ← gets (λ t. t)
    modify (revoke_live id secret.now)
    insert_credential (record {
      credential_id = secret.credential_id;
      principal_id = id;
      token_hash = token_hash secret.token;
      created_at = secret.now;
      expires_at = none;
      revoked_at = none;
      rotated_from = id_of (newest_live id s.credentials);
    })
    pure (record { credential_id = secret.credential_id; principal_id = id; token = secret.token })

  -- What `rotate_node_credential` and `_rotate_nonhuman_credential` share.
  unfoldable pub rotate :
      String → PrincipalType → String → Option String → String → Secrets → Call Issued
  rotate id type subject code role secret s =
      if is_node_code subject
      then next_of (λ t. committed t (replace_credential id secret t))
          (enrolled id type subject code role s)
      else (err PrincipalError.invalid_name, s)

  unfoldable pub rotate_node_credential : String → Secrets → Call Issued
  rotate_node_credential code secret =
      rotate (str_append "node:" code) PrincipalType.node code (some code) "node_agent" secret

  unfoldable pub rotate_service_credential : String → Secrets → Call Issued
  rotate_service_credential name secret =
      rotate (str_append "service:" name) PrincipalType.service name none "service_reader" secret

  unfoldable pub rotate_ai_agent_credential : String → Secrets → Call Issued
  rotate_ai_agent_credential name secret =
      rotate (str_append "ai:" name) PrincipalType.ai_agent name none "ai_agent" secret

  unfoldable pub first_credential : String → String → Secrets → Action Bool
  first_credential id token secret = do
    s ← gets (λ t. t)
    elim (any (is_of id) s.credentials) [
      | true ↦ pure false
      | false ↦
          insert_credential (record {
            credential_id = secret.credential_id;
            principal_id = id;
            token_hash = token_hash token;
            created_at = secret.now;
            expires_at = none;
            revoked_at = none;
            rotated_from = none;
          })
          >> pure true
    ]

  -- `provision_node_credential`; its token is the one that is configured.
  unfoldable pub provision_node_credential : String → Secrets → Call Bool
  provision_node_credential code secret s =
      if not (leb 32 (length (codes secret.token)))
      then (err PrincipalError.short_token, s)
      else if not (is_node_code code)
      then (err PrincipalError.invalid_name, s)
      else next_of
          (λ t. committed t (first_credential (str_append "node:" code) secret.token secret t))
          (enrolled (str_append "node:" code) PrincipalType.node code (some code) "node_agent" s)

  unfoldable pub authenticate_credential :
      String → (PrincipalType → Bool) → ℕ → Store → Option (Principal × String)
  authenticate_credential token allowed now s =
      if is_empty token
      then none
      else elim (find (is_usable (token_hash token) now s.principals) s.credentials) [
        | none ↦ none
        | some c ↦ elim (find (is_principal c.principal_id) s.principals) [
          | none ↦ none
          | some p ↦ if allowed p.principal_type then some (p, c.credential_id) else none
        ]
      ]
