-- ===== src/Principals.antt =====
-- Principals and their credentials (services/central-api/app/core/principals.py), for one tenant and
-- site, on the tables of services/central-api/app/core/principal_schema.py.
pub mod Credentials
pub mod Live
pub mod Effects
pub mod Runs
pub mod Access
mod Tests
use Prim.Native.String.{◌++◌ as str_append}
use mini_ogas.Prelude.{
  ℕ, Bool, true, false, not, ◌&&◌, ◌||◌, Option, none, some, List, [], ◌∷◌, ◌++◌, String, str_eq,
  ltb, leb, any, find, count, change_all, length, codes, is_empty, ◌==◌, if◌then◌else◌, Result, ok,
  err,
}
use mini_ogas.Prelude.Actions.{Transaction, pure, check, gets, modify, ◌>>=◌, ◌>>◌}

pub data PrincipalType : Type 0 where
  human service node ai_agent : PrincipalType

pub data PrincipalError : Type 0 where
  invalid_name short_token constraint_violated : PrincipalError

pub record Principal : Type 0 where
  pub principal_id : String
  pub principal_type : PrincipalType
  pub display_name : String
  pub node_code : Option String
  pub active : Bool

pub record PrincipalRole : Type 0 where
  pub principal_id : String
  pub role_name : String

pub record Credential : Type 0 where
  pub credential_id : String
  pub principal_id : String
  pub token_hash : String
  pub created_at : ℕ
  pub expires_at : Option ℕ
  pub revoked_at : Option ℕ
  pub rotated_from : Option String

pub record Store : Type 0 where
  pub roles : List String
  pub principals : List Principal
  pub principal_roles : List PrincipalRole
  pub credentials : List Credential

-- What `secrets` gives to a rotation, and the time.
pub record Secrets : Type 0 where
  pub token : String
  pub credential_id : String
  pub now : ℕ

pub record Issued : Type 0 where
  pub credential_id : String
  pub principal_id : String
  pub token : String

-- A call is made of transactions. One that raises leaves what the transactions before it left.
abbrev pub Call : Type 0 → Type 0
Call A = Store → Result PrincipalError A × Store

abbrev pub Action : Type 0 → Type 0
Action A = Transaction Store PrincipalError A

abbrev pub committed :
    {A : Type 0} → Store → Result PrincipalError (A × Store) → Result PrincipalError A × Store
committed s (ok (a, t)) = (ok a, t)
committed s (err e) = (err e, s)

abbrev pub next_of :
    {A B : Type 0} → Call B → Result PrincipalError A × Store → Result PrincipalError B × Store
next_of call (ok a, s) = call s
next_of call (err e, s) = (err e, s)

abbrev pub is_letter_or_digit : ℕ → Bool
is_letter_or_digit c =
    (leb b'A' c && leb c b'Z') || (leb b'a' c && leb c b'z') || (leb b'0' c && leb c b'9')

abbrev pub is_name_character : ℕ → Bool
is_name_character c = is_letter_or_digit c || c == b'.' || c == b'_' || c == b'-'

abbrev pub is_name : List ℕ → Bool
is_name [] = false
is_name (c ∷ cs) =
    is_letter_or_digit c
    && not (any (λ d. not (is_name_character d)) cs)
    && leb 1 (length cs)
    && leb (length cs) 63

-- `NODE_CODE_PATTERN.fullmatch`
abbrev pub is_node_code : String → Bool
is_node_code s = is_name (codes s)

abbrev pub is_principal : String → Principal → Bool
is_principal id p = str_eq p.principal_id id

abbrev pub same_code : Option String → Option String → Bool
same_code (some a) (some b) = str_eq a b
same_code _ _ = false

-- The row of another principal has the node code.
abbrev pub takes_code : String → Option String → Principal → Bool
takes_code id code p = not (str_eq p.principal_id id) && same_code p.node_code code

abbrev pub has_role : String → String → PrincipalRole → Bool
has_role id role r = str_eq r.principal_id id && str_eq r.role_name role

abbrev pub is_none : Option ℕ → Bool
is_none none = true
is_none (some n) = false

-- `principal_id = ? AND revoked_at IS NULL`
abbrev pub is_live_of : String → Credential → Bool
is_live_of id c = str_eq c.principal_id id && is_none c.revoked_at

abbrev pub is_of : String → Credential → Bool
is_of id c = str_eq c.principal_id id

abbrev pub newer : Credential → Option Credential → Credential
newer c none = c
newer c (some d) = if ltb c.created_at d.created_at then d else c

-- `ORDER BY created_at DESC LIMIT 1`
abbrev pub newest_live : String → List Credential → Option Credential
newest_live id [] = none
newest_live id (c ∷ cs) =
    let rest = newest_live id cs in if is_live_of id c then some (newer c rest) else rest

abbrev pub revoked : ℕ → Credential → Credential
revoked now c = record c { revoked_at = some now }

abbrev pub id_of : Option Credential → Option String
id_of none = none
id_of (some c) = some c.credential_id

-- `_ensure_principal`
unfoldable pub ensure_principal :
    String → PrincipalType → String → Option String → Action (Unit {0})
ensure_principal id type name code = do
  s ← gets (λ t. t)
  check (not (any (takes_code id code) s.principals)) PrincipalError.constraint_violated
  modify (λ t. record t {
    principals =
        if any (is_principal id) t.principals
        then change_all (is_principal id) (λ p. record p { display_name = name; node_code = code })
            t.principals
        else t.principals
          ++ record {
            principal_id = id;
            principal_type = type;
            display_name = name;
            node_code = code;
            active = true;
          }
            ∷ [];
  })

-- `_assign_role`
unfoldable pub assign_role : String → String → Action (Unit {0})
assign_role id role = do
  s ← gets (λ t. t)
  check (any (str_eq role) s.roles) PrincipalError.constraint_violated
  modify (λ t. record t {
    principal_roles =
        if any (has_role id role) t.principal_roles
        then t.principal_roles
        else t.principal_roles ++ record { principal_id = id; role_name = role } ∷ [];
  })

-- Identifiers and digests of credentials are unique.
unfoldable pub insert_credential : Credential → Action (Unit {0})
insert_credential c = do
  s ← gets (λ t. t)
  check (not (any (λ d. str_eq d.credential_id c.credential_id) s.credentials))
      PrincipalError.constraint_violated
  check (not (any (λ d. str_eq d.token_hash c.token_hash) s.credentials))
      PrincipalError.constraint_violated
  modify (λ t. record t { credentials = t.credentials ++ c ∷ [] })

-- The `UPDATE` of the live credentials of a principal.
abbrev pub revoke_live : String → ℕ → Store → Store
revoke_live id now s = record s {
  credentials = change_all (is_live_of id) (revoked now) s.credentials;
}

-- `revoke_principal_credentials`: how many were revoked.
unfoldable pub revoke_principal_credentials : String → ℕ → Store → ℕ × Store
revoke_principal_credentials id now s = (count (is_live_of id) s.credentials, revoke_live id now s)

abbrev pub enrolled : String → PrincipalType → String → Option String → String → Call (Unit {0})
enrolled id type name code role s =
    next_of (λ t. committed t (assign_role id role t))
      (committed s (ensure_principal id type name code s))
