-- ===== src/Principals/Effects.antt =====
-- What each call does to the credentials
-- (services/central-api/app/core/principals.py).
use mini_ogas.Prelude.{
  ◌≡◌, refl, Bool, false, Option, none, some, [], ◌∷◌, ◌++◌, String, str_eq, arith, leb, length,
  codes, any, change_all, Bool-cases, Result-cases, inl, inr, Result, ok, err, subst, ◌∙◌,
}
use Prim.Native.String.{◌++◌ as str_append}
use mini_ogas.Principals.{
  PrincipalType, Credential, Store, Secrets, Issued, Action, is_live_of, is_of, revoked,
  ensure_principal, assign_role, insert_credential, enrolled, committed, next_of, is_node_code,
  PrincipalError, id_of, newest_live,
}
use mini_ogas.Principals.Credentials.{
  replace_credential, rotate, first_credential, provision_node_credential,
}
use mini_ogas.Principals.Live.{Alters}

ensure_principal-credentials :
    (id : String) (type : PrincipalType) (name : String) (code : Option String) (s t : Store)
    → ensure_principal id type name code s ≡ ok (tt, t)
    → t.credentials ≡ s.credentials
unfolding ensure_principal
ensure_principal-credentials id type name code s t h = ground arith

assign_role-credentials :
    (id role : String) (s t : Store)
    → assign_role id role s ≡ ok (tt, t)
    → t.credentials ≡ s.credentials
unfolding assign_role
assign_role-credentials id role s t h = ground arith

pub enrolled-credentials :
    (id : String) (type : PrincipalType) (name : String) (code : Option String) (role : String)
    (s : Store)
    → (enrolled id type name code role s).1.credentials ≡ s.credentials
enrolled-credentials id type name code role s =
    elim (Result-cases (ensure_principal id type name code s)) [
      | inr (e, raised) ↦ rw raised refl
      | inl ((_, t), there) ↦
          let before = ensure_principal-credentials id type name code s t there in
          elim (Result-cases (assign_role id role t)) [
            | inr (e, raised) ↦ rw (there, raised) before
            | inl ((_, u), given) ↦
                rw (there, given) (assign_role-credentials id role t u given ∙ before)
          ]
    ]

-- A transaction after others, which did not change the credentials.
module _ {A B : Type 0} (tx : Action A) (before : Result PrincipalError B × Store) (s : Store)
    (same : before.1.credentials ≡ s.credentials)
    (alters : (t u : Store) (a : A) → tx t ≡ ok (a, u) → Alters t.credentials u.credentials) where
  committed-Alters : (t : Store) → Alters t.credentials (committed t (tx t)).1.credentials
  committed-Alters t = elim (Result-cases (tx t)) [
    | inr (e, raised) ↦ rw raised (Alters.kept refl)
    | inl ((a, u), done) ↦ rw done (alters t u a done)
  ]

next_of-Alters :
    {A B : Type 0} (tx : Action A) (before : Result PrincipalError B × Store) (s : Store)
    → before.1.credentials ≡ s.credentials
    → ((t u : Store) (a : A) → tx t ≡ ok (a, u) → Alters t.credentials u.credentials)
    → Alters s.credentials (next_of (λ t. committed t (tx t)) before).1.credentials
next_of-Alters tx (ok b, t) s same alters =
    subst (λ cs. Alters cs (committed t (tx t)).1.credentials) same
      (committed-Alters tx (ok b, t) s same alters t)
next_of-Alters tx (err e, t) s same alters = Alters.kept same

insert_credential_lem :
    (c : Credential) (s t : Store)
    → insert_credential c s ≡ ok (tt, t)
    → t ≡ record s { credentials = s.credentials ++ c ∷ [] }
unfolding insert_credential
insert_credential_lem c s t h = ground arith

module _ (token_hash : String → String) where
  -- A replaced credential: the row that is new, and what is left.
  pub record Replaces (id : String) (secret : Secrets) (i : Issued) (s t : Store) : Type 0 where
    pub row : Credential
    pub of_principal : row.principal_id ≡ id
    pub of_token : row.token_hash ≡ token_hash secret.token
    pub live : (row.revoked_at ≡ none) × (row.expires_at ≡ none)
    pub issued :
        i ≡ record { credential_id = row.credential_id; principal_id = id; token = secret.token }
    pub fresh :
        any
          (λ d. str_eq d.token_hash (token_hash secret.token))
          (change_all (is_live_of id) (revoked secret.now) s.credentials)
        ≡ false
    pub left : t ≡ record s {
      credentials = change_all (is_live_of id) (revoked secret.now) s.credentials ++ row ∷ [];
    }

  pub replace_credential_lem :
      (id : String) (secret : Secrets) (s t : Store) (i : Issued)
      → replace_credential token_hash id secret s ≡ ok (i, t)
      → Replaces id secret i s t
  unfolding replace_credential insert_credential
  replace_credential_lem id secret s t i h = record {
    row = record {
      credential_id = secret.credential_id;
      principal_id = id;
      token_hash = token_hash secret.token;
      created_at = secret.now;
      expires_at = none;
      revoked_at = none;
      rotated_from = id_of (newest_live id s.credentials);
    };
    of_principal = refl;
    of_token = refl;
    live = (refl, refl);
    issued = ground arith;
    fresh = ground arith;
    left = ground arith;
  }

  pub replace_credential-Alters :
      (id : String) (secret : Secrets) (s t : Store) (i : Issued)
      → replace_credential token_hash id secret s ≡ ok (i, t)
      → Alters s.credentials t.credentials
  replace_credential-Alters id secret s t i h =
      let r = replace_credential_lem id secret s t i h in
      Alters.replaced secret.now r.row (ground (arith, r.of_principal, r.left))

  first_credential-Alters :
      (id token : String) (secret : Secrets) (s t : Store) (b : Bool)
      → first_credential token_hash id token secret s ≡ ok (b, t)
      → Alters s.credentials t.credentials
  unfolding first_credential insert_credential
  first_credential-Alters id token secret s t b h =
      elim (Bool-cases (any (is_of id) s.credentials)) [
        | inl there ↦ Alters.kept (ground (arith, there))
        | inr fresh ↦
            Alters.first
              (record {
                credential_id = secret.credential_id;
                principal_id = id;
                token_hash = token_hash token;
                created_at = secret.now;
                expires_at = none;
                revoked_at = none;
                rotated_from = none;
              })
              fresh (ground (arith, fresh))
      ]

  pub rotate-Alters :
      (id : String) (type : PrincipalType) (subject : String) (code : Option String) (role : String)
      (secret : Secrets) (s : Store)
      → Alters s.credentials (rotate token_hash id type subject code role secret s).1.credentials
  unfolding rotate
  rotate-Alters id type subject code role secret s = elim (Bool-cases (is_node_code subject)) [
    | inr bad ↦ rw bad (Alters.kept refl)
    | inl fine ↦ rw fine (
        next_of-Alters (replace_credential token_hash id secret)
          (enrolled id type subject code role s) s
          (enrolled-credentials id type subject code role s) (replace_credential-Alters id secret))
  ]

  pub provision_node_credential-Alters :
      (code : String) (secret : Secrets) (s : Store)
      → Alters s.credentials (provision_node_credential token_hash code secret s).1.credentials
  unfolding provision_node_credential
  provision_node_credential-Alters code secret s =
      elim (Bool-cases (leb 32 (length (codes secret.token)))) [
        | inr short ↦ rw short (Alters.kept refl)
        | inl long ↦ elim (Bool-cases (is_node_code code)) [
          | inr bad ↦ rw (long, bad) (Alters.kept refl)
          | inl fine ↦
              rw (long, fine)
                (next_of-Alters
                  (first_credential token_hash (str_append "node:" code) secret.token secret)
                  (enrolled (str_append "node:" code) PrincipalType.node code (some code)
                    "node_agent" s)
                  s
                  (enrolled-credentials (str_append "node:" code) PrincipalType.node code
                    (some code) "node_agent" s)
                  (first_credential-Alters (str_append "node:" code) secret.token secret))
        ]
      ]
