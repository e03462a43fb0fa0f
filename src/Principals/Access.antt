-- ===== src/Principals/Access.antt =====
-- Who is authenticated after credentials were rotated or revoked
-- (services/central-api/app/core/principals.py).
use mini_ogas.Prelude.{
  ℕ, ◌≡◌, refl, Bool, true, false, ◌&&◌, Option, none, some, List, [], ◌∷◌, ◌++◌, String, str_eq,
  arith, eq_iff, eq_refl, is_empty, find-append_none, any, find, find_sound, count, change_all,
  Bool-cases, Option-cases, Result-cases, inl, inr, Result, ok, err, sym, subst, ◌∙◌, ap,
}
use mini_ogas.Principals.{
  Principal, PrincipalType, Credential, Store, Secrets, Issued, Action, is_live_of, revoked,
  is_principal, enrolled, revoke_principal_credentials, committed, next_of, is_node_code,
  PrincipalError,
}
use mini_ogas.Principals.Credentials.{
  is_usable, replace_credential, rotate, authenticate_credential,
}
use mini_ogas.Principals.Live.{live-revoked}
use mini_ogas.Principals.Effects.{replace_credential_lem}

-- A credential of the principal that is not revoked, of the digest.
abbrev is_live_with : String → String → Credential → Bool
is_live_with id hash c = is_live_of id c && str_eq c.token_hash hash

found_any {ℓ} :
    {A : Type ℓ} (p q : A → Bool) (xs : List A) (y : A)
    → find p xs ≡ some y
    → q y ≡ true
    → any q xs ≡ true
found_any p q [] y h at = absurd (ground arith)
found_any p q (x ∷ xs) y h at = elim (Bool-cases (p x)) [
  | inl here ↦
      let same : x ≡ y = ground (arith, here) in
      let at' : q x ≡ true = subst (λ z. q z ≡ true) (sym same) at in ground (arith, at')
  | inr there ↦ ground (arith, there, found_any p q xs y)
]

any_append_one :
    (q : Credential → Bool) (cs : List Credential) (c : Credential)
    → any q cs ≡ false
    → any q (cs ++ c ∷ []) ≡ q c
any_append_one q [] c h = ground arith
any_append_one q (d ∷ cs) c h = ground (arith, any_append_one q cs c)

none_live_with :
    (id hash : String) (cs : List Credential)
    → count (is_live_of id) cs ≡ 0
    → any (is_live_with id hash) cs ≡ false
none_live_with id hash [] h = refl
none_live_with id hash (c ∷ cs) h = ground (arith, none_live_with id hash cs)

last_done :
    {A B : Type 0} (tx : Action A) (before : Result PrincipalError B × Store) (a : A) (u : Store)
    → next_of (λ t. committed t (tx t)) before ≡ (ok a, u)
    → (t : Store) × (tx t ≡ ok (a, u))
last_done tx (err e, t) a u h = absurd (ground arith)
last_done tx (ok b, t) a u h = elim (Result-cases (tx t)) [
  | inr (e, raised) ↦ absurd (ground (arith, raised))
  | inl ((a', u'), done) ↦ (t, ground (arith, done))
]

module _ (token_hash : String → String) where
  authenticated_live :
      (token : String) (allowed : PrincipalType → Bool) (now : ℕ) (s : Store) (p : Principal)
      (n : String)
      → authenticate_credential token_hash token allowed now s ≡ some (p, n)
      → any (is_live_with p.principal_id (token_hash token)) s.credentials ≡ true
  unfolding authenticate_credential
  authenticated_live token allowed now s p n h =
      elim (Option-cases (find (is_usable (token_hash token) now s.principals) s.credentials)) [
        | inl e ↦ absurd (ground (arith, e))
        | inr (c, e) ↦ elim (Option-cases (find (is_principal c.principal_id) s.principals)) [
          | inl e' ↦ absurd (ground (arith, e, e'))
          | inr (q, e') ↦
              let same : q ≡ p = ground (arith, e, e') in
              let usable =
                find_sound (is_usable (token_hash token) now s.principals) s.credentials c e in
              let of : q.principal_id ≡ c.principal_id =
                (eq_iff q.principal_id c.principal_id).0
                  (find_sound (is_principal c.principal_id) s.principals q e') in
              let of' : c.principal_id ≡ p.principal_id =
                sym of ∙ ap (λ (x : Principal). x.principal_id) same in
              found_any (is_usable (token_hash token) now s.principals)
                (is_live_with p.principal_id (token_hash token)) s.credentials c e
                (ground (arith, usable, (eq_iff c.principal_id p.principal_id).1 of'))
        ]
      ]

  -- When the credentials of a principal were revoked, no token authenticates as that principal.
  pub revoke_principal_credentials-authenticate_credential :
      (id : String) (now : ℕ) (s : Store) (token : String) (allowed : PrincipalType → Bool)
      (later : ℕ) (p : Principal) (n : String)
      → authenticate_credential token_hash token allowed later
          (revoke_principal_credentials id now s).1
        ≡ some (p, n)
      → ¬ (p.principal_id ≡ id)
  unfolding revoke_principal_credentials
  revoke_principal_credentials-authenticate_credential id now s token allowed later p n h at =
      let live =
        authenticated_live token allowed later (revoke_principal_credentials id now s).1 p n h in
      let gone =
        none_live_with id (token_hash token)
          (change_all (is_live_of id) (revoked now) s.credentials)
          (live-revoked id now s.credentials) in
      absurd (ground (arith, at))

  rotate_lem :
      (id : String) (type : PrincipalType) (subject : String) (code : Option String) (role : String)
      (secret : Secrets) (s : Store) (i : Issued) (s' : Store)
      → rotate token_hash id type subject code role secret s ≡ (ok i, s')
      → (t : Store) × (replace_credential token_hash id secret t ≡ ok (i, s'))
  unfolding rotate
  rotate_lem id type subject code role secret s i s' h = elim (Bool-cases (is_node_code subject)) [
    | inr bad ↦ absurd (ground (arith, bad))
    | inl fine ↦
        last_done (replace_credential token_hash id secret) (enrolled id type subject code role s) i
          s' (ground (arith, fine))
  ]

  -- When a credential was rotated, a token that authenticates as its principal has the digest of the
  -- new token, whatever tokens the principal had before.
  pub rotate-others :
      (id : String) (type : PrincipalType) (subject : String) (code : Option String) (role : String)
      (secret : Secrets) (s : Store) (i : Issued) (s' : Store)
      → rotate token_hash id type subject code role secret s ≡ (ok i, s')
      → (token : String) (allowed : PrincipalType → Bool) (later : ℕ) (p : Principal) (n : String)
      → authenticate_credential token_hash token allowed later s' ≡ some (p, n)
      → p.principal_id ≡ id
      → token_hash token ≡ token_hash secret.token
  rotate-others id type subject code role secret s i s' h token allowed later p n known at =
      let (t, done) = rotate_lem id type subject code role secret s i s' h in
      let r = replace_credential_lem token_hash id secret t s' i done in
      let old = change_all (is_live_of id) (revoked secret.now) t.credentials in
      let gone =
        none_live_with id (token_hash token) old (live-revoked id secret.now t.credentials) in
      let live : any (is_live_with id (token_hash token)) (old ++ r.row ∷ []) ≡ true =
        subst (λ x. any (is_live_with id (token_hash token)) x ≡ true)
          (ap (λ (u : Store). u.credentials) r.left)
          (subst (λ x. any (is_live_with x (token_hash token)) s'.credentials ≡ true) at
            (authenticated_live token allowed later s' p n known)) in
      let of_new = any_append_one (is_live_with id (token_hash token)) old r.row gone in
      let same : str_eq r.row.token_hash (token_hash token) ≡ true = ground (arith, of_new) in
      sym ((eq_iff r.row.token_hash (token_hash token)).0 same) ∙ r.of_token

  none_usable :
      (hash : String) (later : ℕ) (ps : List Principal) (cs : List Credential)
      → any (λ d. str_eq d.token_hash hash) cs ≡ false
      → find (is_usable hash later ps) cs ≡ none
  none_usable hash later ps [] h = refl
  none_usable hash later ps (c ∷ cs) h = ground (arith, none_usable hash later ps cs)

  active_there :
      (id : String) (ps : List Principal) (p : Principal)
      → find (is_principal id) ps ≡ some p
      → p.active ≡ true
      → any (λ p. is_principal id p && p.active) ps ≡ true
  active_there id ps p h active =
      found_any (is_principal id) (λ p. is_principal id p && p.active) ps p h
        (ground (arith, find_sound (is_principal id) ps p h))

  -- When a credential was rotated, the new token authenticates as its principal by the credential
  -- that was issued, provided that the token is not empty, and the principal is active and of a type
  -- that is allowed.
  pub rotate-authenticate_credential :
      (id : String) (type : PrincipalType) (subject : String) (code : Option String) (role : String)
      (secret : Secrets) (s : Store) (i : Issued) (s' : Store)
      → rotate token_hash id type subject code role secret s ≡ (ok i, s')
      → (allowed : PrincipalType → Bool) (later : ℕ) (p : Principal)
      → find (is_principal id) s'.principals ≡ some p
      → p.active ≡ true
      → allowed p.principal_type ≡ true
      → is_empty i.token ≡ false
      → authenticate_credential token_hash i.token allowed later s' ≡ some (p, i.credential_id)
  unfolding authenticate_credential
  rotate-authenticate_credential id type subject code role secret s i s' h allowed later p there
        active may given =
      let (t, done) = rotate_lem id type subject code role secret s i s' h in
      let r = replace_credential_lem token_hash id secret t s' i done in
      let old = change_all (is_live_of id) (revoked secret.now) t.credentials in
      let known = active_there id s'.principals p there active in
      let none_before = none_usable (token_hash secret.token) later s'.principals old r.fresh in
      let found : find (is_usable (token_hash i.token) later s'.principals) s'.credentials
          ≡ some r.row =
        ground (
          arith,
          r.left,
          r.issued,
          r.live,
          r.of_token,
          r.of_principal,
          none_before,
          known,
          eq_refl (token_hash secret.token),
          find-append_none (is_usable (token_hash secret.token) later s'.principals) old
              (r.row ∷ []),
        ) in
      ground (arith, found, r.of_principal, there, may, given, r.issued)
