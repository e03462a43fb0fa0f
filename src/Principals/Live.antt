-- ===== src/Principals/Live.antt =====
-- The live credentials of a principal (services/central-api/app/core/principals.py).
use mini_ogas.Prelude.{
  ℕ, ◌≤◌, ◌≡◌, refl, false, List, [], ◌∷◌, ◌++◌, String, str_eq, arith, eq_iff, any, count,
  count-append, change_all, Bool-cases, inl, inr, subst,
}
use mini_ogas.Principals.{Credential, is_live_of, is_of, revoked}

-- What a call does to the credentials.
pub data Alters (cs cs' : List Credential) : Type 0 where
  kept : cs' ≡ cs → Alters cs cs'
  withdrawn :
      (id : String) (now : ℕ) → cs' ≡ change_all (is_live_of id) (revoked now) cs → Alters cs cs'
  replaced :
      (now : ℕ) (c : Credential)
      → cs' ≡ change_all (is_live_of c.principal_id) (revoked now) cs ++ c ∷ []
      → Alters cs cs'
  first :
      (c : Credential) → any (is_of c.principal_id) cs ≡ false → cs' ≡ cs ++ c ∷ [] → Alters cs cs'

pub live-revoked :
    (id : String) (now : ℕ) (cs : List Credential)
    → count (is_live_of id) (change_all (is_live_of id) (revoked now) cs) ≡ 0
live-revoked id now [] = refl
live-revoked id now (c ∷ cs) = ground (arith, live-revoked id now cs)

live-others :
    (id k : String) (now : ℕ) (cs : List Credential)
    → count (is_live_of k) (change_all (is_live_of id) (revoked now) cs) ≤ count (is_live_of k) cs
live-others id k now [] = omega arith
live-others id k now (c ∷ cs) = ground (arith, live-others id k now cs)

live-none :
    (id : String) (cs : List Credential) → any (is_of id) cs ≡ false → count (is_live_of id) cs ≡ 0
live-none id [] h = refl
live-none id (c ∷ cs) h = ground (arith, live-none id cs)

abbrev pub OneLive : List Credential → Type 0
OneLive cs = (k : String) → count (is_live_of k) cs ≤ 1

appended :
    (c : Credential) (cs : List Credential)
    → OneLive cs
    → count (is_live_of c.principal_id) cs ≡ 0
    → OneLive (cs ++ c ∷ [])
appended c cs one none_live k = elim (Bool-cases (str_eq c.principal_id k)) [
  | inl same ↦
      let at : c.principal_id ≡ k = (eq_iff c.principal_id k).0 same in
      let none_of_k : count (is_live_of k) cs ≡ 0 =
        subst (λ x. count (is_live_of x) cs ≡ 0) at none_live in
      ground (arith, count-append (is_live_of k) cs (c ∷ []))
  | inr other ↦ ground (arith, count-append (is_live_of k) cs (c ∷ []), one k)
]

pub Alters-OneLive : (cs cs' : List Credential) → Alters cs cs' → OneLive cs → OneLive cs'
Alters-OneLive cs cs' (Alters.kept e) one = rw e one
Alters-OneLive cs cs' (Alters.withdrawn id now e) one =
    rw e (λ k. omega (arith, live-others id k now cs, one k))
Alters-OneLive cs cs' (Alters.replaced now c e) one = rw e (
    appended c (change_all (is_live_of c.principal_id) (revoked now) cs)
      (λ k. omega (arith, live-others c.principal_id k now cs, one k))
      (live-revoked c.principal_id now cs))
Alters-OneLive cs cs' (Alters.first c fresh e) one =
    rw e (appended c cs one (live-none c.principal_id cs fresh))
