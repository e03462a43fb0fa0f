-- ===== src/Commands/Manager/Lifecycle.antt =====
-- The life of one command under the calls of services/central-api/app/command_manager.py.
use mini_ogas.Prelude.{
  change_all, ℕ, zero, suc, ◌-◌, ◌≤◌, ◌<◌, ◌≡◌, ◌⊎◌, inl, inr, refl, some, true, false, Bool, List,
  [], ◌∷◌, ◌++◌, String, arith, subst, length, find, drop, update_first, All, drop-append,
  length-append, Bool-cases, ◌∙◌,
}
use mini_ogas.Commands.Model.{Status, NodeCommand}
use mini_ogas.Commands.Methods.{
  Commands, is_replaced, superseded, supersede_pending, append_bounded, max_id, has_id,
}
use mini_ogas.Commands.Manager.Calls.{Call, apply, run}
use mini_ogas.Commands.Manager.Effects.{Arc, Effect, follows, apply-Effect}
use mini_ogas.Commands.Manager.Ids.{
  ids, Ascending, IsNumbered, Effect-IsNumbered, ids-change_all, ids-update_first, ids-append,
  le-max_id, Ascending-append,
}

-- Any number of arcs.
pub data Reaches (s : Status) : Status → Type 0 where
  here : Reaches s s
  next : {t u : Status} → Reaches s t → follows t u ≡ true → Reaches s u

-- A command before and after: still the same order, moved along arcs only.
pub record History (c d : NodeCommand) : Type 0 where
  pub same_node : d.node_code ≡ c.node_code
  pub same_type : d.command_type ≡ c.command_type
  pub same_parameters : d.parameters ≡ c.parameters
  pub reached : Reaches c.status d.status

abbrev Moved : NodeCommand → NodeCommand → Type 0
Moved c d = (d ≡ c) ⊎ Arc c d

abbrev Came : ℕ → Commands → NodeCommand → Type 0
Came i cs d = (c : NodeCommand) × (find (has_id i) cs ≡ some c) × Moved c d

find-change_all :
    (test : NodeCommand → Bool) (change : NodeCommand → NodeCommand) (i : ℕ) (cs : Commands)
    (d : NodeCommand)
    → ((c : NodeCommand) → test c ≡ true → Arc c (change c))
    → find (has_id i) (change_all test change cs) ≡ some d
    → Came i cs d
find-change_all test change i [] d arc e = absurd (cc)
find-change_all test change i (c ∷ cs) d arc e = elim (Bool-cases (has_id i c)) [
  | inl found ↦ (c, rw found, ground (arith, arc c))
  | inr other ↦
      let (c', e', moved) = find-change_all test change i cs d arc (ground (arith, arc c)) in
      (c', rw other e', moved)
]

find-update_first :
    (test : NodeCommand → Bool) (change : NodeCommand → NodeCommand) (i : ℕ) (cs : Commands)
    (c d : NodeCommand)
    → find test cs ≡ some c
    → Arc c (change c)
    → find (has_id i) (update_first test change cs) ≡ some d
    → Came i cs d
find-update_first test change i [] c d e arc found = absurd (cc)
find-update_first test change i (b ∷ cs) c d e arc found = elim (Bool-cases (has_id i b)) [
  | inl hit ↦ (b, rw hit, ground arith)
  | inr other ↦ elim (Bool-cases (test b)) [
    | inl changed ↦ (d, ground arith, inl refl)
    | inr kept ↦
        let (c', e', moved) =
          find-update_first test change i cs c d (ground arith) arc (ground arith) in
        (c', rw other e', moved)
  ]
]

All-find :
    (i n : ℕ) (cs : Commands) (d : NodeCommand)
    → All (λ m. n < m) (ids cs)
    → find (has_id i) cs ≡ some d
    → n < i
All-find i n [] d h e = absurd (cc)
All-find i n (c ∷ cs) d h e = ground (arith, All-find i n cs d h.1)

find-drop :
    (i k : ℕ) (cs : Commands) (d : NodeCommand)
    → Ascending (ids cs)
    → find (has_id i) (drop k cs) ≡ some d
    → find (has_id i) cs ≡ some d
find-drop i zero cs d h e = e
find-drop i (suc k) [] d h e = e
find-drop i (suc k) (c ∷ cs) d h e =
    ground (arith, find-drop i k cs d h.1 e, All-find i c.id cs d h.0)

find-append :
    (i : ℕ) (cs : Commands) (c d : NodeCommand)
    → find (has_id i) (cs ++ c ∷ []) ≡ some d
    → (find (has_id i) cs ≡ some d) ⊎ (c.id ≡ i)
find-append i [] c d e = ground arith
find-append i (b ∷ cs) c d e = ground (arith, find-append i cs c d)

max_id-append : (cs : Commands) (c : NodeCommand) → c.id ≤ max_id (cs ++ c ∷ [])
unfolding max_id
max_id-append [] c = omega arith
max_id-append (b ∷ cs) c = omega (arith, max_id-append cs c)

max_id-ids : (cs cs' : Commands) → ids cs ≡ ids cs' → max_id cs ≡ max_id cs'
unfolding max_id
max_id-ids [] [] e = refl
max_id-ids [] (d ∷ cs') e = absurd (cc)
max_id-ids (c ∷ cs) [] e = absurd (cc)
max_id-ids (c ∷ cs) (d ∷ cs') e = ground (arith, max_id-ids cs cs')

find-le-max_id :
    (i : ℕ) (cs : Commands) (c : NodeCommand) → find (has_id i) cs ≡ some c → i ≤ max_id cs
unfolding max_id
find-le-max_id i [] c e = absurd (cc)
find-le-max_id i (b ∷ cs) c e = ground (arith, find-le-max_id i cs c)

Effect-max_id : (cs cs' : Commands) → Effect cs cs' → max_id cs ≤ max_id cs'
unfolding append_bounded
Effect-max_id cs cs' (Effect.same e) = rw e (omega arith)
Effect-max_id cs cs' (Effect.all test change arc e) =
    let same = ids-change_all test change cs (λ c t. (arc c t).same_id) in
    rw e (omega (arith, max_id-ids (change_all test change cs) cs same))
Effect-max_id cs cs' (Effect.one test change c found arc e) =
    let same = ids-update_first test change cs c found arc.same_id in
    rw e (omega (arith, max_id-ids (update_first test change cs) cs same))
Effect-max_id cs cs' (Effect.added c now new e) =
    let cs'' = (supersede_pending cs c.node_code c.command_type c.id now).0 in
    let k = length (cs'' ++ c ∷ []) - 100 in
    rw e (
      rw (drop-append k cs'' (c ∷ []) (omega (arith, length-append cs'' (c ∷ []))))
        (omega (arith, max_id-append (drop k cs'') c)))

-- Where a command of the new list comes from: it is new, or one of the old list moved to it.
Effect-Came :
    (i : ℕ) (cs cs' : Commands) (d : NodeCommand)
    → Effect cs cs'
    → IsNumbered cs
    → find (has_id i) cs' ≡ some d
    → (max_id cs < i) ⊎ Came i cs d
unfolding append_bounded supersede_pending
Effect-Came i cs cs' d (Effect.same e) h found = inr (d, rw e at found, inl refl)
Effect-Came i cs cs' d (Effect.all test change arc e) h found =
    inr (find-change_all test change i cs d arc (rw e at found))
Effect-Came i cs cs' d (Effect.one test change c hit arc e) h found =
    inr (find-update_first test change i cs c d hit arc (rw e at found))
Effect-Came i cs cs' d (Effect.added c now new e) h found =
    let test = is_replaced c.node_code c.command_type in
    let cs'' = change_all test (superseded c.id now) cs in
    let below = le-max_id cs c.id (omega arith) in
    let same = ids-change_all test (superseded c.id now) cs (λ b t. refl) in
    let ordered : Ascending (ids (cs'' ++ c ∷ [])) =
      rw (ids-append, same) (Ascending-append (ids cs) c.id h.ascending below) in
    elim (find-append i cs'' c d
      (find-drop i (length (cs'' ++ c ∷ []) - 100) (cs'' ++ c ∷ []) d ordered (rw e at found))) [
        | inr fresh ↦ inl (omega arith)
        | inl old ↦
            inr (find-change_all test (superseded c.id now) i cs d (λ b t. ground arith) old)
      ]

Reaches-after : {s t u : Status} → follows s t ≡ true → Reaches t u → Reaches s u
Reaches-after e Reaches.here = Reaches.next Reaches.here e
Reaches-after e (Reaches.next r f) = Reaches.next (Reaches-after e r) f

History-after : (b c d : NodeCommand) → Moved b c → History c d → History b d
History-after b c d (inl e) h = subst (λ x. History x d) e h
History-after b c d (inr arc) h = record {
  same_node = h.same_node ∙ arc.same_node;
  same_type = h.same_type ∙ arc.same_type;
  same_parameters = h.same_parameters ∙ arc.same_parameters;
  reached = Reaches-after arc.along h.reached;
}

run-origin :
    (numbered_key : ℕ → String) (calls : List (Call × ℕ)) (i : ℕ) (cs : Commands) (d : NodeCommand)
    → IsNumbered cs
    → find (has_id i) (run numbered_key calls cs) ≡ some d
    → (max_id cs < i) ⊎ ((c : NodeCommand) × (find (has_id i) cs ≡ some c) × History c d)
unfolding run
run-origin k [] i cs d h found = inr (
  d,
  found,
  record { same_node = refl; same_type = refl; same_parameters = refl; reached = Reaches.here },
)
run-origin k ((call, now) ∷ calls) i cs d h found =
    let cs' = apply k call now cs in
    let effect = apply-Effect k call now cs in
    elim (run-origin k calls i cs' d (Effect-IsNumbered cs cs' effect h) found) [
      | inl fresh ↦ inl (omega (arith, Effect-max_id cs cs' effect))
      | inr (c, found', history) ↦ elim (Effect-Came i cs cs' c effect h found') [
        | inl fresh ↦ inl fresh
        | inr (b, found'', moved) ↦ inr (b, found'', History-after b c d moved history)
      ]
    ]

-- Take any calls of the command manager, one after another, each with its time, and a hundred
-- commands at most whose numbers ascend. If a number finds a command before and after the calls,
-- the command's node, type and parameters are unchanged, and its status has moved only along the
-- arcs of the life cycle that `follows` lists.
pub run-History :
    (numbered_key : ℕ → String) (calls : List (Call × ℕ)) (i : ℕ) (cs : Commands)
    (c d : NodeCommand)
    → IsNumbered cs
    → find (has_id i) cs ≡ some c
    → find (has_id i) (run numbered_key calls cs) ≡ some d
    → History c d
run-History k calls i cs c d h before after = elim (run-origin k calls i cs d h after) [
  | inl fresh ↦ absurd (omega (arith, find-le-max_id i cs c before))
  | inr (b, found, history) ↦ let e : b ≡ c = ground arith in subst (λ x. History x d) e history
]

-- `status in {"verified", "rejected", "expired", "superseded", "cancelled"}`
abbrev pub is_final : Status → Bool
is_final Status.verified = true
is_final Status.rejected = true
is_final Status.expired = true
is_final Status.superseded = true
is_final Status.cancelled = true
is_final _ = false

follows-is_final : (s t : Status) → is_final s ≡ true → follows s t ≡ true → ⊥
follows-is_final s t h e = ground arith

Reaches-is_final : {s t : Status} → is_final s ≡ true → Reaches s t → t ≡ s
Reaches-is_final h Reaches.here = refl
Reaches-is_final {s} h (Reaches.next {t = t} {u = u} r e) =
    let same : t ≡ s = Reaches-is_final h r in
    absurd (follows-is_final s u h (subst (λ x. follows x u ≡ true) same e))

-- Under the same conditions, a command that is verified, rejected, expired, superseded or
-- cancelled keeps its status through all of the calls.
pub run-is_final :
    (numbered_key : ℕ → String) (calls : List (Call × ℕ)) (i : ℕ) (cs : Commands)
    (c d : NodeCommand)
    → IsNumbered cs
    → is_final c.status ≡ true
    → find (has_id i) cs ≡ some c
    → find (has_id i) (run numbered_key calls cs) ≡ some d
    → d.status ≡ c.status
run-is_final k calls i cs c d h final before after =
    Reaches-is_final final (run-History k calls i cs c d h before after).reached
