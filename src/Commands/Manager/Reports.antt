-- ===== src/Commands/Manager/Reports.antt =====
-- Results that are reported more than once (services/central-api/app/command_manager.py).
use mini_ogas.Prelude.{
  ℕ, ◌≡◌, refl, Bool, true, false, ◌||◌, ◌⊎◌, some, [], ◌∷◌, String, eq_refl, arith, find,
  update_first, find_sound, Option-cases, inl, inr, ok, ◌∙◌,
}
use mini_ogas.Commands.Model.{Status, NodeCommand, is_verified}
use mini_ogas.Commands.Methods.{
  Commands, record_result, find_for_node, has_id_on, with_result, normalized, is_repeat, is_result,
}

find-update_first_self :
    (test : NodeCommand → Bool) (change : NodeCommand → NodeCommand) (cs : Commands)
    (c : NodeCommand)
    → find test cs ≡ some c
    → test (change c) ≡ true
    → find test (update_first test change cs) ≡ some (change c)
find-update_first_self test change [] c e h = absurd (cc)
find-update_first_self test change (b ∷ cs) c e h =
    ground (arith, find-update_first_self test change cs c)

-- How a result is taken: the command stands already, or it is changed.
abbrev Taken :
    Commands → String → ℕ → Status → String → ℕ → NodeCommand → Commands → NodeCommand → Type 0
Taken cs node n status message now b cs' c =
    ((cs' ≡ cs)
      × (c ≡ b)
      × ((is_verified b.status || is_repeat (normalized status) message b) ≡ true))
    ⊎ ((cs' ≡ update_first (has_id_on node n) (with_result (normalized status) message now) cs)
        × (c ≡ with_result (normalized status) message now b))

record_result-Taken :
    (cs cs' : Commands) (node : String) (n : ℕ) (status : Status) (message : String) (now : ℕ)
    (b c : NodeCommand) (news : Bool)
    → find (has_id_on node n) cs ≡ some b
    → record_result cs node n status message now ≡ ok (cs', c, news)
    → (is_result status ≡ true) × Taken cs node n status message now b cs' c
unfolding record_result find_for_node
record_result-Taken cs cs' node n status message now b c news e h = ground (arith, e)

record_result-found :
    (cs : Commands) (node : String) (n : ℕ) (status : Status) (message : String) (now : ℕ)
    (b : NodeCommand)
    → find (has_id_on node n) cs ≡ some b
    → is_result status ≡ true
    → (is_verified b.status || is_repeat (normalized status) message b) ≡ true
    → record_result cs node n status message now ≡ ok (cs, b, false)
unfolding record_result find_for_node
record_result-found cs node n status message now b e result stands =
    rw (e, record_result) (rw result (rw stands refl))

with_result-is_repeat :
    (status : Status) (message : String) (now : ℕ) (b : NodeCommand)
    → is_result status ≡ true
    → (is_verified (with_result (normalized status) message now b).status
        || is_repeat (normalized status) message (with_result (normalized status) message now b))
      ≡ true
with_result-is_repeat Status.executed message now b h = eq_refl message
with_result-is_repeat Status.applied message now b h = eq_refl message
with_result-is_repeat Status.failed message now b h = eq_refl message
with_result-is_repeat _ message now b h = absurd (ground arith)

with_result-has_id_on :
    (status : Status) (node message : String) (n now : ℕ) (b : NodeCommand)
    → has_id_on node n (with_result status message now b) ≡ has_id_on node n b
with_result-has_id_on status node message n now b = ground arith

-- An agent that reports a result again, because it did not see the answer, changes nothing: once
-- a result is taken, the same report is answered with the same command, and as no change.
pub record_result_again :
    (cs cs' : Commands) (node : String) (n : ℕ) (status : Status) (message : String) (now now' : ℕ)
    (c : NodeCommand) (news : Bool)
    → record_result cs node n status message now ≡ ok (cs', c, news)
    → record_result cs' node n status message now' ≡ ok (cs', c, false)
unfolding record_result find_for_node
record_result_again cs cs' node n status message now now' c news h =
    let test = has_id_on node n in
    let change = with_result (normalized status) message now in
    elim (Option-cases (find test cs)) [
      | inl e ↦ absurd (ground (arith, e))
      | inr (b, e) ↦
          let (result, taken) = record_result-Taken cs cs' node n status message now b c news e h in
          elim taken [
            | inl (same, old, stands) ↦
                rw (same, old) (record_result-found cs node n status message now' b e result stands)
            | inr (updated, new) ↦
                rw (updated, new)
                  (record_result-found (update_first test change cs) node n status message now'
                    (change b)
                    (find-update_first_self test change cs b e (
                      with_result-has_id_on (normalized status) node message n now b
                      ∙ find_sound test cs b e))
                    result (with_result-is_repeat status message now b result))
          ]
    ]
