-- ===== src/Commands/Manager/Open.antt =====
-- At most one open command for a node and a command type
-- (services/central-api/app/command_manager.py).
use mini_ogas.Prelude.{
  change_all, ℕ, ◌+◌, ◌-◌, ◌≤◌, ◌≡◌, refl, Bool, true, some, List, [], ◌∷◌, ◌++◌, String, eq_iff,
  arith, subst, sym, length, find, count, update_first, count-append, count-drop-le, Bool-cases,
  inl, inr,
}
use mini_ogas.Commands.Model.{NodeCommand}
use mini_ogas.Commands.Methods.{
  Commands, is_replaced, superseded, supersede_pending, append_bounded,
}
use mini_ogas.Commands.Manager.Calls.{Call, run}
use mini_ogas.Commands.Manager.Effects.{Arc, Effect, run_invariant}

abbrev pub open_count : String → String → Commands → ℕ
open_count node type = count (is_replaced node type)

abbrev pub OneOpen : Commands → Type 0
OneOpen cs = (node type : String) → open_count node type cs ≤ 1

pub count-change_all-le :
    (test p : NodeCommand → Bool) (change : NodeCommand → NodeCommand) (cs : Commands)
    → ((c : NodeCommand) → test c ≡ true → p (change c) ≡ true → p c ≡ true)
    → count p (change_all test change cs) ≤ count p cs
count-change_all-le test p change [] h = omega arith
count-change_all-le test p change (c ∷ cs) h =
    ground (arith, h c, count-change_all-le test p change cs h)

pub count-update_first-le :
    (test p : NodeCommand → Bool) (change : NodeCommand → NodeCommand) (cs : Commands)
    (c : NodeCommand)
    → find test cs ≡ some c
    → (p (change c) ≡ true → p c ≡ true)
    → count p (update_first test change cs) ≤ count p cs
count-update_first-le test p change [] c e h = omega arith
count-update_first-le test p change (d ∷ cs) c e h =
    ground (arith, count-update_first-le test p change cs c)

pub open_count-supersede_pending :
    (cs : Commands) (node type : String) (n now : ℕ)
    → open_count node type (supersede_pending cs node type n now).0 ≡ 0
unfolding supersede_pending
open_count-supersede_pending [] node type n now = refl
open_count-supersede_pending (c ∷ cs) node type n now =
    ground (arith, open_count-supersede_pending cs node type n now)

supersede_pending-le :
    (cs : Commands) (node type : String) (n now : ℕ) (node' type' : String)
    → open_count node' type' (supersede_pending cs node type n now).0 ≤ open_count node' type' cs
unfolding supersede_pending
supersede_pending-le cs node type n now node' type' =
    count-change_all-le (is_replaced node type) (is_replaced node' type') (superseded n now) cs
      (λ c h k. ground arith)

append_bounded-count-le :
    (p : NodeCommand → Bool) (cs : Commands) (c : NodeCommand)
    → count p (append_bounded cs c) ≤ count p cs + count p (c ∷ [])
unfolding append_bounded
append_bounded-count-le p cs c = omega (
  arith,
  count-drop-le p (length (cs ++ c ∷ []) - 100) (cs ++ c ∷ []),
  count-append p cs (c ∷ []),
)

-- A command joins once the open ones of its node and type are replaced.
append_superseded-OneOpen :
    (cs : Commands) (c : NodeCommand) (n now : ℕ)
    → OneOpen cs
    → OneOpen (append_bounded (supersede_pending cs c.node_code c.command_type n now).0 c)
append_superseded-OneOpen cs c n now h node' type' =
    let cs' = (supersede_pending cs c.node_code c.command_type n now).0 in
    elim (Bool-cases (is_replaced node' type' c)) [
      | inl joins ↦
          let same_node : c.node_code ≡ node' = ground (arith, eq_iff c.node_code node') in
          let same_type : c.command_type ≡ type' = ground (arith, eq_iff c.command_type type') in
          let cleared : open_count node' type' cs' ≡ 0 =
            subst (λ t. open_count node' t cs' ≡ 0) same_type
              (subst (λ m. open_count m c.command_type cs' ≡ 0) same_node
                (open_count-supersede_pending cs c.node_code c.command_type n now)) in
          ground (arith, append_bounded-count-le (is_replaced node' type') cs' c, cleared)
      | inr apart ↦ ground (
        arith,
        append_bounded-count-le (is_replaced node' type') cs' c,
        supersede_pending-le cs c.node_code c.command_type n now node' type',
        h node' type',
      )
    ]

Arc-is_replaced :
    (c d : NodeCommand) (node type : String)
    → Arc c d
    → is_replaced node type d ≡ true
    → is_replaced node type c ≡ true
Arc-is_replaced c d node type a h = ground arith

Effect-OneOpen : (cs cs' : Commands) → Effect cs cs' → OneOpen cs → OneOpen cs'
Effect-OneOpen cs cs' (Effect.same e) h = subst OneOpen (sym e) h
Effect-OneOpen cs cs' (Effect.all test change arc e) h = λ node type. rw e (
    omega (
      arith,
      h node type,
      count-change_all-le test (is_replaced node type) change cs
          (λ c t. Arc-is_replaced c (change c) node type (arc c t)),
    ))
Effect-OneOpen cs cs' (Effect.one test change c found arc e) h = λ node type. rw e (
    omega (
      arith,
      h node type,
      count-update_first-le test (is_replaced node type) change cs c found
          (Arc-is_replaced c (change c) node type arc),
    ))
Effect-OneOpen cs cs' (Effect.added c now new e) h =
    subst OneOpen (sym e) (append_superseded-OneOpen cs c c.id now h)

-- Take any calls of the command manager, one after another, each with its time, and commands of
-- which no two open ones (waiting for approval, pending or queued) are for the same node and of
-- the same type. After the calls, too, there is at most one open command for each node and type.
pub run-OneOpen :
    (numbered_key : ℕ → String) (calls : List (Call × ℕ)) (cs : Commands)
    → OneOpen cs
    → OneOpen (run numbered_key calls cs)
run-OneOpen = run_invariant OneOpen Effect-OneOpen
