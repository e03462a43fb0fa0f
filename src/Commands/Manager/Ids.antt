-- ===== src/Commands/Manager/Ids.antt =====
-- Command numbers and the length of the list (services/central-api/app/command_manager.py).
use mini_ogas.Prelude.{
  change_all, ℕ, zero, suc, ◌-◌, ◌≤◌, ◌<◌, ◌≡◌, refl, some, true, Bool, List, [], ◌∷◌, ◌++◌, String,
  arith, subst, sym, length, find, drop, update_first, All, All-append, length-drop, ap,
}
use mini_ogas.Commands.Model.{NodeCommand}
use mini_ogas.Commands.Methods.{
  Commands, is_replaced, superseded, supersede_pending, append_bounded, max_id,
}
use mini_ogas.Commands.Manager.Calls.{Call, run}
use mini_ogas.Commands.Manager.Effects.{Effect, run_invariant}

abbrev pub ids : Commands → List ℕ
ids [] = []
ids (c ∷ cs) = c.id ∷ ids cs

-- Each number is below all that come after it.
abbrev pub Ascending : List ℕ → Type 0
Ascending [] = Unit
Ascending (n ∷ ns) = All (λ m. n < m) ns × Ascending ns

-- The numbers ascend, so none stands twice, and there are at most a hundred commands.
pub record IsNumbered (cs : Commands) : Type 0 where
  pub ascending : Ascending (ids cs)
  pub bounded : length cs ≤ 100

pub ids-change_all :
    (test : NodeCommand → Bool) (change : NodeCommand → NodeCommand) (cs : Commands)
    → ((c : NodeCommand) → test c ≡ true → (change c).id ≡ c.id)
    → ids (change_all test change cs) ≡ ids cs
ids-change_all test change [] h = refl
ids-change_all test change (c ∷ cs) h = ground (arith, h c, ids-change_all test change cs h)

pub ids-update_first :
    (test : NodeCommand → Bool) (change : NodeCommand → NodeCommand) (cs : Commands)
    (c : NodeCommand)
    → find test cs ≡ some c
    → (change c).id ≡ c.id
    → ids (update_first test change cs) ≡ ids cs
ids-update_first test change [] c e h = refl
ids-update_first test change (d ∷ cs) c e h = ground (arith, ids-update_first test change cs c)

pub ids-append : (cs ds : Commands) → ids (cs ++ ds) ≡ ids cs ++ ids ds
ids-append [] ds = refl
ids-append (c ∷ cs) ds = ground (arith, ids-append cs ds)

ids-drop : (n : ℕ) (cs : Commands) → ids (drop n cs) ≡ drop n (ids cs)
ids-drop zero cs = refl
ids-drop (suc n) [] = refl
ids-drop (suc n) (c ∷ cs) = ids-drop n cs

length-ids : (cs : Commands) → length (ids cs) ≡ length cs
length-ids [] = refl
length-ids (c ∷ cs) = ground (arith, length-ids cs)

pub ids-supersede_pending :
    (cs : Commands) (node type : String) (n now : ℕ)
    → ids (supersede_pending cs node type n now).0 ≡ ids cs
unfolding supersede_pending
ids-supersede_pending cs node type n now =
    ids-change_all (is_replaced node type) (superseded n now) cs (λ c h. refl)

pub le-max_id : (cs : Commands) (n : ℕ) → max_id cs < n → All (λ m. m < n) (ids cs)
unfolding max_id
le-max_id [] n h = tt
le-max_id (c ∷ cs) n h = (omega arith, le-max_id cs n (omega arith))

pub Ascending-append :
    (ns : List ℕ) (n : ℕ) → Ascending ns → All (λ m. m < n) ns → Ascending (ns ++ n ∷ [])
Ascending-append [] n h k = (tt, tt)
Ascending-append (m ∷ ns) n h k =
    (All-append (λ j. m < j) ns (n ∷ []) h.0 (k.0, tt), Ascending-append ns n h.1 k.1)

Ascending-drop : (k : ℕ) (ns : List ℕ) → Ascending ns → Ascending (drop k ns)
Ascending-drop zero ns h = h
Ascending-drop (suc k) [] h = tt
Ascending-drop (suc k) (n ∷ ns) h = Ascending-drop k ns h.1

append_bounded-IsNumbered :
    (cs : Commands) (c : NodeCommand)
    → Ascending (ids cs)
    → All (λ m. m < c.id) (ids cs)
    → IsNumbered (append_bounded cs c)
unfolding append_bounded
append_bounded-IsNumbered cs c h k = record {
  ascending = rw ids-drop (
      Ascending-drop (length (cs ++ c ∷ []) - 100) (ids (cs ++ c ∷ []))
        (rw ids-append (Ascending-append (ids cs) c.id h k)));
  bounded = omega (arith, length-drop (length (cs ++ c ∷ []) - 100) (cs ++ c ∷ []));
}

-- A list with the same numbers is numbered as well.
IsNumbered-ids : (cs cs' : Commands) → ids cs' ≡ ids cs → IsNumbered cs → IsNumbered cs'
IsNumbered-ids cs cs' e h = record {
  ascending = rw e h.ascending;
  bounded = omega (arith, ap length e, length-ids cs, length-ids cs', h.bounded);
}

pub Effect-IsNumbered : (cs cs' : Commands) → Effect cs cs' → IsNumbered cs → IsNumbered cs'
Effect-IsNumbered cs cs' (Effect.same e) h = subst IsNumbered (sym e) h
Effect-IsNumbered cs cs' (Effect.all test change arc e) h =
    IsNumbered-ids cs cs' (rw e (ids-change_all test change cs (λ c t. (arc c t).same_id))) h
Effect-IsNumbered cs cs' (Effect.one test change c found arc e) h =
    IsNumbered-ids cs cs' (rw e (ids-update_first test change cs c found arc.same_id)) h
Effect-IsNumbered cs cs' (Effect.added c now new e) h =
    let cs'' = (supersede_pending cs c.node_code c.command_type c.id now).0 in
    let same = ids-supersede_pending cs c.node_code c.command_type c.id now in
    rw e (
      append_bounded-IsNumbered cs'' c (rw same h.ascending)
        (rw same (le-max_id cs c.id (omega arith))))

-- Take any calls of the command manager, one after another, each with its time, and at most a
-- hundred commands whose numbers ascend. After the calls the numbers still ascend, so that no
-- number is given twice, and there are still at most a hundred commands.
pub run-IsNumbered :
    (numbered_key : ℕ → String) (calls : List (Call × ℕ)) (cs : Commands)
    → IsNumbered cs
    → IsNumbered (run numbered_key calls cs)
run-IsNumbered = run_invariant IsNumbered Effect-IsNumbered
