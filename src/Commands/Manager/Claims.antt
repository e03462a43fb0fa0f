-- ===== src/Commands/Manager/Claims.antt =====
-- Claims of commands (services/central-api/app/command_manager.py).
use mini_ogas.Prelude.{
  change_all, ℕ, ◌≡◌, refl, Bool, true, false, [], ◌∷◌, map, ◌≢◌, String, eq_iff, arith, select,
}
use mini_ogas.Commands.Model.{NodeCommand}
use mini_ogas.Commands.Methods.{
  Commands, claim_for_node, pending_for_node, is_claimable_by, claimed,
}

select-change_all :
    (p test : NodeCommand → Bool) (change : NodeCommand → NodeCommand) (cs : Commands)
    → ((c : NodeCommand) → test c ≡ true → (p c ≡ false) × (p (change c) ≡ false))
    → select p (change_all test change cs) ≡ select p cs
select-change_all p test change [] h = refl
select-change_all p test change (c ∷ cs) h =
    ground (arith, h c, select-change_all p test change cs h)

select-claimed :
    (node agent : String) (now : ℕ) (cs : Commands)
    → select (is_claimable_by node) (change_all (is_claimable_by node) (claimed node agent now) cs)
      ≡ []
select-claimed node agent now [] = refl
select-claimed node agent now (c ∷ cs) = ground (arith, select-claimed node agent now cs)

-- A claim hands out, in order, the commands that were pending for the node, each claimed by the
-- agent (or by the node, where no agent is named), received now and counted as one more attempt.
-- After it none is pending for the node, and any other node has the same pending commands.
pub claim_for_node_lem :
    (cs : Commands) (node agent other : String) (now : ℕ)
    → other ≢ node
    → let (cs', handed) = claim_for_node cs node agent now in
      (handed ≡ map (claimed node agent now) (pending_for_node cs node))
      × (pending_for_node cs' node ≡ [])
      × (pending_for_node cs' other ≡ pending_for_node cs other)
unfolding claim_for_node pending_for_node
claim_for_node_lem cs node agent other now ne = (
  refl,
  select-claimed node agent now cs,
  select-change_all (is_claimable_by other) (is_claimable_by node) (claimed node agent now) cs
      (λ c t. ground (arith, eq_iff c.node_code node, eq_iff c.node_code other)),
)
