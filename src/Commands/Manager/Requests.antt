-- ===== src/Commands/Manager/Requests.antt =====
-- Commands that are asked for more than once (services/central-api/app/command_manager.py).
use mini_ogas.Prelude.{
  change_all, ℕ, ◌+◌, ◌-◌, ◌≡◌, refl, Bool, true, false, Option, none, some, List, [], ◌∷◌, ◌++◌,
  String, eq_refl, is_empty, arith, length, drop, find, find-append_none, find-drop-none,
  drop-append, length-append, Option-cases, inl, inr, ◌∙◌,
}
use mini_ogas.Commands.Model.{Status, Parameters, Production, NodeCommand}
use mini_ogas.Commands.Methods.{
  Commands, is_replaced, superseded, supersede_pending, is_same_request, find_existing,
  text_or_empty, new_command, append_bounded, create_command, max_id,
}

find-change_all-none :
    (p test : NodeCommand → Bool) (change : NodeCommand → NodeCommand) (cs : Commands)
    → ((c : NodeCommand) → p (change c) ≡ p c)
    → find p cs ≡ none
    → find p (change_all test change cs) ≡ none
find-change_all-none p test change [] same h = refl
find-change_all-none p test change (c ∷ cs) same h =
    ground (arith, same c, find-change_all-none p test change cs same)

-- The newest command is found by its key if no older one has it.
find-append_bounded :
    (test : NodeCommand → Bool) (cs : Commands) (c : NodeCommand)
    → find test cs ≡ none
    → test c ≡ true
    → find test (append_bounded cs c) ≡ some c
unfolding append_bounded
find-append_bounded test cs c h e =
    let k = length (cs ++ c ∷ []) - 100 in
    rw (drop-append k cs (c ∷ []) (omega (arith, length-append cs (c ∷ []))))
      (rw (find-append_none test (drop k cs) (c ∷ []) (find-drop-none test k cs h)) (rw e))

find_existing-keyed :
    (cs : Commands) (node type key : String) (found : Option String)
    → is_empty key ≡ false
    → found ≡ some key
    → find_existing cs node type (text_or_empty found) ≡ find (is_same_request node type key) cs
unfolding find_existing
find_existing-keyed cs node type key found given e = rw e (rw given refl)

module _ (numbered_key : ℕ → String) (cs : Commands) (node type risk : String) (status : Status)
    (operator : String) (parameters : Parameters) (baseline : List (String × Production))
    (now : ℕ) where
  abbrev fresh : NodeCommand
  fresh =
      new_command numbered_key (max_id cs + 1) node type risk status operator parameters baseline
        now

  create_command-known :
      (c : NodeCommand)
      → find_existing cs node type (text_or_empty parameters.idempotency_key) ≡ some c
      → create_command numbered_key cs node type risk status operator parameters baseline now
        ≡ (cs, c, [], false)
  unfolding create_command
  create_command-known c e = rw (e, create_command)

  create_command-new :
      find_existing cs node type (text_or_empty parameters.idempotency_key) ≡ none
      → create_command numbered_key cs node type risk status operator parameters baseline now ≡ (
        append_bounded (supersede_pending cs node type (max_id cs + 1) now).0 fresh,
        fresh,
        (supersede_pending cs node type (max_id cs + 1) now).1,
        true,
      )
  unfolding create_command
  create_command-new e = rw (e, create_command)

  fresh-is_same_request :
      (key : String)
      → parameters.idempotency_key ≡ some key
      → is_same_request node type key fresh ≡ true
  unfolding new_command
  fresh-is_same_request key e = simp (e, eq_refl)

  find-fresh :
      (key : String)
      → parameters.idempotency_key ≡ some key
      → find (is_same_request node type key) cs ≡ none
      → find
          (is_same_request node type key)
          (append_bounded (supersede_pending cs node type (max_id cs + 1) now).0 fresh)
        ≡ some fresh
  unfolding supersede_pending
  find-fresh key e h =
      find-append_bounded (is_same_request node type key) _ fresh
        (find-change_all-none (is_same_request node type key) (is_replaced node type)
          (superseded (max_id cs + 1) now) cs (λ c. refl) h)
        (fresh-is_same_request key e)

-- A command is made, or found, for a key that is not empty. Asked for again at any time with the
-- same node, type and key, whatever the other arguments are, the manager gives the same command
-- back, makes none, supersedes none and changes nothing.
pub create_command_again :
    (numbered_key : ℕ → String) (cs : Commands) (node type key : String)
    (parameters parameters' : Parameters) (risk risk' : String) (status status' : Status)
    (operator operator' : String) (baseline baseline' : List (String × Production)) (now now' : ℕ)
    → is_empty key ≡ false
    → parameters.idempotency_key ≡ some key
    → parameters'.idempotency_key ≡ some key
    → let (cs', c, _, _) =
        create_command numbered_key cs node type risk status operator parameters baseline now in
      create_command numbered_key cs' node type risk' status' operator' parameters' baseline' now'
      ≡ (cs', c, [], false)
create_command_again k cs node type key p p' risk risk' status status' op op' base base' now now'
      given e e' =
    elim (Option-cases (find (is_same_request node type key) cs)) [
      | inr (c, hit) ↦
          rw
            (create_command-known k cs node type risk status op p base now c
              (find_existing-keyed cs node type key _ given e ∙ hit))
            (create_command-known k cs node type risk' status' op' p' base' now' c
              (find_existing-keyed cs node type key _ given e' ∙ hit))
      | inl miss ↦
          rw
            (create_command-new k cs node type risk status op p base now
              (find_existing-keyed cs node type key _ given e ∙ miss))
            (create_command-known k _ node type risk' status' op' p' base' now' _ (
              find_existing-keyed _ node type key _ given e'
              ∙ find-fresh k cs node type risk status op p base now key e miss))
    ]
