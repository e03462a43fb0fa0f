-- ===== src/Commands/Methods/Values.antt =====
-- services/central-api/app/command_manager.py: the errors, the stages and the values that the methods share, and the superseding of commands.
use mini_ogas.Prelude.{
  ℕ, max, Bool, false, ◌&&◌, Option, none, some, List, [], ◌∷◌, map, String, str_eq, is_empty, ◌==◌,
  if◌then◌else◌, select, change_all,
}
use mini_ogas.Commands.Model.{Status, ResultMessage, NodeCommand, is_open}

pub data Stage : Type 0 where
  command_expired command_superseded command_verified : Stage

pub record CommandTransition : Type 0 where
  pub command : NodeCommand
  pub stage : Stage

-- The `ValueError`s that the manager raises, with the values that their texts show.
pub data CommandError : Type 0 where
  not_found : ℕ → CommandError
  not_found_for_node : ℕ → String → CommandError
  unsupported_result : Status → CommandError
  not_executable : ℕ → Status → CommandError
  cannot_accept_result : ℕ → Status → CommandError
  not_waiting_approval : ℕ → Status → CommandError
  not_human_review : CommandError
  cannot_cancel : ℕ → Status → CommandError
  cannot_retry : ℕ → Status → CommandError

abbrev pub Commands : Type 0
Commands = List NodeCommand

abbrev pub second : ℕ
second = 1_000_000

-- `str(parameters.get("idempotency_key") or "")`
abbrev pub text_or_empty : Option String → String
text_or_empty none = ""
text_or_empty (some s) = s

-- `parameters.get("idempotency_key") == key`
abbrev pub has_key : Option String → String → Bool
has_key none key = false
has_key (some k) key = str_eq k key

-- A key that the parameters do not hold is set; a key that they hold stays, the empty one too.
abbrev pub set_default : Option String → String → Option String
set_default none key = some key
set_default (some k) key = some k

-- `int(parameters.get("ttl_seconds") or 300)`
abbrev pub ttl_or_default : Option ℕ → ℕ
ttl_or_default none = 300
ttl_or_default (some n) = if n == 0 then 300 else n

-- `max((item.id for item in commands), default=0)`
unfoldable pub max_id : Commands → ℕ
max_id [] = 0
max_id (c ∷ cs) = max c.id (max_id cs)

-- `a or b` on texts and on times.
abbrev pub or_text : String → String → String
or_text a b = if is_empty a then b else a

abbrev pub or_now : Option ℕ → ℕ → Option ℕ
or_now none now = some now
or_now (some t) now = some t

-- The commands that a new command replaces.
abbrev pub is_replaced : String → String → NodeCommand → Bool
is_replaced node type c = str_eq c.node_code node && str_eq c.command_type type && is_open c.status

abbrev pub superseded : ℕ → ℕ → NodeCommand → NodeCommand
superseded replacement now c = record c {
  status = Status.superseded;
  result_message = ResultMessage.superseded_by replacement;
  updated_at = now;
}

-- The commands that a loop over all of them changes, as they are afterwards.
abbrev pub changed : (NodeCommand → Bool) → (NodeCommand → NodeCommand) → Commands → Commands
changed test change cs = map change (select test cs)

abbrev pub transitions_of : Stage → Commands → List CommandTransition
transitions_of stage cs = map (λ c. record { command = c; stage = stage }) cs

unfoldable pub supersede_pending :
    Commands → String → String → ℕ → ℕ → Commands × List CommandTransition
supersede_pending commands node type replacement now =
    let test = is_replaced node type in
    let change = superseded replacement now in
    (
      change_all test change commands,
      transitions_of Stage.command_superseded (changed test change commands),
    )
