-- ===== src/Execution/Governed.antt =====
-- The idempotency keys of services/central-api/app/repositories/execution.py: what the public
-- methods do before and after the operation that they are for.
use mini_ogas.Prelude.{
  ℕ, Bool, true, false, ◌&&◌, none, some, List, [], ◌∷◌, ◌++◌, String, str_eq, find, ◌==◌, Result,
  ok, err,
}
use mini_ogas.Execution.Model.{ActionName, Facts, Downtime, QuantityReport, ExecutionError}
use mini_ogas.Execution.Access.{Action}
use mini_ogas.Execution.Status.{TaskView}
use mini_ogas.Execution.Tasks.Payloads.{
  ExecutionActionIn, SetupCompleteIn, CompleteTaskIn, DowntimeStartIn, DowntimeEndIn,
}

-- `resource_type` and `resource_id`
pub data Resource : Type 0 where
  operation_task : ℕ → Resource
  downtime : ℕ → Resource

abbrev pub same_resource : Resource → Resource → Bool
same_resource (Resource.operation_task a) (Resource.operation_task b) = a == b
same_resource (Resource.downtime a) (Resource.downtime b) = a == b
same_resource _ _ = false

abbrev pub action_code : ActionName → ℕ
action_code ActionName.setup_start = 0
action_code ActionName.setup_complete = 1
action_code ActionName.start = 2
action_code ActionName.pause = 3
action_code ActionName.resume = 4
action_code ActionName.hold = 5
action_code ActionName.release_hold = 6
action_code ActionName.complete = 7
action_code ActionName.downtime_start = 8
action_code ActionName.downtime_end = 9
action_code ActionName.end = 10
action_code ActionName.close = 11
action_code ActionName.dispatch = 12
action_code ActionName.release = 13
action_code ActionName.attach = 14
action_code ActionName.quantity_report = 15

-- The answer that is kept for a repeated request.
pub data Response : Type 0 where
  task_view : TaskView → Response
  downtime_view : Downtime → Response
  report_view : QuantityReport → Response

-- The payload whose hash is kept.
pub data Request : Type 0 where
  action_request : ExecutionActionIn → Request
  setup_request : SetupCompleteIn → Request
  complete_request : CompleteTaskIn → Request
  downtime_start_request : DowntimeStartIn → Request
  downtime_end_request : DowntimeEndIn → Request

-- `execution_idempotency`
pub record IdempotencyRow : Type 0 where
  pub resource : Resource
  pub action : ActionName
  pub idempotency_key : String
  pub request_hash : String
  pub response : Response

-- The database: the tables of the operations, and the keys that were used.
pub record Store : Type 0 where
  pub facts : Facts
  pub idempotency : List IdempotencyRow

abbrev pub is_key : Resource → ActionName → String → IdempotencyRow → Bool
is_key resource action key row =
    same_resource row.resource resource
    && action_code row.action == action_code action
    && str_eq row.idempotency_key key

abbrev pub row_of : Resource → ActionName → String → String → Response → IdempotencyRow
row_of resource action key hash response = record {
  resource = resource;
  action = action;
  idempotency_key = key;
  request_hash = hash;
  response = response;
}

-- `_idempotent_get` on the row that was found: its hash is the request's, or the key is refused.
abbrev pub replayed : String → IdempotencyRow → Store → Result ExecutionError (Response × Store)
replayed hash row s = elim (str_eq row.request_hash hash) [
  | true ↦ ok (row.response, s)
  | false ↦ err ExecutionError.idempotency_key_reused
]

-- `_idempotent_store` after the operation; a key that was just found free is stored.
abbrev pub stored :
    Resource
    → ActionName
    → String
    → String
    → List IdempotencyRow
    → Result ExecutionError (Response × Facts)
    → Result ExecutionError (Response × Store)
stored resource action key hash rows (err e) = err e
stored resource action key hash rows (ok (response, f)) = ok (
  response,
  record { facts = f; idempotency = rows ++ row_of resource action key hash response ∷ [] },
)

-- `_request_hash` is a parameter: the digest of the payload's canonical JSON.
module _ (request_hash : Request → String) where
  unfoldable pub governed :
      Resource
      → ActionName
      → String
      → Request
      → Action Response
      → Store
      → Result ExecutionError (Response × Store)
  governed resource action key request body s =
      elim (find (is_key resource action key) s.idempotency) [
        | some row ↦ replayed (request_hash request) row s
        | none ↦ stored resource action key (request_hash request) s.idempotency (body s.facts)
      ]
