-- ===== src/Calls.antt =====
-- harness/tools/executor.py, ToolExecutor.execute: guardrails, the cache of finished calls, the wait for
-- a confirmation, the call under its retries, and what is written of it. Each part is a function of the
-- store that the parts before it left. An append to a well-formed store does not fail
-- (EventLog/Commits), so `log` keeps the store only. Logs, traces and context variables are left out.
pub mod Invoke
pub mod Execute
pub mod Keyed
pub mod Gates
pub mod Succeeds
pub mod Cache
use jagent.Base.{
  ℕ, suc, String, Bool, true, false, not, ◌&&◌, ◌||◌, Option, none, some, List, [], ◌∷◌, ◌==◌, any,
  elem, concat, if◌then◌else◌, Result, ok, err,
}
use jagent.Values.{Value, Fields, field, end, obj, arr, null, str, num, bool, get, get_or_null}
use jagent.Events.{
  Event, Payload, ToolPayload, ToolCalled, ToolCompleted, ToolResultType, success, unsuccessful,
  ConfirmationPayload, ConfirmationRequested,
}
use jagent.EventLog.{Request, Store, append_event, find_by_idempotency_key, type_of, of_run}
use jagent.Tools.{
  Comparison, SuccessIndicator, ToolDefinition, effective_idempotency_key_fields,
  effective_requires_confirmation,
}
use jagent.Recovery.{classify_failure_tier, is_read_only_action}
use jagent.Retry.{
  Raised, RaisedKind, Outcome, returned, raised, Retried, is_within, has_candidate, is_empty,
  execute_with_retry,
}
use jagent.Semantic.{evaluate}
use jagent.Outputs.{BlobStore, Stored, inline, write_failed, stored, store, build_ref_placeholder}
use jagent.Guardrails.{GuardrailResult, Checks}
use jagent.Guardrails.Runner.{run}

pub data ExecutionStatus : Type 0 where
  completed failed timeout guardrail_blocked confirmation_needed idempotency_hit : ExecutionStatus

pub record ToolExecutionResult : Type 0 where
  pub status : ExecutionStatus
  pub tool_call_id : String
  pub tool_name : String
  pub idempotency_key : Option String
  pub output : Value
  pub duration_ms : ℕ
  pub error : Option String
  pub retryable : Bool
  pub timeout_ms : ℕ
  pub guardrail_id : Option String
  pub guardrail_reason : Option String
  pub confirmation_id : Option String
  pub cached : Bool
  pub retry_attempts : ℕ
  pub has_semantic_error : Bool

-- The arguments of `execute`. `tool_fn n` is what Sandbox.invoke makes of the n-th call of the
-- function, its timeout included, and `allowed_tools` is that of the workspace scope, if there is one.
pub record Call : Type 0 where
  pub run_id : String
  pub tool_name : String
  pub input : Fields
  pub tool : ToolDefinition
  pub tool_fn : ℕ → Result Raised Value
  pub override_tool_call_id : Option String
  pub step_id : Option String
  pub allowed_tools : Option (List String)

-- What the executor takes from elsewhere: the checks, the two identifiers that uuid4 gives, the time
-- that the call takes, the JSON text and the hash of a key, jsonschema, Python's printing, and the exception
-- of a model that does not accept a payload.
pub record Harness : Type 0 where
  pub checks : Checks
  pub call_uuid : String
  pub confirmation_uuid : String
  pub duration_ms : ℕ
  pub dumps : Fields → String
  pub sha256 : String → String
  pub is_valid : Fields → Value → Bool
  pub ordered : Comparison → Value → Value → Result Raised Bool
  pub describe : SuccessIndicator → Value → String
  pub repr : Value → String
  pub transient_search : String → Bool
  pub timed_out_text : ℕ → String
  pub invalid : Payload → Raised
  pub blobs : BlobStore

-- What `execute` returned or raised, the store it leaves, and how often the function was called.
pub record Execution : Type 0 where
  pub answer : Result Raised ToolExecutionResult
  pub store : Store
  pub calls : ℕ

-- {k: input[k] for k in fields if k in input}; json.dumps sorts the keys.
unfoldable pub subset : List String → Fields → Fields
unfolding get elem
subset [] input = end
subset (k ∷ ks) input =
    let rest = subset ks input in
    elim (get k input) [ none ↦ rest | some v ↦ if elem k ks then rest else field k v rest ]

-- Python's names of the types of JSON values.
type_name_of : Value → String
type_name_of (obj fs) = "dict"
type_name_of (arr xs) = "list"
type_name_of (str s) = "str"
type_name_of (num z) = "int"
type_name_of (bool b) = "bool"
type_name_of null = "NoneType"

unfoldable pub structurally_usable : Value → Bool
structurally_usable (obj fs) = true
structurally_usable (arr xs) = true
structurally_usable v = false

-- EventStore.find_confirmation_by_id: the first row of that confirmation, and its answer.
unfoldable pub received_answer : String → Payload → Option Bool
received_answer id (Payload.confirmation (ConfirmationPayload.received i confirmed)) =
    if i == id then some confirmed else none
received_answer id p = none

unfoldable pub find_confirmation : String → List Event → Option Bool
unfolding received_answer
find_confirmation id [] = none
find_confirmation id (e ∷ es) = elim (received_answer id e.payload) [
  | some confirmed ↦ some confirmed
  | none ↦ find_confirmation id es
]

unfoldable pub find_confirmation_by_id : String → String → List Event → Option Bool
unfolding find_confirmation of_run
find_confirmation_by_id run_id id rows = find_confirmation id (of_run run_id rows)

-- The first result that did not pass.
unfoldable pub first_failed : List GuardrailResult → Option GuardrailResult
first_failed [] = none
first_failed (r ∷ rs) = let rest = first_failed rs in if r.passed then rest else some r

is_schema_empty : Fields → Bool
is_schema_empty end = true
is_schema_empty (field k v fs) = false

module _ (h : Harness) (c : Call) where
  unfoldable pub request : Payload → Option String → Request
  request payload key = record {
    run_id = c.run_id;
    payload = payload;
    tenant_id = "default";
    workspace_id = none;
    idempotency_key = key;
  }

  -- await self.store.append_event(...)
  unfoldable pub log : Payload → Option String → Store → Store
  log payload key s = (append_event (request payload key) s).1

  -- IdempotencyKeyGenerator.compute, with the key fields that `execute` passes.
  unfoldable pub compute_key : Option String
  unfolding subset effective_idempotency_key_fields concat
  compute_key = elim (effective_idempotency_key_fields c.tool c.input) [
    | some fs ↦ some (h.sha256 (concat (c.tool.name ∷ ":" ∷ h.dumps (subset fs c.input) ∷ [])))
    | none ↦ elim c.tool.idempotency_key_fields [
      | none ↦ none
      | some fs ↦ some (h.sha256 (concat (c.tool.name ∷ ":" ∷ h.dumps (subset fs c.input) ∷ [])))
    ]
  ]

  -- override_tool_call_id or str(uuid.uuid4())
  unfoldable pub tool_call_id : String
  tool_call_id = elim c.override_tool_call_id [
    | none ↦ h.call_uuid
    | some id ↦ if id == "" then h.call_uuid else id
  ]

  -- A result with the defaults of its class.
  unfoldable pub result_of : ExecutionStatus → String → ToolExecutionResult
  unfolding compute_key
  result_of status id = record {
    status = status;
    tool_call_id = id;
    tool_name = c.tool_name;
    idempotency_key = compute_key;
    output = null;
    duration_ms = 0;
    error = none;
    retryable = false;
    timeout_ms = 0;
    guardrail_id = none;
    guardrail_reason = none;
    confirmation_id = none;
    cached = false;
    retry_attempts = 0;
    has_semantic_error = false;
  }
