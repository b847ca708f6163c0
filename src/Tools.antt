-- ===== src/Tools.antt =====
-- harness/models/tools.py and harness/tools/registry.py: what a tool declares, and the registry.
use jagent.Base.{ℕ, String, Bool, Option, none, some, List, [], ◌∷◌, if◌then◌else◌, Dict, lookup}
use jagent.Values.{Value, Fields, null, str, get_or_null, eq}

pub data SideEffect : Type 0 where
  write delete external : SideEffect

pub record OperationContract : Type 0 where
  pub operation : String
  pub side_effects : List SideEffect
  pub probe_allowed : Bool
  pub requires_confirmation : Bool
  pub idempotency_key_fields : Option (List String)
  pub required_input : List String

pub record RetryPolicy : Type 0 where
  pub max_retries : ℕ
  pub retryable_errors : List String

pub data Comparison : Type 0 where
  eq_to ne_to less less_equal greater greater_equal member : Comparison

pub record SuccessIndicator : Type 0 where
  pub indicated : String
  pub op : Comparison
  pub value : Value

-- `Guardrail`, which a tool attaches to itself.
pub record Declaration : Type 0 where
  pub guardrail_type : String
  pub config : Fields

pub record DependencyConstraint : Type 0 where
  pub event_type : String
  pub payload_filter : Fields
  pub message : String

pub data TargetKind : Type 0 where
  path domain command : TargetKind

pub record ToolScopeTarget : Type 0 where
  pub kind : TargetKind
  pub input_field : String
  pub config_key : String

pub record ToolDefinition : Type 0 where
  pub name : String
  pub side_effects : List SideEffect
  pub requires_confirmation : Bool
  pub idempotency_key_fields : Option (List String)
  pub dangerous_with : List String
  pub max_parallel : ℕ
  pub operations : List OperationContract
  pub operation_key : String
  pub default_operation : Option String
  pub retry_policy : RetryPolicy
  pub timeout_ms : ℕ
  pub guardrails : List Declaration
  pub depends_on : List DependencyConstraint
  pub success_indicator : Option SuccessIndicator
  pub scope_targets : List ToolScopeTarget
  pub input_schema : Fields
  pub output_schema : Fields

-- next((op for op in operations if op.operation == value), None)
unfoldable pub find_operation : Value → List OperationContract → Option OperationContract
unfolding eq
find_operation value [] = none
find_operation value (op ∷ ops) =
    if eq (str op.operation) value then some op else find_operation value ops

-- resolve_operation_contract
unfoldable pub resolve_operation : ToolDefinition → Fields → Option OperationContract
unfolding find_operation get_or_null
resolve_operation t input = elim (get_or_null t.operation_key input) [
  | null ↦ elim t.default_operation [ none ↦ none | some op ↦ find_operation (str op) t.operations ]
  | v ↦ find_operation v t.operations
]

unfoldable pub effective_side_effects : ToolDefinition → Fields → List SideEffect
unfolding resolve_operation
effective_side_effects t input = elim (resolve_operation t input) [
  | none ↦ t.side_effects
  | some op ↦ op.side_effects
]

unfoldable pub effective_requires_confirmation : ToolDefinition → Fields → Bool
unfolding resolve_operation
effective_requires_confirmation t input = elim (resolve_operation t input) [
  | none ↦ t.requires_confirmation
  | some op ↦ op.requires_confirmation
]

unfoldable pub effective_idempotency_key_fields : ToolDefinition → Fields → Option (List String)
unfolding resolve_operation
effective_idempotency_key_fields t input = elim (resolve_operation t input) [
  | none ↦ t.idempotency_key_fields
  | some op ↦ elim op.idempotency_key_fields [ none ↦ t.idempotency_key_fields | some fs ↦ some fs ]
]

-- `_tools`; the table `_fns` has the same keys.
abbrev pub Registry : Type 0
Registry = Dict ToolDefinition

unfoldable pub get_tool_def : Registry → String → Option ToolDefinition
unfolding lookup
get_tool_def registry name = lookup name registry
