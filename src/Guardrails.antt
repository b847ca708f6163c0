-- ===== src/Guardrails.antt =====
-- harness/tools/guardrails.py: the checks before a tool call, and those before a tool is registered.
-- Parameters: `schema_error`, what jsonschema.validate finds wrong with an input; `dump`, an event's
-- payload as a dict; and `others`, the scope, egress and rate-limit checks, which ask the file system,
-- the DNS and the clock. What a check raises goes to the caller.
pub mod Dependencies
pub mod Runner
pub mod Registration
pub mod Registry
pub mod Deletion
use jagent.Base.{
  ℕ, nat_eq, String, Bool, true, false, not, ◌&&◌, ◌||◌, Option, none, some, List, [], ◌∷◌, ◌++◌,
  map, ◌==◌, elem, any, all, concat, if◌then◌else◌, Dict, lookup, Result, ok, err, ◌>>=◌,
}
use jagent.Values.{
  Value, Fields, field, end, arr, nil, cons, str, get_or_null, get_or, eq, list_of, py_str,
  value_or, truthy,
}
use jagent.Plan.{codes}
use jagent.Events.{Payload}
use jagent.Tools.{
  SideEffect, delete, OperationContract, DependencyConstraint, Declaration, TargetKind, domain,
  ToolScopeTarget, ToolDefinition, resolve_operation,
}
use jagent.Retry.{Raised}

pub record GuardrailResult : Type 0 where
  pub passed : Bool
  pub guardrail_id : String
  pub reason : String
  pub triggers_confirmation : Bool

unfoldable pub pass : String → GuardrailResult
pass id = record { passed = true; guardrail_id = id; reason = ""; triggers_confirmation = false }

unfoldable pub fail : String → String → GuardrailResult
fail id reason = record {
  passed = false;
  guardrail_id = id;
  reason = reason;
  triggers_confirmation = false;
}

-- entry.endswith("*") and tool_name.startswith(entry[:-1])
unfoldable pub glob_matches : List ℕ → List ℕ → Bool
glob_matches [] name = false
glob_matches (c ∷ []) name = nat_eq c b'*'
glob_matches (c ∷ d ∷ entry) [] = false
glob_matches (c ∷ d ∷ entry) (n ∷ name) = nat_eq c n && glob_matches (d ∷ entry) name

unfoldable pub is_allowed : List String → String → Bool
unfolding elem glob_matches codes
is_allowed allowed_tools tool_name =
    if elem tool_name allowed_tools
    then true
    else any (λ entry. glob_matches (codes entry) (codes tool_name)) allowed_tools

-- ToolWhitelistGuardrail.check, on `workspace_scope.allowed_tools` or none.
unfoldable pub whitelist_check : Option (List String) → ToolDefinition → GuardrailResult
unfolding is_allowed pass fail
whitelist_check allowed tool = elim allowed [
  | none ↦ pass "tool_whitelist"
  | some tools ↦
      if is_allowed tools tool.name
      then pass "tool_whitelist"
      else fail "tool_whitelist"
          (concat ("Tool '" ∷ tool.name ∷ "' not allowed in this workspace" ∷ []))
]

unfoldable pub has_delete : List SideEffect → Bool
has_delete [] = false
has_delete (delete ∷ es) = true
has_delete (e ∷ es) = has_delete es

unfoldable pub trigger : String → GuardrailResult
trigger reason = record {
  passed = true;
  guardrail_id = "destructive_op";
  reason = reason;
  triggers_confirmation = true;
}

unfoldable pub is_destructive : Option OperationContract → Bool
unfolding has_delete
is_destructive none = false
is_destructive (some op) = has_delete op.side_effects || op.requires_confirmation

-- What the checks take from other code, and what Python raises on a value that is not iterable or
-- not a text.
pub record Checks : Type 0 where
  pub schema_error : Fields → Fields → Option String
  pub dump : Payload → Fields
  pub others : Dict (ToolDefinition → Fields → Fields → Result Raised GuardrailResult)
  pub repr : Value → String
  pub type_error : Value → Raised

module _ (checks : Checks) where
  -- DestructiveOpGuardrail.check
  unfoldable pub destructive_check :
      ToolDefinition → Fields → Fields → Result Raised GuardrailResult
  unfolding list_of get_or get_or_null resolve_operation is_destructive eq py_str pass trigger
      concat
  destructive_check tool input config =
      let listed = get_or "destructive_operations" (arr (cons (str "delete") nil)) config in
      elim (list_of listed) [
        | none ↦ err (checks.type_error listed)
        | some destructive_ops ↦
            let value = get_or_null tool.operation_key input in
            if is_destructive (resolve_operation tool input)
            then ok (trigger "Destructive operation requires confirmation")
            else if any (eq value) destructive_ops
            then ok (
                trigger (
                  concat (
                    "Destructive operation '"
                    ∷ py_str checks.repr value
                    ∷ "' requires confirmation"
                    ∷ [])))
            else ok (pass "destructive_op")
      ]
