-- ===== src/Guardrails/Registration.antt =====
-- validate_registration_safety: the guardrails that a tool must declare to be registered.
use jagent.Base.{String, Bool, true, false, not, ◌||◌, List, [], ◌∷◌, ◌++◌, ◌==◌, any}
use jagent.Tools.{Declaration, TargetKind, domain, ToolScopeTarget, ToolDefinition}
use jagent.Guardrails.{has_delete}

unfoldable pub declares : String → List Declaration → Bool
declares guardrail_type gs = any (λ g. g.guardrail_type == guardrail_type) gs

is_domain : TargetKind → Bool
is_domain domain = true
is_domain kind = false

has_targets : List ToolScopeTarget → Bool
has_targets [] = false
has_targets (t ∷ ts) = true

-- A violation that validate_registration_safety words.
pub data Violation : Type 0 where
  unguarded_delete unguarded_scope unguarded_domain : (tool_name : String) → Violation

unfoldable pub deletes : ToolDefinition → Bool
unfolding has_delete
deletes tool =
    has_delete tool.side_effects || any (λ op. has_delete op.side_effects) tool.operations

unfoldable pub unless : Bool → Violation → List Violation
unless true v = []
unless false v = v ∷ []

unfoldable pub validate_registration_safety : ToolDefinition → List Violation
unfolding deletes declares is_domain has_targets unless
validate_registration_safety tool =
    unless (not (deletes tool) || declares "destructive" tool.guardrails)
      (unguarded_delete tool.name)
    ++ unless (not (has_targets tool.scope_targets) || declares "scope" tool.guardrails)
        (unguarded_scope tool.name)
    ++ unless
        (not (any (λ t. is_domain t.kind) tool.scope_targets) || declares "egress" tool.guardrails)
        (unguarded_domain tool.name)
