-- ===== src/Guardrails/Runner.antt =====
-- GuardrailRunner: the checks of a tool in their order, up to the first that fails.
use jagent.Base.{
  String, not, Option, none, some, List, [], ◌∷◌, ◌==◌, concat, if◌then◌else◌, lookup, Result, ok,
  ◌>>=◌,
}
use jagent.Values.{Fields, end}
use jagent.Events.{Event}
use jagent.Tools.{Declaration, ToolDefinition}
use jagent.Retry.{Raised}
use jagent.Guardrails.{GuardrailResult, pass, fail, whitelist_check, destructive_check, Checks}
use jagent.Guardrails.Dependencies.{dependency_check}

module _ (checks : Checks) where
  -- SchemaGuardrail.check
  unfoldable pub schema_check : ToolDefinition → Fields → GuardrailResult
  unfolding pass fail
  schema_check tool input = elim (checks.schema_error tool.input_schema input) [
    | none ↦ pass "schema"
    | some message ↦ fail "schema" message
  ]

  -- One declared guardrail of GuardrailRunner.run, for the runner that the tool executor builds when it is
  -- given none: no custom guardrail replaces the classes of `destructive` and `dependency`. `others` has the other classes.
  unfoldable pub declared_check :
      List Event → String → ToolDefinition → Fields → Declaration → Result Raised GuardrailResult
  unfolding destructive_check dependency_check lookup fail concat
  declared_check rows run_id tool input g =
      if g.guardrail_type == "destructive"
      then destructive_check checks tool input g.config
      else if g.guardrail_type == "dependency"
      then dependency_check checks rows run_id tool g.config
      else elim (lookup g.guardrail_type checks.others) [
        | some check ↦ check tool input g.config
        | none ↦
            ok (fail g.guardrail_type (concat ("Unknown guardrail type: " ∷ g.guardrail_type ∷ [])))
      ]

  -- The loop over the declared guardrails, which ends at the first that fails.
  unfoldable pub run_declared :
      List Event
      → String
      → ToolDefinition
      → Fields
      → List Declaration
      → Result Raised (List GuardrailResult)
  unfolding declared_check
  run_declared rows run_id tool input [] = ok []
  run_declared rows run_id tool input (g ∷ gs) =
      declared_check rows run_id tool input g >>= λ result.
      if result.passed
      then (run_declared rows run_id tool input gs >>= λ results. ok (result ∷ results))
      else ok (result ∷ [])

  -- GuardrailRunner._auto_check_depends_on
  unfoldable pub auto_check_depends_on :
      List Event → String → ToolDefinition → Fields → Result Raised (Option GuardrailResult)
  unfolding dependency_check
  auto_check_depends_on rows run_id tool input = elim tool.depends_on [
    | [] ↦ ok none
    | c ∷ cs ↦ dependency_check checks rows run_id tool end >>= λ result. ok (some result)
  ]

  -- The part of GuardrailRunner.run after the schema and the whitelist.
  unfoldable pub run_rest :
      List Event → String → ToolDefinition → Fields → Result Raised (List GuardrailResult)
  unfolding auto_check_depends_on run_declared
  run_rest rows run_id tool input = auto_check_depends_on rows run_id tool input >>= λ dep.
      elim dep [
        | none ↦ run_declared rows run_id tool input tool.guardrails
        | some result ↦
            if result.passed
            then (run_declared rows run_id tool input tool.guardrails >>= λ results.
                ok (result ∷ results))
            else ok (result ∷ [])
      ]

  -- GuardrailRunner.run. A whitelist that passes leaves no result.
  unfoldable pub run :
      List Event
      → String
      → Option (List String)
      → ToolDefinition
      → Fields
      → Result Raised (List GuardrailResult)
  unfolding schema_check whitelist_check run_rest
  run rows run_id allowed tool input =
      let schema = schema_check tool input in
      let whitelist = whitelist_check allowed tool in
      if not schema.passed
      then ok (schema ∷ [])
      else if not whitelist.passed
      then ok (schema ∷ whitelist ∷ [])
      else (run_rest rows run_id tool input >>= λ results. ok (schema ∷ results))
