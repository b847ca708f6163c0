-- ===== src/Semantic.antt =====
-- harness/tools/semantic.py: whether the output of a tool means success. `ordered` is Python's
-- comparison by an operator other than == and !=, which raises on values that have no order, and
-- `describe` the text on a field, its value and the indicator.
use jagent.Base.{String, Bool, not, Option, none, some, if◌then◌else◌, Result, ok, ◌>>=◌}
use jagent.Values.{Value, Fields, obj, null, str, get_or_null, eq, value_or, py_str}
use jagent.Events.{ToolResultType, success, unsuccessful}
use jagent.Tools.{Comparison, eq_to, ne_to, SuccessIndicator, ToolDefinition}
use jagent.Retry.{Raised}

module _ (ordered : Comparison → Value → Value → Result Raised Bool)
    (describe : SuccessIndicator → Value → String) (repr : Value → String) where
  unfoldable pub holds : Comparison → Value → Value → Result Raised Bool
  unfolding eq
  holds eq_to actual value = ok (eq actual value)
  holds ne_to actual value = ok (not (eq actual value))
  holds op actual value = ordered op actual value

  -- output.get("error") or output.get("message") or f"..."
  unfoldable pub error_of : SuccessIndicator → Fields → Value → String
  unfolding value_or get_or_null py_str
  error_of indicator fields actual = py_str repr (
      value_or (value_or (get_or_null "error" fields) (get_or_null "message" fields))
        (str (describe indicator actual)))

  unfoldable pub judge :
      SuccessIndicator → Fields → Value → Result Raised (ToolResultType × Option String)
  unfolding holds error_of
  judge indicator fields null = ok (success, none)
  judge indicator fields actual = holds indicator.op actual indicator.value >>= λ good.
      ok (if good then (success, none) else (unsuccessful, some (error_of indicator fields actual)))

  -- SemanticEvaluator.evaluate
  unfoldable pub evaluate : Value → ToolDefinition → Result Raised (ToolResultType × Option String)
  unfolding judge get_or_null
  evaluate output tool = elim tool.success_indicator [
    | none ↦ ok (success, none)
    | some indicator ↦ elim output [
      | obj fields ↦ judge indicator fields (get_or_null indicator.indicated fields)
      | _ ↦ ok (success, none)
    ]
  ]
