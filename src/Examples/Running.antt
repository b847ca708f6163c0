-- ===== src/Examples/Running.antt =====
-- Layers of a plan, run with a tool layer that knows one tool.
use jagent.Base.{
  String, false, none, some, [], ◌∷◌, ◌==◌, ◌≡◌, refl, here, elem, Dict, lookup, ok, err,
  if◌then◌else◌,
}
use jagent.Values.{end, str}
use jagent.Steps.{ExecState, StepResult, new_result, step_normal}
use jagent.Tools.{ToolDefinition}
use jagent.Executor.{
  Environment, exception, base_exception, ExecutionResult, completed, execute_step, find_step,
}
use jagent.Executor.Gate.{execute_step-gated}
use jagent.Layers.{outcome_of, raised, execute_layer, gate_one, record_one, start_one}
use jagent.Layers.Agree.{Synced, evidence_after}
use jagent.Layers.Sync.{execute_layer-Synced}
use jagent.Layers.Effects.{execute_layer-frame}
use jagent.Examples.Plans.{save, fetch_and_save, done}

abbrev pub http : ToolDefinition
http = record {
  name = "http_request";
  side_effects = [];
  requires_confirmation = false;
  idempotency_key_fields = none;
  dangerous_with = [];
  max_parallel = 10;
  operations = [];
  operation_key = "operation";
  default_operation = none;
  retry_policy = record { max_retries = 3; retryable_errors = [] };
  timeout_ms = 30000;
  guardrails = [];
  depends_on = [];
  success_indicator = none;
  scope_targets = [];
  input_schema = end;
  output_schema = end;
}

abbrev answered : ExecutionResult
answered = record {
  status = completed;
  output = str "body";
  error = none;
  has_semantic_error = false;
  tool_call_id = some "call-1";
  confirmation_id = none;
  retryable = false;
}

abbrev pub env : Environment
env = record {
  setting = record {
    registry = record {
      tools = ("http_request", http) ∷ [];
      fns = ("http_request", λ input n. ok (str "body")) ∷ [];
    };
    show = λ e. "reason";
    legacy_key = λ dep. "s1_result";
    truncate_output = λ v. "body";
    resolve = λ input upstream. ok input;
  };
  tool = λ sid tool input. if tool == "http_request" then ok answered else err (exception "broken");
}

pub nothing_known : Synced [] []
unfolding lookup
nothing_known sid r h settled = cc

execute_layer-Synced_example :
    Synced
      (evidence_after (execute_layer env fetch_and_save "p1" ("s1" ∷ []) []).events 1 [])
      (execute_layer env fetch_and_save "p1" ("s1" ∷ []) []).results
execute_layer-Synced_example =
    execute_layer-Synced env fetch_and_save "p1" ("s1" ∷ []) [] 1 [] nothing_known

abbrev cancelled_env : Environment
cancelled_env = record env { tool = λ sid tool input. err (base_exception "cancelled") }

-- A cancellation of the call is raised again, and the step has no result.
cancelled_lem :
    (outcome_of cancelled_env fetch_and_save "p1"
        (execute_layer cancelled_env fetch_and_save "p1" ("s1" ∷ []) [])
      ≡ raised "cancelled")
    × (lookup "s1" (execute_layer cancelled_env fetch_and_save "p1" ("s1" ∷ []) []).results ≡ none)
unfolding outcome_of execute_layer lookup elem gate_one record_one start_one execute_step
cancelled_lem = (refl, refl)

abbrev fetched : Dict StepResult
fetched = ("s1", done "s1") ∷ []

execute_layer-frame_example :
    lookup "s1" (execute_layer env fetch_and_save "p1" ("s2" ∷ []) fetched).results
    ≡ lookup "s1" fetched
unfolding elem
execute_layer-frame_example =
    execute_layer-frame env fetch_and_save "p1" ("s2" ∷ []) fetched "s1" refl

abbrev lost : Dict StepResult
lost = ("s1", new_result "s1" ExecState.failed) ∷ []

-- The save is skipped after a failed fetch, also where the tool layer answers every call.
execute_step-gated_example :
    (reason : String) × (execute_step env fetch_and_save lost "s2"
      ≡ ok (record (new_result "s2" ExecState.skipped) { error = some reason; probe = false }))
    × (execute_step
          (record {
            setting = record env.setting { resolve = λ i u. err "unset" };
            tool = λ s t i. ok answered;
          })
          fetch_and_save
          lost
          "s2"
        ≡ execute_step env fetch_and_save lost "s2")
unfolding find_step lookup step_normal
execute_step-gated_example =
    execute_step-gated env fetch_and_save lost save "s2" "s1" (new_result "s1" ExecState.failed)
      (λ s t i. ok answered) (λ i u. err "unset") refl here refl refl

-- The executed layer has the completed fetch.
ran_lem :
    lookup "s1" (execute_layer env fetch_and_save "p1" ("s1" ∷ []) []).results
    ≡ some (record (new_result "s1" ExecState.completed) {
      output = str "body";
      summary = "body";
      tool_call_id = some "call-1";
    })
unfolding execute_layer lookup elem gate_one record_one start_one
ran_lem = refl
