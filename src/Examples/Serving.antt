-- ===== src/Examples/Serving.antt =====
-- A run with the tool executor: a deletion that the operator approved, and a fetch that is run twice.
use jagent.Base.{◌≢◌, none, some, [], ◌∷◌, ok, lookup, ◌≡◌, refl, arith}
use jagent.Values.{str}
use jagent.Steps.{ExecState, StepResult, new_result}
use jagent.Plan.{DagStep, DagPlan}
use jagent.EventLog.Rows.{empty-WellFormed}
use jagent.Guardrails.{pass}
use jagent.Guardrails.Runner.{run}
use jagent.Guardrails.Deletion.{all_passed}
use jagent.Guardrails.Registration.{validate_registration_safety}
use jagent.Guardrails.Registry.{
  ToolFunction, ToolRegistry, register_tool, Reached, empty, registered, IsGuarded,
  Reached-IsGuarded,
}
use jagent.Calls.{compute_key, request}
use jagent.Calls.Cache.{persisted}
use jagent.Calls.Execute.{execute}
use jagent.Executor.{find_step, gate_skip_reason, input_of}
use jagent.Executor.Service.{Service, call_of, execute_step_on}
use jagent.Executor.Service.Allowed.{IsReady, IsAllowed, execute_step_on-IsAllowed}
use jagent.Executor.Service.Once.{execute_step_on-again}
use jagent.Examples.Plans.{plain_step, plan_of}
use jagent.Examples.Calling.{files, harness, deletion, fetch, approved}
use jagent.Examples.Appending.{empty_store}

abbrev deleted : ToolFunction
deleted input n = ok (str "deleted")

abbrev fetched : ToolFunction
fetched input n = ok (str "body")

abbrev tables : ToolRegistry
tables = record {
  tools = ("file_op", files) ∷ ("http_request", fetch.tool) ∷ [];
  fns = ("file_op", deleted) ∷ ("http_request", fetched) ∷ [];
}

reached : Reached tables
unfolding register_tool validate_registration_safety
reached =
    registered fetch.tool fetched
      (record { tools = ("file_op", files) ∷ []; fns = ("file_op", deleted) ∷ [] }) tables
      (registered files deleted (record { tools = []; fns = [] }) _ empty refl) refl

Reached-IsGuarded_example : IsGuarded tables "file_op" files
unfolding lookup
Reached-IsGuarded_example = Reached-IsGuarded tables "file_op" files reached refl

abbrev service : Service
service = record {
  run_id = "r1";
  harness = harness;
  allowed_tools = none;
  setting = record {
    registry = tables;
    show = λ e. "reason";
    legacy_key = λ dep. "result";
    truncate_output = λ v. "body";
    resolve = λ input upstream. ok input;
  };
}

abbrev delete_step : DagStep
delete_step = plain_step "s1" "file_op" deletion.input []

abbrev fetch_step : DagStep
fetch_step = plain_step "s2" "http_request" fetch.input []

abbrev plan : DagPlan
plan = plan_of (delete_step ∷ fetch_step ∷ [])

called_lem : (execute_step_on service plan [] "s1" approved).calls ≡ 1
unfolding execute_step_on execute approved request
called_lem = refl

is_called : (execute_step_on service plan [] "s1" approved).calls ≢ 0
is_called e = ground (arith, called_lem)

execute_step_on-IsAllowed_example : IsAllowed service plan [] "s1" approved
execute_step_on-IsAllowed_example =
    execute_step_on-IsAllowed service plan [] "s1" approved reached is_called

fetch_ready : IsReady service plan [] "s2"
unfolding find_step gate_skip_reason input_of lookup
fetch_ready = record {
  step = fetch_step;
  input = fetch.input;
  def = fetch.tool;
  fn = fetched;
  found = refl;
  open_gate = refl;
  resolved = refl;
  present = refl;
  known = refl;
}

abbrev first : StepResult
first = record (new_result "s2" ExecState.completed) {
  output = str "body";
  summary = "body";
  tool_call_id = some "call-1";
}

execute_step_on-again_example :
    let after = (execute_step_on service plan [] "s2" empty_store).store in
    execute_step_on service plan [] "s2" after ≡ record {
      answer = ok (record first {
        exec_state = ExecState.idempotent;
        output =
            persisted harness
              (call_of service "s2" fetch_step fetch.input fetch.tool fetched)
              (str "body")
              empty_store;
        summary = "body";
      });
      store = after;
      calls = 0;
    }
unfolding fetch_ready execute_step_on execute compute_key run request all_passed call_of
execute_step_on-again_example =
    execute_step_on-again service plan [] "s2" empty_store first "http_request:{}" fetch_ready
      (pass "schema" ∷ []) empty-WellFormed refl refl refl refl refl
