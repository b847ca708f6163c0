-- ===== src/Examples/Plans.antt =====
-- Plans and results that the other examples run on.
use jagent.Base.{String, false, none, List, [], ◌∷◌}
use jagent.Values.{Value, Fields, end, field, str}
use jagent.Steps.{ExecState, StepResult, new_result}
use jagent.Plan.{DagStep, DagPlan}

abbrev pub plain_step : String → String → Fields → List String → DagStep
plain_step id tool input depends_on = record {
  id = id;
  tool = tool;
  input = input;
  depends_on = depends_on;
  description = "";
  upstream_selectors = none;
  max_parallel = 10;
  branches = none;
  probe = false;
}

abbrev pub write_input : Fields
write_input = field "operation" (str "write") (field "path" (str "out.txt") end)

abbrev pub fetch : DagStep
fetch = plain_step "s1" "http_request" end []

abbrev pub save : DagStep
save = plain_step "s2" "file_op" write_input ("s1" ∷ [])

abbrev pub plan_of : List DagStep → DagPlan
plan_of steps = record {
  user_intent = "";
  intent = "";
  steps = steps;
  failed = false;
  step_tasks = [];
  declared_operations = [];
}

-- Fetch, then save. The plan lists the steps in the other order.
abbrev pub fetch_and_save : DagPlan
fetch_and_save = plan_of (save ∷ fetch ∷ [])

-- Two steps that wait for each other.
abbrev pub circular : DagPlan
circular = plan_of (plain_step "s1" "a" end ("s2" ∷ []) ∷ plain_step "s2" "b" end ("s1" ∷ []) ∷ [])

abbrev pub done : String → StepResult
done sid = new_result sid ExecState.completed

abbrev pub no_repr : Value → String
no_repr v = ""
