-- ===== src/Executor.antt =====
-- harness/core/dag_executor.py: one layer of a plan, step by step. The steps of a layer run
-- concurrently, read the results of earlier layers and write nothing until all have ended, so their
-- order does not matter. Two parts are parameters: `resolve` fills the `$step` references of an input
-- (harness/core/dag_vars.py), and `tool` answers a call of the tool layer (harness/tools/executor.py).
-- A call that raises comes back as a value, as from `asyncio.gather(..., return_exceptions=True)`. A
-- cancellation of the layer while it waits for its steps is not modelled.
pub mod Gate
pub mod Service
use jagent.Base.{
  ℕ, String, Bool, true, false, not, ◌&&◌, ◌||◌, Option, none, some, List, [], ◌∷◌, ◌++◌, ◌==◌,
  elem, if◌then◌else◌, Dict, lookup, insert, has_key, Result, ok, err,
}
use jagent.Values.{Value, Fields}
use jagent.Steps.{ExecState, StepResult, new_result, step_normal, is_completed, is_unsuccessful}
use jagent.Plan.{DagStep, DagPlan}
use jagent.Events.{StepPayload, StepStarted, StepCompleted, StepFailed, StepSkipped}
use jagent.Guardrails.Registry.{ToolFunction, ToolRegistry}
use jagent.Tools.{ToolDefinition}

-- The statuses of ToolExecutor.execute that the executor tells apart.
pub data ExecutionStatus : Type 0 where
  completed idempotency_hit confirmation_needed : ExecutionStatus
  other : (value : String) → ExecutionStatus

pub record ExecutionResult : Type 0 where
  pub status : ExecutionStatus
  pub output : Value
  pub error : Option String
  pub has_semantic_error : Bool
  pub tool_call_id : Option String
  pub confirmation_id : Option String
  pub retryable : Bool

-- The texts of errors and reasons, as their parts.
pub data StepError : Type 0 where
  message : String → StepError
  not_found : (step_id : String) → StepError
  dep_not_normal : (dep_id : String) (exec_state : ExecState) → StepError
  unresolved : String → StepError
  unknown_tool : (tool : String) → StepError
  with_status : String → StepError
  layer_raised : String → StepError

module _ (show : StepError → String) where
  -- `_gate_skip_reason`, and the same test in `_execute_step`.
  unfoldable pub gate_skip_reason : List String → Dict StepResult → Option String
  unfolding step_normal lookup
  gate_skip_reason [] results = none
  gate_skip_reason (dep ∷ deps) results = elim (lookup dep results) [
    | none ↦ gate_skip_reason deps results
    | some r ↦
        let later = gate_skip_reason deps results in
        if step_normal r then later else some (show (dep_not_normal dep r.exec_state))
  ]

-- next((s for s in plan.steps if s.id == step_id), None)
unfoldable pub find_step : String → List DagStep → Option DagStep
find_step sid [] = none
find_step sid (s ∷ ss) = if s.id == sid then some s else find_step sid ss

-- The outputs of all normal results, and `<dep>_result` for each dependency among them.
unfoldable pub upstream_of : Dict StepResult → Dict Value
unfolding step_normal
upstream_of [] = []
upstream_of ((sid, r) ∷ m) =
    let rest = upstream_of m in if step_normal r then (sid, r.output) ∷ rest else rest

unfoldable pub add_legacy : (String → String) → List String → Dict Value → Dict Value
unfolding has_key lookup insert
add_legacy legacy_key [] upstream = upstream
add_legacy legacy_key (dep ∷ deps) upstream =
    add_legacy legacy_key deps (elim (lookup dep upstream) [
      | none ↦ upstream
      | some v ↦
          if has_key (legacy_key dep) upstream then upstream else insert (legacy_key dep) v upstream
    ])

-- What comes out of a call as an exception: an Exception, or another BaseException, such as a
-- cancellation of the step.
pub data CallError : Type 0 where
  exception : (text : String) → CallError
  base_exception : (text : String) → CallError

-- The executor: its registry, the texts, and the resolution of references.
pub record Setting : Type 0 where
  pub registry : ToolRegistry
  pub show : StepError → String
  pub legacy_key : String → String
  pub truncate_output : Value → String
  pub resolve : Fields → Dict Value → Result String Fields

-- The executor with a tool layer that answers the call of a step.
pub record Environment : Type 0 where
  pub setting : Setting
  pub tool : String → String → Fields → Result CallError ExecutionResult

-- How far `_execute_step` comes before the call: it returned, or it has the step, its input, and the
-- definition and the function of its tool.
pub data Prepared : Type 0 where
  ended : StepResult → Prepared
  callable : DagStep → Fields → ToolDefinition → ToolFunction → Prepared

module _ (st : Setting) where
  -- `a or b` on an optional text.
  or_error : Option String → String → String
  or_error none b = b
  or_error (some a) b = if a == "" then b else a

  failed_with : String → StepError → StepResult
  failed_with sid e = record (new_result sid ExecState.failed) { error = some (st.show e) }

  -- The result of a call that ran, or whose result was cached: UNSUCCESSFUL on a semantic error.
  ran_result : DagStep → String → ExecutionResult → ExecState → StepResult
  ran_result step sid r state =
      if r.has_semantic_error
      then record (new_result sid ExecState.unsuccessful) {
        output = r.output;
        summary = st.truncate_output r.output;
        error = r.error;
        probe = step.probe;
        tool_call_id = r.tool_call_id;
      }
      else record (new_result sid state) {
        output = r.output;
        summary = st.truncate_output r.output;
        probe = step.probe;
        tool_call_id = r.tool_call_id;
      }

  -- The status dispatch at the end of `_execute_step`.
  unfoldable pub dispatch : DagStep → String → ExecutionResult → StepResult
  unfolding or_error ran_result
  dispatch step sid r = elim r.status [
    | completed ↦ ran_result step sid r ExecState.completed
    | idempotency_hit ↦ ran_result step sid r ExecState.idempotent
    | confirmation_needed ↦ record (new_result sid ExecState.pending) {
      confirmation_id = r.confirmation_id;
      probe = step.probe;
    }
    | other value ↦ record (new_result sid ExecState.failed) {
      error = some (or_error r.error (st.show (with_status value)));
      retryable = r.retryable;
      tool_call_id = r.tool_call_id;
    }
  ]

  -- After the call: the dispatch, or the exception.
  unfoldable pub conclude :
      DagStep → String → Result CallError ExecutionResult → Result CallError StepResult
  unfolding dispatch
  conclude step sid (ok r) = ok (dispatch step sid r)
  conclude step sid (err e) = err e

  -- The input of a step, its references filled.
  unfoldable pub input_of : DagStep → Dict StepResult → Result String Fields
  unfolding upstream_of add_legacy
  input_of step results =
      st.resolve step.input (add_legacy st.legacy_key step.depends_on (upstream_of results))

  -- After the gate: resolve the input and look the tool up.
  unfoldable pub prepare_call : DagStep → String → Dict StepResult → Prepared
  unfolding input_of failed_with lookup
  prepare_call step sid results = elim (input_of step results) [
    | err e ↦ ended (failed_with sid (unresolved e))
    | ok input ↦ elim (lookup step.tool st.registry.tools) [
      | none ↦ ended (failed_with sid (unknown_tool step.tool))
      | some def ↦ elim (lookup step.tool st.registry.fns) [
        | none ↦ ended (failed_with sid (unknown_tool step.tool))
        | some fn ↦ callable step input def fn
      ]
    ]
  ]

  -- `_execute_step` up to the call.
  unfoldable pub prepare_step : DagPlan → Dict StepResult → String → Prepared
  unfolding find_step gate_skip_reason prepare_call failed_with
  prepare_step plan results sid = elim (find_step sid plan.steps) [
    | none ↦ ended (failed_with sid (not_found sid))
    | some step ↦ elim (gate_skip_reason st.show step.depends_on results) [
      | none ↦ prepare_call step sid results
      | some reason ↦
          ended
            (record (new_result sid ExecState.skipped) { error = some reason; probe = step.probe })
    ]
  ]

module _ (env : Environment) where
  -- `_execute_step`, with the call left to the tool layer.
  unfoldable pub execute_step : DagPlan → Dict StepResult → String → Result CallError StepResult
  unfolding prepare_step conclude
  execute_step plan results sid = elim (prepare_step env.setting plan results sid) [
    | ended r ↦ ok r
    | callable step input def fn ↦ conclude env.setting step sid (env.tool sid step.tool input)
  ]
