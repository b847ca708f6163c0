-- ===== src/Executor/Service.antt =====
-- DagExecutor of harness/core/dag_executor.py with the tool executor of harness/tools/executor.py: what
-- `_execute_step` makes of a call, on the store of the events. A step is one move here: two steps of a
-- layer run one after the other on the store. The executor raises an Exception or returns; a cancellation
-- of the call itself is left out.
pub mod Allowed
pub mod Once
use jagent.Base.{ℕ, String, Option, none, some, List, Dict, Result, ok, err}
use jagent.Values.{Fields}
use jagent.Steps.{StepResult}
use jagent.Plan.{DagStep, DagPlan}
use jagent.Tools.{ToolDefinition}
use jagent.EventLog.{Store}
use jagent.Retry.{Raised}
use jagent.Guardrails.Registry.{ToolFunction}
use jagent.Calls.{ToolExecutionResult, Call, Harness, Execution}
use jagent.Calls.{ExecutionStatus as CallStatus}
use jagent.Calls.Execute.{execute}
use jagent.Executor.{
  Setting, ExecutionStatus, ExecutionResult, CallError, exception, ended, callable, prepare_step,
  conclude,
}

-- The executor of a run.
pub record Service : Type 0 where
  pub run_id : String
  pub harness : Harness
  pub allowed_tools : Option (List String)
  pub setting : Setting

unfoldable pub read_status : CallStatus → ExecutionStatus
read_status CallStatus.completed = ExecutionStatus.completed
read_status CallStatus.idempotency_hit = ExecutionStatus.idempotency_hit
read_status CallStatus.confirmation_needed = ExecutionStatus.confirmation_needed
read_status CallStatus.failed = ExecutionStatus.other "failed"
read_status CallStatus.timeout = ExecutionStatus.other "timeout"
read_status CallStatus.guardrail_blocked = ExecutionStatus.other "guardrail_blocked"

-- What the executor reads of a result.
unfoldable pub read_result : ToolExecutionResult → ExecutionResult
unfolding read_status
read_result r = record {
  status = read_status r.status;
  output = r.output;
  error = r.error;
  has_semantic_error = r.has_semantic_error;
  tool_call_id = some r.tool_call_id;
  confirmation_id = r.confirmation_id;
  retryable = r.retryable;
}

unfoldable pub read_answer : Result Raised ToolExecutionResult → Result CallError ExecutionResult
unfolding read_result
read_answer (ok r) = ok (read_result r)
read_answer (err e) = err (exception e.text)

-- What a step came to, the store it leaves, and how often the function of its tool was called.
pub record StepRun : Type 0 where
  pub answer : Result CallError StepResult
  pub store : Store
  pub calls : ℕ

module _ (sv : Service) where
  -- self.executor.execute(...)
  unfoldable pub call_of : String → DagStep → Fields → ToolDefinition → ToolFunction → Call
  call_of sid step input def fn = record {
    run_id = sv.run_id;
    tool_name = step.tool;
    input = input;
    tool = def;
    tool_fn = fn input;
    override_tool_call_id = none;
    step_id = some sid;
    allowed_tools = sv.allowed_tools;
  }

  -- After the call.
  unfoldable pub after_call : DagStep → String → Execution → StepRun
  unfolding read_answer conclude
  after_call step sid x = record {
    answer = conclude sv.setting step sid (read_answer x.answer);
    store = x.store;
    calls = x.calls;
  }

  -- `_execute_step`, with the call made by the tool executor on the store.
  unfoldable pub execute_step_on : DagPlan → Dict StepResult → String → Store → StepRun
  unfolding prepare_step after_call call_of execute
  execute_step_on plan results sid s = elim (prepare_step sv.setting plan results sid) [
    | ended r ↦ record { answer = ok r; store = s; calls = 0 }
    | callable step input def fn ↦
        after_call step sid (execute sv.harness (call_of sid step input def fn) s)
  ]
