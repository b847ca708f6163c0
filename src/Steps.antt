-- ===== src/Steps.antt =====
-- harness/core/dag_types.py: the two state enums, the result of a step and its verdicts.
use jagent.Base.{String, Bool, true, false, Option, none, some}
use jagent.Values.{Value, null}

pub data ExecState : Type 0 where
  pending running completed unsuccessful failed skipped idempotent cancelled : ExecState

pub data TaskState : Type 0 where
  unknown achieved partial not_achieved waived : TaskState

pub record StepResult : Type 0 where
  pub step_id : String
  pub exec_state : ExecState
  pub output : Value
  pub summary : String
  pub error : Option String
  pub retryable : Bool
  pub confirmation_id : Option String
  pub task_state : TaskState
  pub probe : Bool
  pub tool_call_id : Option String

-- The dataclass with its defaults.
abbrev pub new_result : String → ExecState → StepResult
new_result step_id exec_state = record {
  step_id = step_id;
  exec_state = exec_state;
  output = null;
  summary = "";
  error = none;
  retryable = false;
  confirmation_id = none;
  task_state = TaskState.unknown;
  probe = false;
  tool_call_id = none;
}

unfoldable pub exec_state_is_normal : ExecState → Bool → Bool
exec_state_is_normal ExecState.completed probe = true
exec_state_is_normal ExecState.idempotent probe = true
exec_state_is_normal ExecState.unsuccessful probe = probe
exec_state_is_normal _ probe = false

unfoldable pub should_not_rerun : StepResult → Bool
should_not_rerun r = elim r.exec_state [
  | ExecState.completed ↦ true
  | ExecState.idempotent ↦ true
  | ExecState.cancelled ↦ true
  | _ ↦ false
]

unfoldable pub is_completed : StepResult → Bool
is_completed r = elim r.exec_state [ ExecState.completed ↦ true | _ ↦ false ]

unfoldable pub step_normal : StepResult → Bool
unfolding exec_state_is_normal
step_normal r = exec_state_is_normal r.exec_state r.probe

unfoldable pub output_available : StepResult → Bool
output_available r = elim r.exec_state [
  | ExecState.completed ↦ true
  | ExecState.unsuccessful ↦ true
  | ExecState.idempotent ↦ true
  | _ ↦ false
]

unfoldable pub is_failed : StepResult → Bool
is_failed r = elim r.exec_state [ ExecState.failed ↦ true | _ ↦ false ]

unfoldable pub needs_confirmation : StepResult → Bool
needs_confirmation r = elim r.confirmation_id [ none ↦ false | some _ ↦ true ]

unfoldable pub is_unsuccessful : StepResult → Bool
is_unsuccessful r = elim r.exec_state [ ExecState.unsuccessful ↦ true | _ ↦ false ]
