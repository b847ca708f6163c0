-- ===== src/Events.antt =====
-- harness/models/events.py: the event of a run with its parsed payload. `parse_event_payload`
-- validates with pydantic; an event stands here with the payload that it returns. Timestamps and
-- the other floats are left out, and so are fields that no modelled code reads.
use jagent.Base.{ℕ, String, Bool, Option, List, Dict}
use jagent.Values.{Value, Fields}
use jagent.Contracts.{DeliveryContract}

-- What `plan_steps_to_payload` writes for a step, the only source of a plan payload's `steps`.
pub record Blueprint : Type 0 where
  pub step_id : String
  pub tool_name : String
  pub input : Fields
  pub depends_on : List String
  pub description : String
  pub probe : Bool

pub record RunStarted : Type 0 where
  pub intent : String
  pub current_request : Option String
  pub context_snapshot : Fields
  pub conversation_id : Option String
  pub workspace_id : Option String
  pub intent_raw : Option String
  pub contracts : List DeliveryContract
  pub requires_contract_extraction : Bool

pub record RunCompleted : Type 0 where
  pub result_summary : String
  pub all_normal : Bool
  pub unmet_step_ids : List String
  pub deliverable_status : String
  pub deliverable_summary : List Fields

pub record RunFailed : Type 0 where
  pub final_error : String
  pub event_count : ℕ
  pub result_summary : Option String
  pub user_facing_message : String

pub data RunPayload : Type 0 where
  started : RunStarted → RunPayload
  paused : (reason : String) → RunPayload
  resumed : (resume_from_seq : ℕ) → RunPayload
  completed : RunCompleted → RunPayload
  failed : RunFailed → RunPayload
  orphaned : (reason : String) → RunPayload

pub record ToolCalled : Type 0 where
  pub tool_call_id : String
  pub tool_name : String
  pub input : Fields
  pub idempotency_key : Option String
  pub step_id : Option String

pub data ToolResultType : Type 0 where
  success unsuccessful : ToolResultType

pub record ToolCompleted : Type 0 where
  pub tool_call_id : String
  pub tool_name : String
  pub output : Value
  pub duration_ms : ℕ
  pub result_type : ToolResultType
  pub error : Option String
  pub step_id : Option String

pub data ToolPayload : Type 0 where
  called : ToolCalled → ToolPayload
  completed : ToolCompleted → ToolPayload
  failed : (tool_call_id tool_name error : String) → ToolPayload
  timeout : (tool_call_id tool_name : String) (timeout_ms : ℕ) → ToolPayload
  blocked : (tool_call_id tool_name guardrail_id reason : String) → ToolPayload
  output_stored : (ref sha256 : String) → ToolPayload

pub record ConfirmationRequested : Type 0 where
  pub confirmation_id : String
  pub tool_call_id : String
  pub tool_name : String
  pub input : Fields
  pub idempotency_key : String
  pub risk_level : String
  pub step_id : Option String

pub data ConfirmationPayload : Type 0 where
  requested : ConfirmationRequested → ConfirmationPayload
  received : (confirmation_id : String) (confirmed : Bool) → ConfirmationPayload

pub record Episode : Type 0 where
  pub title : String
  pub summary : String
  pub key_decisions : List String
  pub tools_used : List String
  pub key_findings : List String
  pub errors_encountered : List String
  pub original_event_refs : List ℕ

pub data ContextPayload : Type 0 where
  checkpointed : (checkpoint_seq : ℕ) → ContextPayload
  archived :
      (episode : Episode) (keep_recent_count : ℕ) (archived_event_refs : List ℕ) → ContextPayload
  pruned : (pruned_event_refs : List ℕ) → ContextPayload

pub record FeedbackInjected : Type 0 where
  pub feedback_id : String
  pub feedback_text : String
  pub consumed_at_seq : Option ℕ
  pub injected_at_seq : Option ℕ

pub record PlanCreated : Type 0 where
  pub plan_id : String
  pub intent : String
  pub steps_summary : String
  pub layer_count : ℕ
  pub steps : List Blueprint

pub record PlanRevised : Type 0 where
  pub plan_id : String
  pub revision_reason : String
  pub intent : String
  pub remaining_steps_summary : String
  pub steps : List Blueprint
  pub step_tasks : Dict String

pub data PlanPayload : Type 0 where
  created : PlanCreated → PlanPayload
  revised : PlanRevised → PlanPayload
  completed : (plan_id summary : String) → PlanPayload
  failed : (plan_id final_error : String) → PlanPayload

pub record StepStarted : Type 0 where
  pub plan_id : String
  pub step_id : String
  pub tool_name : String
  pub depends_on : List String

pub record StepCompleted : Type 0 where
  pub plan_id : String
  pub step_id : String
  pub output_summary : String
  pub status : String
  pub error : Option String
  pub tool_call_id : Option String

pub record StepFailed : Type 0 where
  pub plan_id : String
  pub step_id : String
  pub error : String
  pub retryable : Bool
  pub tool_name : String
  pub tool_call_id : Option String

pub record StepSkipped : Type 0 where
  pub plan_id : String
  pub step_id : String
  pub reason : String
  pub tool_name : String

pub data StepPayload : Type 0 where
  started : StepStarted → StepPayload
  completed : StepCompleted → StepPayload
  failed : StepFailed → StepPayload
  skipped : StepSkipped → StepPayload

-- One constructor for each `EventType`, with the payloads of that aggregate.
pub data Payload : Type 0 where
  run : RunPayload → Payload
  delivery_contracts_resolved : List DeliveryContract → Payload
  agent_thought : (thought : String) (tool_choice : Option String) → Payload
  tool : ToolPayload → Payload
  confirmation : ConfirmationPayload → Payload
  context : ContextPayload → Payload
  feedback_injected : FeedbackInjected → Payload
  plan : PlanPayload → Payload
  step : StepPayload → Payload
  step_repair diagnostic conversation workspace : (phase : String) → Payload

pub record Event : Type 0 where
  pub run_id : String
  pub seq : ℕ
  pub payload : Payload
  pub idempotency_key : Option String
  pub tenant_id : String
  pub workspace_id : Option String
