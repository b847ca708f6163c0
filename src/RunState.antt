-- ===== src/RunState.antt =====
-- The snapshot of a run in harness/core/fold.py, without the evidence's own types.
use jagent.Base.{
  ℕ, String, Bool, false, Option, none, some, List, [], ◌∷◌, map, ◌==◌, if◌then◌else◌, Dict,
}
use jagent.Values.{Value, Fields, end}
use jagent.Contracts.{DeliveryContract}
use jagent.Events.{
  Blueprint, ToolCalled, ConfirmationRequested, Episode, FeedbackInjected, PlanCreated, PlanRevised,
  StepPayload,
}
use jagent.Evidence.{Evidence, str_or, opt_str_or}

pub data RunStatus : Type 0 where
  running paused completed failed : RunStatus

pub data ToolResultStatus : Type 0 where
  completed unsuccessful failed timeout guardrail_blocked : ToolResultStatus

pub record ThoughtEntry : Type 0 where
  pub seq : ℕ
  pub thought : String
  pub tool_choice : Option String

-- The texts that the fold composes for `error` and `last_error` stand as their parts.
pub data ErrorText : Type 0 where
  text : String → ErrorText
  timeout_after : (timeout_ms : ℕ) → ErrorText
  tool_timed_out : (tool_name : String) → ErrorText
  guardrail : (guardrail_id reason : String) → ErrorText

pub record ToolResult : Type 0 where
  pub tool_call_id : String
  pub tool_name : String
  pub status : ToolResultStatus
  pub output : Value
  pub error : Option ErrorText
  pub duration_ms : ℕ
  pub event_seq : ℕ

-- `summary: Episode | str | None`
pub data Summary : Type 0 where
  no_summary : Summary
  episode : Episode → Summary
  text : String → Summary

pub record CompletionEvidence : Type 0 where
  pub all_normal : Bool
  pub unmet_step_ids : List String
  pub deliverable_status : String
  pub deliverable_summary : List Fields

-- A step in the `steps` of `latest_plan`: the keys of its dict, `none` for one that is not set.
pub record PlanStep : Type 0 where
  pub step_id : String
  pub tool_name : Option String
  pub blueprint : Option Blueprint
  pub status : Option String
  pub output_summary : Option String
  pub error : Option String
  pub tool_call_id : Option String
  pub reason : Option String

-- An entry of `plan_history`, with the keys that later events add.
pub record PlanEntry : Type 0 where
  pub plan_id : String
  pub intent : String
  pub steps_summary : String
  pub layer_count : ℕ
  pub steps : List PlanStep
  pub revision_reason : Option String
  pub remaining_steps_summary : Option String
  pub step_tasks : Option (Dict String)
  pub status : Option String
  pub summary : Option String
  pub final_error : Option String

-- `latest_plan` is the same object as the last entry of `plan_history`: an update of the one shows
-- in the other. The history is held with its last entry first, so `latest_plan` is its head.
pub record RunState : Type 0 where
  pub run_id : String
  pub status : RunStatus
  pub seq : ℕ
  pub intent : String
  pub current_request : String
  pub context_snapshot : Fields
  pub thought_history : List ThoughtEntry
  pub latest_thought : Option ThoughtEntry
  pub tool_calls : List ToolCalled
  pub tool_results : List ToolResult
  pub last_error : Option ErrorText
  pub user_facing_message : Option String
  pub summary : Summary
  pub keep_recent_count : ℕ
  pub pause_reason : Option String
  pub pending_confirmations : List ConfirmationRequested
  pub last_checkpoint_seq : Option ℕ
  pub feedbacks : List FeedbackInjected
  pub plan_history : List PlanEntry
  pub step_tasks : Dict String
  pub plan_boundary_seqs : List ℕ
  pub completion_evidence : Option CompletionEvidence
  pub conversation_id : Option String
  pub workspace_id : Option String
  pub orphaned : Bool
  pub episodes : List Episode
  pub intent_raw : String
  pub delivery_contracts : List DeliveryContract
  pub requires_contract_extraction : Bool
  pub step_evidence : Evidence

-- RunState(run_id=run_id)
unfoldable pub new_state : String → RunState
new_state run_id = record {
  run_id = run_id;
  status = RunStatus.running;
  seq = 0;
  intent = "";
  current_request = "";
  context_snapshot = end;
  thought_history = [];
  latest_thought = none;
  tool_calls = [];
  tool_results = [];
  last_error = none;
  user_facing_message = none;
  summary = no_summary;
  keep_recent_count = 0;
  pause_reason = none;
  pending_confirmations = [];
  last_checkpoint_seq = none;
  feedbacks = [];
  plan_history = [];
  step_tasks = [];
  plan_boundary_seqs = [];
  completion_evidence = none;
  conversation_id = none;
  workspace_id = none;
  orphaned = false;
  episodes = [];
  intent_raw = "";
  delivery_contracts = [];
  requires_contract_extraction = false;
  step_evidence = [];
}

-- {**blueprint} as it lands in `latest_plan["steps"]`
plan_step : Blueprint → PlanStep
plan_step b = record {
  step_id = b.step_id;
  tool_name = some b.tool_name;
  blueprint = some b;
  status = none;
  output_summary = none;
  error = none;
  tool_call_id = none;
  reason = none;
}

-- {"step_id": ..., "status": ...}
bare_step : String → String → PlanStep
bare_step step_id status = record {
  step_id = step_id;
  tool_name = none;
  blueprint = none;
  status = some status;
  output_summary = none;
  error = none;
  tool_call_id = none;
  reason = none;
}

unfoldable pub new_entry : PlanCreated → PlanEntry
unfolding plan_step
new_entry p = record {
  plan_id = p.plan_id;
  intent = p.intent;
  steps_summary = p.steps_summary;
  layer_count = p.layer_count;
  steps = map plan_step p.steps;
  revision_reason = none;
  remaining_steps_summary = none;
  step_tasks = none;
  status = none;
  summary = none;
  final_error = none;
}

-- `if state.latest_plan and state.latest_plan["plan_id"] == plan_id:` update it.
unfoldable pub update_latest : String → (PlanEntry → PlanEntry) → List PlanEntry → List PlanEntry
update_latest plan_id f [] = []
update_latest plan_id f (e ∷ es) = if e.plan_id == plan_id then f e ∷ es else e ∷ es

-- The first entry with the step id is updated; without one, the new entry is appended.
unfoldable pub upsert_step :
    String → (PlanStep → PlanStep) → PlanStep → List PlanStep → List PlanStep
upsert_step step_id f new [] = new ∷ []
upsert_step step_id f new (s ∷ ss) =
    if s.step_id == step_id then f s ∷ ss else s ∷ upsert_step step_id f new ss

unfoldable pub revise_entry : PlanRevised → PlanEntry → PlanEntry
unfolding plan_step
revise_entry p e = record e {
  intent = p.intent;
  revision_reason = some p.revision_reason;
  remaining_steps_summary = some p.remaining_steps_summary;
  step_tasks = some p.step_tasks;
  steps = elim p.steps [ [] ↦ e.steps | b ∷ bs ↦ plan_step b ∷ map plan_step bs ];
}

-- What a STEP event writes into `latest_plan["steps"]`.
unfoldable pub step_entry : StepPayload → PlanEntry → PlanEntry
unfolding bare_step upsert_step str_or opt_str_or
step_entry (StepPayload.started p) e = record e {
  steps =
      upsert_step p.step_id
        (λ s. record s { status = some "started"; tool_name = some p.tool_name })
        (record (bare_step p.step_id "started") { tool_name = some p.tool_name }) e.steps;
}
step_entry (StepPayload.completed p) e =
    let status = str_or p.status "completed" in
    record e {
      steps =
          upsert_step p.step_id
            (λ s. record s {
              status = some status;
              output_summary = some p.output_summary;
              error = opt_str_or p.error s.error;
              tool_call_id = opt_str_or p.tool_call_id s.tool_call_id;
            })
            (record (bare_step p.step_id status) {
              output_summary = some p.output_summary;
              error = opt_str_or p.error none;
              tool_call_id = opt_str_or p.tool_call_id none;
            })
            e.steps;
    }
step_entry (StepPayload.failed p) e = record e {
  steps =
      upsert_step p.step_id
        (λ s. record s {
          status = some "failed";
          error = some p.error;
          tool_call_id = opt_str_or p.tool_call_id s.tool_call_id;
        })
        (record (bare_step p.step_id "failed") {
          error = some p.error;
          tool_call_id = opt_str_or p.tool_call_id none;
        })
        e.steps;
}
step_entry (StepPayload.skipped p) e = record e {
  steps =
      upsert_step p.step_id (λ s. record s { status = some "skipped"; reason = some p.reason })
        (record (bare_step p.step_id "skipped") { reason = some p.reason }) e.steps;
}

unfoldable pub plan_id_of : StepPayload → String
plan_id_of (StepPayload.started p) = p.plan_id
plan_id_of (StepPayload.completed p) = p.plan_id
plan_id_of (StepPayload.failed p) = p.plan_id
plan_id_of (StepPayload.skipped p) = p.plan_id
