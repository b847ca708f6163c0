-- ===== src/Fold.antt =====
-- `fold_events` of harness/core/fold.py: the snapshot of a run from its events, one function for
-- each aggregate of the `match`. `repr` is how Python prints a value that is no text. The events have
-- the payloads that parse_event_payload returns: the ValidationError that it raises on others, and the
-- KeyError on a plan step without an id, cannot come up here.
pub mod Replay
pub mod Compression
pub mod Finished
use jagent.Base.{
  ℕ, max, String, Bool, true, false, not, ◌&&◌, ◌||◌, Option, none, some, List, [], ◌∷◌, ◌++◌, map,
  ◌==◌, nat_eq, any, filter, if◌then◌else◌, Dict, insert, Result, ok, err,
}
use jagent.Values.{Value, null}
use jagent.Contracts.{DeliveryContract}
use jagent.Events.{
  Event, Payload, RunPayload, RunStarted, ToolPayload, ToolCompleted, ToolResultType,
  ConfirmationPayload, ContextPayload, FeedbackInjected, PlanPayload, StepPayload,
}
use jagent.Evidence.{str_or, opt_or, opt_str_or, apply_blueprint, tool_evidence, step_evidence}
use jagent.RunState.{
  RunState, RunStatus, ThoughtEntry, ToolResultStatus, ToolResult, ErrorText, timeout_after,
  tool_timed_out, guardrail, Summary, episode, new_state, new_entry, update_latest, revise_entry,
  step_entry, plan_id_of,
}

-- The two `ValueError`s.
pub data FoldError : Type 0 where
  empty_event_list : FoldError
  mixed_run_ids : (expected got : String) → FoldError

-- `a or b` where `a` is an optional text.
or_text : Option String → String → String
unfolding str_or
or_text none b = b
or_text (some a) b = str_or a b

unfoldable pub apply_run : RunPayload → RunState → RunState
unfolding or_text
apply_run (RunPayload.started p) s = record s {
  intent = p.intent;
  current_request = or_text p.current_request p.intent;
  context_snapshot = p.context_snapshot;
  status = RunStatus.running;
  conversation_id = p.conversation_id;
  workspace_id = p.workspace_id;
  intent_raw = or_text p.intent_raw p.intent;
  delivery_contracts = p.contracts;
  requires_contract_extraction = p.requires_contract_extraction;
}
apply_run (RunPayload.paused reason) s = record s {
  status = RunStatus.paused;
  pause_reason = some reason;
}
apply_run (RunPayload.resumed seq) s = record s { status = RunStatus.running; pause_reason = none }
apply_run (RunPayload.completed p) s = record s {
  status = RunStatus.completed;
  summary = Summary.text p.result_summary;
  completion_evidence = some (record {
    all_normal = p.all_normal;
    unmet_step_ids = p.unmet_step_ids;
    deliverable_status = p.deliverable_status;
    deliverable_summary = p.deliverable_summary;
  });
}
apply_run (RunPayload.failed p) s = record s {
  status = RunStatus.failed;
  last_error = some (ErrorText.text p.final_error);
  user_facing_message = some p.user_facing_message;
  summary = elim p.result_summary [
    | none ↦ s.summary
    | some t ↦ if t == "" then s.summary else Summary.text t
  ];
}
apply_run (RunPayload.orphaned reason) s = record s { orphaned = true }

completed_status : ToolResultType → ToolResultStatus
completed_status ToolResultType.unsuccessful = ToolResultStatus.unsuccessful
completed_status ToolResultType.success = ToolResultStatus.completed

-- ToolResult(...) with its defaults: no output, no duration.
failed_result : String → String → ToolResultStatus → ErrorText → ℕ → ToolResult
failed_result tool_call_id tool_name status error seq = record {
  tool_call_id = tool_call_id;
  tool_name = tool_name;
  status = status;
  output = null;
  error = some error;
  duration_ms = 0;
  event_seq = seq;
}

unfoldable pub apply_tool : (Value → String) → ToolPayload → ℕ → RunState → RunState
unfolding tool_evidence completed_status failed_result
apply_tool repr (ToolPayload.called p) seq s = record s { tool_calls = s.tool_calls ++ p ∷ [] }
apply_tool repr (ToolPayload.completed p) seq s = record s {
  tool_results =
      s.tool_results
      ++ record {
        tool_call_id = p.tool_call_id;
        tool_name = p.tool_name;
        status = completed_status p.result_type;
        output = p.output;
        error = elim p.error [ none ↦ none | some e ↦ some (ErrorText.text e) ];
        duration_ms = p.duration_ms;
        event_seq = seq;
      }
        ∷ [];
  step_evidence = tool_evidence repr p seq s.step_evidence;
}
apply_tool repr (ToolPayload.failed id name error) seq s = record s {
  tool_results =
      s.tool_results
      ++ failed_result id name ToolResultStatus.failed (ErrorText.text error) seq ∷ [];
  last_error = some (ErrorText.text error);
}
apply_tool repr (ToolPayload.timeout id name ms) seq s = record s {
  tool_results =
      s.tool_results ++ failed_result id name ToolResultStatus.timeout (timeout_after ms) seq ∷ [];
  last_error = some (tool_timed_out name);
}
apply_tool repr (ToolPayload.blocked id name guardrail_id reason) seq s = record s {
  tool_results =
      s.tool_results
      ++ failed_result id name ToolResultStatus.guardrail_blocked (guardrail guardrail_id reason)
          seq
        ∷ [];
}
apply_tool repr (ToolPayload.output_stored ref sha256) seq s = s

unfoldable pub apply_confirmation : ConfirmationPayload → RunState → RunState
apply_confirmation (ConfirmationPayload.requested p) s = record s {
  pending_confirmations = s.pending_confirmations ++ p ∷ [];
}
apply_confirmation (ConfirmationPayload.received id confirmed) s = record s {
  pending_confirmations = filter (λ c. not (c.confirmation_id == id)) s.pending_confirmations;
}

-- seq in set(refs)
unfoldable pub is_ref : List ℕ → ℕ → Bool
is_ref refs seq = any (λ r. nat_eq r seq) refs

-- The view that feeds the model loses the thoughts and tool results of the given events.
unfoldable pub drop_refs : List ℕ → RunState → RunState
unfolding is_ref
drop_refs refs s = record s {
  thought_history = filter (λ t. not (is_ref refs t.seq)) s.thought_history;
  tool_results = filter (λ r. not (is_ref refs r.event_seq)) s.tool_results;
}

unfoldable pub apply_context : ContextPayload → RunState → RunState
unfolding drop_refs
apply_context (ContextPayload.checkpointed seq) s = record s { last_checkpoint_seq = some seq }
apply_context (ContextPayload.archived e keep refs) s =
    drop_refs refs
      (record s { summary = episode e; episodes = s.episodes ++ e ∷ []; keep_recent_count = keep })
apply_context (ContextPayload.pruned refs) s = drop_refs refs s

unfoldable pub inject : FeedbackInjected → ℕ → FeedbackInjected
unfolding opt_or
inject p seq = record p { injected_at_seq = opt_or p.injected_at_seq (some seq) }

unfoldable pub consume : ℕ → FeedbackInjected → FeedbackInjected
unfolding opt_or
consume seq fb = record fb { consumed_at_seq = opt_or fb.consumed_at_seq (some seq) }

-- dict.update
unfoldable pub update_all : Dict String → Dict String → Dict String
update_all m [] = m
update_all m ((k, v) ∷ rest) = update_all (insert k v m) rest

unfoldable pub apply_plan : PlanPayload → ℕ → RunState → RunState
unfolding new_entry update_latest revise_entry apply_blueprint consume update_all
apply_plan (PlanPayload.created p) seq s = record s {
  plan_history = new_entry p ∷ s.plan_history;
  step_evidence = apply_blueprint p.steps p.plan_id seq s.step_evidence;
}
apply_plan (PlanPayload.revised p) seq s = record s {
  feedbacks = map (consume seq) s.feedbacks;
  plan_history = update_latest p.plan_id (revise_entry p) s.plan_history;
  step_tasks = update_all s.step_tasks p.step_tasks;
  step_evidence = apply_blueprint p.steps p.plan_id seq s.step_evidence;
}
apply_plan (PlanPayload.completed plan_id summary) seq s = record s {
  plan_boundary_seqs = s.plan_boundary_seqs ++ seq ∷ [];
  plan_history =
      update_latest plan_id (λ e. record e { status = some "completed"; summary = some summary })
        s.plan_history;
}
apply_plan (PlanPayload.failed plan_id final_error) seq s = record s {
  plan_boundary_seqs = s.plan_boundary_seqs ++ seq ∷ [];
  plan_history =
      update_latest plan_id
        (λ e. record e { status = some "failed"; final_error = some final_error }) s.plan_history;
}

unfoldable pub apply_step : StepPayload → ℕ → RunState → RunState
unfolding step_evidence update_latest step_entry plan_id_of
apply_step p seq s = record s {
  step_evidence = step_evidence p seq s.step_evidence;
  plan_history = update_latest (plan_id_of p) (step_entry p) s.plan_history;
}

unfoldable pub apply_payload : (Value → String) → Payload → ℕ → RunState → RunState
unfolding apply_run apply_tool apply_confirmation apply_context apply_plan apply_step inject
apply_payload repr (Payload.run p) seq s = apply_run p s
apply_payload repr (Payload.delivery_contracts_resolved cs) seq s = record s {
  delivery_contracts = cs;
}
apply_payload repr (Payload.agent_thought t choice) seq s =
    let entry : ThoughtEntry = record { seq = seq; thought = t; tool_choice = choice } in
    record s { thought_history = s.thought_history ++ entry ∷ []; latest_thought = some entry }
apply_payload repr (Payload.tool p) seq s = apply_tool repr p seq s
apply_payload repr (Payload.confirmation p) seq s = apply_confirmation p s
apply_payload repr (Payload.context p) seq s = apply_context p s
apply_payload repr (Payload.feedback_injected p) seq s = record s {
  feedbacks = s.feedbacks ++ inject p seq ∷ [];
}
apply_payload repr (Payload.plan p) seq s = apply_plan p seq s
apply_payload repr (Payload.step p) seq s = apply_step p seq s
apply_payload repr _ seq s = s

-- One turn of the loop, after the test of the run id.
unfoldable pub apply : (Value → String) → Event → RunState → RunState
unfolding apply_payload
apply repr e s = apply_payload repr e.payload e.seq (record s { seq = max s.seq e.seq })

unfoldable pub fold_from :
    (Value → String) → String → List Event → RunState → Result FoldError RunState
unfolding apply
fold_from repr run_id [] s = ok s
fold_from repr run_id (e ∷ es) s =
    let rest = fold_from repr run_id es (apply repr e s) in
    if e.run_id == run_id then rest else err (mixed_run_ids run_id e.run_id)

unfoldable pub fold_events : (Value → String) → List Event → Result FoldError RunState
unfolding fold_from new_state
fold_events repr [] = err empty_event_list
fold_events repr (e ∷ es) = fold_from repr e.run_id (e ∷ es) (new_state e.run_id)
