-- ===== src/Calls/Execute.antt =====
-- Steps 0 to 5 of ToolExecutor.execute: the guardrails, the cache of finished calls and the confirmation,
-- from the last step to the first.
use jagent.Base.{
  String, Bool, true, false, ◌||◌, Option, none, some, List, [], ◌∷◌, ◌==◌, any, concat,
  if◌then◌else◌, Result, ok, err,
}
use jagent.Events.{
  Event, Payload, ToolPayload, ToolCompleted, ToolResultType, success, unsuccessful,
  ConfirmationPayload, ConfirmationRequested,
}
use jagent.EventLog.{Store, find_by_idempotency_key}
use jagent.Tools.{effective_requires_confirmation}
use jagent.Retry.{Raised}
use jagent.Guardrails.{GuardrailResult}
use jagent.Guardrails.Runner.{run}
use jagent.Calls.{
  ExecutionStatus, ToolExecutionResult, Call, Harness, Execution, find_confirmation_by_id,
  first_failed, log, compute_key, tool_call_id, result_of,
}
use jagent.Calls.Invoke.{call_tool, failed_payload, uncalled}

module _ (h : Harness) (c : Call) where
  unfoldable pub needs_confirmation : List GuardrailResult → Bool
  unfolding effective_requires_confirmation
  needs_confirmation results =
      effective_requires_confirmation c.tool c.input || any (λ r. r.triggers_confirmation) results

  -- ik_key or f"_noik_{tool_name}"
  unfoldable pub confirm_key : String
  unfolding compute_key concat
  confirm_key = elim (compute_key h c) [
    | none ↦ concat ("_noik_" ∷ c.tool_name ∷ [])
    | some k ↦ if k == "" then concat ("_noik_" ∷ c.tool_name ∷ []) else k
  ]

  -- No confirmation was asked for yet.
  unfoldable pub ask : Store → Execution
  unfolding log result_of tool_call_id uncalled confirm_key
  ask s =
      uncalled h c
        (record (result_of h c ExecutionStatus.confirmation_needed (tool_call_id h c)) {
          confirmation_id = some h.confirmation_uuid;
        })
        (log h c
          (Payload.confirmation (
            ConfirmationPayload.requested (record {
              confirmation_id = h.confirmation_uuid;
              tool_call_id = tool_call_id h c;
              tool_name = c.tool_name;
              input = c.input;
              idempotency_key = confirm_key;
              risk_level = "medium";
              step_id = c.step_id;
            })))
          (some confirm_key) s)

  -- A confirmation was asked for: the operator's answer decides.
  unfoldable pub answered : ConfirmationRequested → Option Bool → Store → Execution
  unfolding log result_of tool_call_id uncalled failed_payload call_tool
  answered q none s =
      uncalled h c
        (record (result_of h c ExecutionStatus.confirmation_needed (tool_call_id h c)) {
          confirmation_id = some q.confirmation_id;
        })
        s
  answered q (some true) s = call_tool h c q.tool_call_id s
  answered q (some false) s =
      uncalled h c
        (record (result_of h c ExecutionStatus.failed (tool_call_id h c)) {
          error = some "Confirmation denied by operator";
        })
        (log h c (failed_payload h c (tool_call_id h c) "Confirmation denied by operator") none s)

  -- Step 5, on the request that stands under the key.
  unfoldable pub confirm : Option Event → Store → Execution
  unfolding ask answered find_confirmation_by_id
  confirm none s = ask s
  confirm (some e) s = elim e.payload [
    | Payload.confirmation (ConfirmationPayload.requested q) ↦
        answered q (find_confirmation_by_id c.run_id q.confirmation_id s.rows) s
    | p ↦ record { answer = err (h.invalid p); store = s; calls = 0 }
  ]

  unfoldable pub after_cache : List GuardrailResult → Store → Execution
  unfolding needs_confirmation confirm confirm_key call_tool tool_call_id find_by_idempotency_key
  after_cache results s =
      if needs_confirmation results
      then confirm (find_by_idempotency_key c.run_id "Confirmation" confirm_key s.rows) s
      else call_tool h c (tool_call_id h c) s

  -- The row of an earlier call with the key.
  unfoldable pub cached_call : Store → Option Event
  unfolding compute_key find_by_idempotency_key
  cached_call s = elim (compute_key h c) [
    | none ↦ none
    | some k ↦ find_by_idempotency_key c.run_id "Tool" k s.rows
  ]

  is_error : ToolResultType → Bool
  is_error unsuccessful = true
  is_error success = false

  unfoldable pub hit : ToolCompleted → ToolExecutionResult
  unfolding result_of is_error
  hit p =
      let se_flag = is_error p.result_type in
      record (result_of h c ExecutionStatus.idempotency_hit p.tool_call_id) {
        output = p.output;
        duration_ms = p.duration_ms;
        cached = true;
        has_semantic_error = se_flag;
        error = if se_flag then p.error else none;
      }

  -- Step 3
  unfoldable pub after_guardrails : List GuardrailResult → Option Event → Store → Execution
  unfolding after_cache hit uncalled
  after_guardrails results none s = after_cache results s
  after_guardrails results (some e) s = elim e.payload [
    | Payload.tool (ToolPayload.completed p) ↦ uncalled h c (hit p) s
    | p ↦ record { answer = err (h.invalid p); store = s; calls = 0 }
  ]

  unfoldable pub blocked : GuardrailResult → Store → Execution
  unfolding log result_of tool_call_id uncalled
  blocked r s =
      uncalled h c
        (record (result_of h c ExecutionStatus.guardrail_blocked (tool_call_id h c)) {
          guardrail_id = some r.guardrail_id;
          guardrail_reason = some r.reason;
        })
        (log h c
          (Payload.tool
            (ToolPayload.blocked (tool_call_id h c) c.tool_name r.guardrail_id r.reason))
          none s)

  -- Step 4, on what the guardrails gave.
  unfoldable pub checked : Result Raised (List GuardrailResult) → Store → Execution
  unfolding first_failed blocked after_guardrails cached_call
  checked (err e) s = record { answer = err e; store = s; calls = 0 }
  checked (ok results) s = elim (first_failed results) [
    | some r ↦ blocked r s
    | none ↦ after_guardrails results (cached_call s) s
  ]

  unfoldable pub execute : Store → Execution
  unfolding checked run
  execute s = checked (run h.checks s.rows c.run_id c.allowed_tools c.tool c.input) s
