-- ===== src/Calls/Invoke.antt =====
-- Steps 6 to 8 of ToolExecutor.execute: the call of the function under its retries, and what is written
-- of its result or its exception. From the last part to the first.
use jagent.Base.{
  ℕ, String, Bool, true, false, not, ◌&&◌, ◌||◌, Option, none, some, [], ◌∷◌, ◌==◌, any, concat,
  if◌then◌else◌, Result, ok, err,
}
use jagent.Values.{Value}
use jagent.Events.{Payload, ToolPayload, ToolResultType, success, unsuccessful}
use jagent.EventLog.{Store}
use jagent.Recovery.{classify_failure_tier, is_read_only_action}
use jagent.Retry.{
  Raised, RaisedKind, timed_out, confirmation_needed, Outcome, returned, raised, Retried, is_within,
  has_candidate, is_empty, execute_with_retry,
}
use jagent.Semantic.{evaluate}
use jagent.Outputs.{inline, write_failed, stored, store, build_ref_placeholder}
use jagent.Calls.{
  ExecutionStatus, ToolExecutionResult, Call, Harness, Execution, type_name_of, structurally_usable,
  is_schema_empty, log, compute_key, result_of,
}

-- `raise None` at the end of the retries.
unfoldable pub none_raised : Raised
none_raised = record {
  kind = RaisedKind.other;
  text = "exceptions must derive from BaseException";
  type_name = "TypeError";
}

module _ (h : Harness) (c : Call) where
  -- The payload of a result that came from the function.
  unfoldable pub completed_payload : String → Value → ToolResultType → Option String → Payload
  completed_payload id output result_type error = Payload.tool (
      ToolPayload.completed (record {
        tool_call_id = id;
        tool_name = c.tool_name;
        output = output;
        duration_ms = h.duration_ms;
        result_type = result_type;
        error = error;
        step_id = c.step_id;
      }))

  unfoldable pub failed_payload : String → String → Payload
  failed_payload id error = Payload.tool (ToolPayload.failed id c.tool_name error)

  -- `_semantic_retry_reason`, on the verdict of SemanticEvaluator.evaluate
  unfoldable pub retry_reason : ToolResultType × Option String → Option String
  unfolding has_candidate is_empty classify_failure_tier is_read_only_action
  retry_reason (success, error) = none
  retry_reason (unsuccessful, none) = none
  retry_reason (unsuccessful, some error) =
      let candidates = c.tool.retry_policy.retryable_errors in
      if error == ""
      then none
      else if not
          (classify_failure_tier h.dumps h.transient_search (some error) false == "tool_retry")
      then none
      else if not (is_empty candidates) && not (has_candidate candidates error)
      then none
      else if not (is_read_only_action h.repr c.tool_name c.input)
      then none
      else some error

  unfoldable pub semantic_retry_reason : Value → Result Raised (Option String)
  unfolding evaluate retry_reason
  semantic_retry_reason output = elim (evaluate h.ordered h.describe h.repr output c.tool) [
    | err e ↦ err e
    | ok verdict ↦ ok (retry_reason verdict)
  ]

  -- The handlers of exceptions around the call.
  unfoldable pub on_exception : String → Raised → Store → ToolExecutionResult × Store
  unfolding log result_of failed_payload has_candidate is_within
  on_exception id e s = elim e.kind [
    | timed_out ↦ (
      record (result_of h c ExecutionStatus.timeout id) {
        timeout_ms = c.tool.timeout_ms;
        duration_ms = h.duration_ms;
        error = some (h.timed_out_text h.duration_ms);
      },
      log h c (Payload.tool (ToolPayload.timeout id c.tool_name c.tool.timeout_ms)) none s,
    )
    | confirmation_needed confirmation_id ↦ (
      record (result_of h c ExecutionStatus.confirmation_needed id) {
        confirmation_id = some confirmation_id;
        duration_ms = h.duration_ms;
      },
      s,
    )
    | RaisedKind.other ↦ (
      record (result_of h c ExecutionStatus.failed id) {
        error = some e.text;
        retryable =
            any (λ candidate. is_within candidate e.text || is_within candidate e.type_name)
              c.tool.retry_policy.retryable_errors;
        duration_ms = h.duration_ms;
      },
      log h c (failed_payload id e.text) none s,
    )
  ]

  -- `_offload_if_large`: the value that the events carry, and the store with the record of the blob.
  unfoldable pub offload_if_large : Value → Store → Value × Store
  unfolding store log build_ref_placeholder
  offload_if_large output s = elim (store h.blobs output) [
    | inline ↦ (output, s)
    | write_failed ↦ (output, s)
    | stored blob ↦ (
      build_ref_placeholder blob,
      log h c (Payload.tool (ToolPayload.output_stored blob.ref blob.sha256)) none s,
    )
  ]

  -- A successful output is written under the key.
  unfoldable pub succeed : String → Value → ℕ → Store → ToolExecutionResult × Store
  unfolding offload_if_large log completed_payload result_of compute_key
  succeed id output retry_count s =
      let (persisted, s') = offload_if_large output s in
      (
        record (result_of h c ExecutionStatus.completed id) {
          output = output;
          duration_ms = h.duration_ms;
          retry_attempts = retry_count;
        },
        log h c (completed_payload id persisted success none) (compute_key h c) s',
      )

  -- An output that its schema does not allow, and that a later step cannot navigate.
  unfoldable pub reject : String → Value → Store → ToolExecutionResult × Store
  unfolding log failed_payload result_of concat type_name_of
  reject id output s =
      let error = concat (
        "Output schema validation failed: expected structured data, got "
        ∷ type_name_of output
        ∷ []) in
      (
        record (result_of h c ExecutionStatus.failed id) {
          error = some error;
          duration_ms = h.duration_ms;
        },
        log h c (failed_payload id error) none s,
      )

  unfoldable pub is_rejected : Value → Bool
  unfolding is_schema_empty structurally_usable
  is_rejected output =
      not (is_schema_empty c.tool.output_schema)
      && (not (h.is_valid c.tool.output_schema output) && not (structurally_usable output))

  -- After the call returned: an unsuccessful output is written without the key.
  unfoldable pub judged :
      String → Value → ℕ → ToolResultType × Option String → Store → ToolExecutionResult × Store
  unfolding log completed_payload result_of is_rejected succeed reject
  judged id output retry_count (unsuccessful, error) s = (
    record (result_of h c ExecutionStatus.completed id) {
      output = output;
      duration_ms = h.duration_ms;
      retry_attempts = retry_count;
      has_semantic_error = true;
      error = error;
    },
    log h c (completed_payload id output unsuccessful error) none s,
  )
  judged id output retry_count (success, error) s =
      if is_rejected output then reject id output s else succeed id output retry_count s

  -- The outcome of the retries.
  unfoldable pub conclude : String → Option (Outcome Value) → Store → ToolExecutionResult × Store
  unfolding on_exception judged evaluate
  conclude id none s = on_exception id none_raised s
  conclude id (some (raised e)) s = on_exception id e s
  conclude id (some (returned output retry_count)) s =
      elim (evaluate h.ordered h.describe h.repr output c.tool) [
        | err e ↦ on_exception id e s
        | ok verdict ↦ judged id output retry_count verdict s
      ]

  unfoldable pub called_payload : String → Payload
  unfolding compute_key
  called_payload id = Payload.tool (
      ToolPayload.called (record {
        tool_call_id = id;
        tool_name = c.tool_name;
        input = c.input;
        idempotency_key = compute_key h c;
        step_id = c.step_id;
      }))

  unfoldable pub retried : Retried Value
  unfolding execute_with_retry semantic_retry_reason
  retried = execute_with_retry c.tool_fn c.tool.retry_policy (some semantic_retry_reason)

  -- Steps 6 and 7: the event before the call, the call, and what comes of it.
  unfoldable pub call_tool : String → Store → Execution
  unfolding log called_payload retried conclude
  call_tool id s =
      let (result, after) = conclude id retried.outcome (log h c (called_payload id) none s) in
      record { answer = ok result; store = after; calls = retried.calls }

  -- An end without a call.
  unfoldable pub uncalled : ToolExecutionResult → Store → Execution
  uncalled result s = record { answer = ok result; store = s; calls = 0 }
