-- ===== src/Examples/Calling.antt =====
-- Calls of a tool that deletes files, with an approval, and of one whose results are cached.
use jagent.Base.{
  ℕ, zero, suc, ◌+◌, ◌≤◌, ◌<◌, true, false, none, some, [], ◌∷◌, Result, ok, err, ◌≡◌, refl,
}
use jagent.Values.{Value, field, end, str}
use jagent.Events.{Payload, ConfirmationPayload}
use jagent.EventLog.{Store, append_event}
use jagent.EventLog.Rows.{empty-WellFormed}
use jagent.Tools.{SideEffect, ToolDefinition}
use jagent.Retry.{Raised, RaisedKind, returned, execute_with_retry}
use jagent.Retry.Bounds.{is_final, outcome_at, execute_with_retry-first}
use jagent.Guardrails.{pass}
use jagent.Guardrails.Runner.{run}
use jagent.Guardrails.Deletion.{all_passed}
use jagent.Calls.{Call, Harness, ExecutionStatus, ToolExecutionResult, compute_key, request}
use jagent.Calls.Execute.{execute}
use jagent.Calls.Succeeds.{succeeded}
use jagent.Calls.Cache.{persisted, execute-again}
use jagent.Calls.Keyed.{IsSound, execute-IsSound}
use jagent.Examples.Running.{http}
use jagent.Examples.Appending.{empty_store}

abbrev refused : Raised
refused = record { kind = RaisedKind.other; text = "connection reset"; type_name = "OSError" }

-- The first call fails, the second gives a text.
abbrev second_time : ℕ → Result Raised Value
second_time (suc zero) = err refused
second_time n = ok (str "body")

execute_with_retry-first_example :
    (n : ℕ) × (0 < n)
    × (n ≤ 3 + 1)
    × (is_final second_time http.retry_policy none n ≡ true)
    × ((j : ℕ) → 0 < j → j < n → is_final second_time http.retry_policy none j ≡ false)
    × (execute_with_retry second_time http.retry_policy none
        ≡ record { outcome = some (outcome_at second_time http.retry_policy none n); calls = n })
execute_with_retry-first_example = execute_with_retry-first second_time http.retry_policy none

-- It takes two calls.
second_time_lem :
    execute_with_retry second_time http.retry_policy none
    ≡ record { outcome = some (returned (str "body") 1); calls = 2 }
unfolding execute_with_retry
second_time_lem = refl

abbrev pub files : ToolDefinition
files = record http {
  name = "file_op";
  operations =
      record {
        operation = "delete";
        side_effects = SideEffect.delete ∷ [];
        probe_allowed = false;
        requires_confirmation = false;
        idempotency_key_fields = none;
        required_input = [];
      }
      ∷ [];
  idempotency_key_fields = some ("path" ∷ []);
  guardrails = record { guardrail_type = "destructive"; config = end } ∷ [];
}

abbrev pub harness : Harness
harness = record {
  checks = record {
    schema_error = λ schema input. none;
    dump = λ p. end;
    others = [];
    repr = λ v. "value";
    type_error = λ v. refused;
  };
  call_uuid = "call-1";
  confirmation_uuid = "confirmation-1";
  duration_ms = 5;
  dumps = λ fs. "{}";
  sha256 = λ s. s;
  is_valid = λ schema v. true;
  ordered = λ op v w. ok true;
  describe = λ i v. "low";
  repr = λ v. "value";
  transient_search = λ s. false;
  timed_out_text = λ n. "Tool timed out";
  invalid = λ p. refused;
  blobs = record {
    dumps = λ v. "{}";
    sha256 = λ s. s;
    utf8_size = λ s. 2;
    write = none;
    inline_max_chars = 8000;
  };
}

abbrev pub deletion : Call
deletion = record {
  run_id = "r1";
  tool_name = "file_op";
  input = field "operation" (str "delete") (field "path" (str "a.txt") end);
  tool = files;
  tool_fn = λ n. ok (str "deleted");
  override_tool_call_id = none;
  step_id = some "s1";
  allowed_tools = some ("file_*" ∷ []);
}

-- Asking leaves a request; the operator's answer is the next event.
abbrev asked : Store
unfolding execute
asked = (execute harness deletion empty_store).store

unfoldable pub approved : Store
unfolding asked append_event
approved =
    (append_event
      (record {
        run_id = "r1";
        payload = Payload.confirmation (ConfirmationPayload.received "confirmation-1" true);
        tenant_id = "default";
        workspace_id = none;
        idempotency_key = none;
      })
      asked).1

called_lem : (execute harness deletion approved).calls ≡ 1
unfolding execute approved request
called_lem = refl

-- A tool without guardrails of its own.
abbrev pub fetch : Call
fetch = record deletion {
  tool_name = "http_request";
  tool = record http { idempotency_key_fields = some ("url" ∷ []) };
  input = field "url" (str "https://example.org") end;
  allowed_tools = none;
}

execute-again_example :
    (first : ToolExecutionResult) × ((execute harness fetch empty_store).answer ≡ ok first)
    × (execute harness fetch (execute harness fetch empty_store).store ≡ record {
      answer = ok (record first {
        status = ExecutionStatus.idempotency_hit;
        output = persisted harness fetch first.output empty_store;
        cached = true;
        retry_attempts = 0;
      });
      store = (execute harness fetch empty_store).store;
      calls = 0;
    })
unfolding execute compute_key succeeded run request all_passed
execute-again_example =
    execute-again harness fetch empty_store "http_request:{}" (pass "schema" ∷ []) empty-WellFormed
      refl refl refl refl

empty-IsSound : IsSound empty_store
unfolding IsSound
empty-IsSound = (empty-WellFormed, refl)

execute-IsSound_example : IsSound (execute harness fetch empty_store).store
execute-IsSound_example = execute-IsSound harness fetch empty_store empty-IsSound
