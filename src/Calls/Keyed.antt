-- ===== src/Calls/Keyed.antt =====
-- What stands in the event log under the idempotency keys of tool calls: only successes.
use jagent.Base.{
  ℕ, String, Bool, true, false, Option, none, some, List, all, Result, ok, err, ◌≡◌, refl,
  Bool-cases, Option-cases, Result-cases, inl, inr,
}
use jagent.Values.{Value}
use jagent.Events.{
  Event, Payload, ToolPayload, ToolResultType, success, unsuccessful, ConfirmationPayload,
  ConfirmationRequested,
}
use jagent.EventLog.{Store, find_by_idempotency_key}
use jagent.EventLog.Rows.{WellFormed}
use jagent.EventLog.Commits.{append_event-returns}
use jagent.EventLog.Keyed.{append_event-all}
use jagent.Retry.{Raised, RaisedKind, Outcome, returned, raised}
use jagent.Semantic.{evaluate}
use jagent.Outputs.{Stored, inline, write_failed, stored, store}
use jagent.Guardrails.{GuardrailResult}
use jagent.Guardrails.Runner.{run}
use jagent.Calls.{
  Call, Harness, find_confirmation_by_id, first_failed, request, log, compute_key, tool_call_id,
}
use jagent.Calls.Invoke.{
  none_raised, call_tool, retried, uncalled, conclude, judged, succeed, reject, is_rejected,
  on_exception, offload_if_large, called_payload, completed_payload,
}
use jagent.Calls.Execute.{
  needs_confirmation, confirm_key, ask, answered, confirm, after_cache, cached_call,
  after_guardrails, blocked, checked, execute,
}

is_success : ToolPayload → Bool
is_success (ToolPayload.completed p) = elim p.result_type [ success ↦ true | unsuccessful ↦ false ]
is_success p = false

-- A Tool event has a key only if it records a success.
is_sound : Payload → Option String → Bool
unfolding is_success
is_sound p none = true
is_sound (Payload.tool p) (some k) = is_success p
is_sound p (some k) = true

-- A well-formed table with success events only under the keys of Tool events.
unfoldable pub IsSound : Store → Type 0
unfolding is_sound
IsSound s = WellFormed s.rows × (all (λ e. is_sound e.payload e.idempotency_key) s.rows ≡ true)

module _ (h : Harness) (c : Call) where
  log-IsSound :
      (p : Payload) (key : Option String) (s : Store)
      → is_sound p key ≡ true
      → IsSound s
      → IsSound (log h c p key s)
  unfolding IsSound log request
  log-IsSound p key s own (w, sound) = (
    (append_event-returns (request h c p key) s w).1,
    append_event-all is_sound (request h c p key) s w own sound,
  )

  keyless-IsSound : (p : Payload) (s : Store) → IsSound s → IsSound (log h c p none s)
  unfolding is_sound
  keyless-IsSound p s sound = log-IsSound p none s refl sound

  on_exception-IsSound :
      (id : String) (e : Raised) (s : Store) → IsSound s → IsSound (on_exception h c id e s).1
  unfolding on_exception
  on_exception-IsSound id e s sound = go e.kind refl
    where
      go : (k : RaisedKind) → e.kind ≡ k → IsSound (on_exception h c id e s).1
      go RaisedKind.timed_out same = rw (same, on_exception) (keyless-IsSound _ s sound)
      go (RaisedKind.confirmation_needed cid) same = rw (same, on_exception) sound
      go RaisedKind.other same = rw (same, on_exception) (keyless-IsSound _ s sound)

  offload-IsSound :
      (output : Value) (s : Store) → IsSound s → IsSound (offload_if_large h c output s).1
  unfolding offload_if_large
  offload-IsSound output s sound = go (store h.blobs output) refl
    where
      go : (x : Stored) → store h.blobs output ≡ x → IsSound (offload_if_large h c output s).1
      go inline e = rw (e, offload_if_large) sound
      go write_failed e = rw (e, offload_if_large) sound
      go (stored blob) e = rw (e, offload_if_large) (keyless-IsSound _ s sound)

  succeed-IsSound :
      (id : String) (output : Value) (n : ℕ) (s : Store)
      → IsSound s
      → IsSound (succeed h c id output n s).1
  unfolding succeed is_sound completed_payload
  succeed-IsSound id output n s sound =
      log-IsSound (completed_payload h c id (offload_if_large h c output s).0 success none)
        (compute_key h c) (offload_if_large h c output s).1 (own (compute_key h c))
        (offload-IsSound output s sound)
    where
      own :
          (key : Option String)
          → is_sound (completed_payload h c id (offload_if_large h c output s).0 success none) key
            ≡ true
      own none = refl
      own (some k) = refl

  judged-IsSound :
      (id : String) (output : Value) (n : ℕ) (verdict : ToolResultType × Option String) (s : Store)
      → IsSound s
      → IsSound (judged h c id output n verdict s).1
  unfolding judged reject
  judged-IsSound id output n (unsuccessful, error) s sound = keyless-IsSound _ s sound
  judged-IsSound id output n (success, error) s sound = elim (Bool-cases (is_rejected h c output)) [
    | inl bad ↦ rw (bad, judged) (keyless-IsSound _ s sound)
    | inr usable ↦ rw (usable, judged) (succeed-IsSound id output n s sound)
  ]

  conclude-IsSound :
      (id : String) (outcome : Option (Outcome Value)) (s : Store)
      → IsSound s
      → IsSound (conclude h c id outcome s).1
  unfolding conclude
  conclude-IsSound id none s sound = on_exception-IsSound id none_raised s sound
  conclude-IsSound id (some (raised e)) s sound = on_exception-IsSound id e s sound
  conclude-IsSound id (some (returned output n)) s sound =
      elim (Result-cases (evaluate h.ordered h.describe h.repr output c.tool)) [
        | inr (e, r) ↦ rw (r, conclude) (on_exception-IsSound id e s sound)
        | inl (verdict, r) ↦ rw (r, conclude) (judged-IsSound id output n verdict s sound)
      ]

  call_tool-IsSound : (id : String) (s : Store) → IsSound s → IsSound (call_tool h c id s).store
  unfolding call_tool
  call_tool-IsSound id s sound =
      conclude-IsSound id (retried h c).outcome (log h c (called_payload h c id) none s)
        (keyless-IsSound _ s sound)

  ask-IsSound : (s : Store) → IsSound s → IsSound (ask h c s).store
  unfolding ask uncalled is_sound
  ask-IsSound s sound = log-IsSound _ _ s refl sound

  answered-IsSound :
      (q : ConfirmationRequested) (answer : Option Bool) (s : Store)
      → IsSound s
      → IsSound (answered h c q answer s).store
  unfolding answered uncalled
  answered-IsSound q none s sound = sound
  answered-IsSound q (some true) s sound = call_tool-IsSound q.tool_call_id s sound
  answered-IsSound q (some false) s sound = keyless-IsSound _ s sound

  confirm-IsSound : (row : Option Event) (s : Store) → IsSound s → IsSound (confirm h c row s).store
  unfolding confirm
  confirm-IsSound none s sound = ask-IsSound s sound
  confirm-IsSound (some e) s sound = go e.payload refl
    where
      go : (p : Payload) → e.payload ≡ p → IsSound (confirm h c (some e) s).store
      go (Payload.confirmation (ConfirmationPayload.requested q)) same =
          rw (same, confirm)
            (answered-IsSound q (find_confirmation_by_id c.run_id q.confirmation_id s.rows) s sound)
      go p same = rw (same, confirm) sound

  after_cache-IsSound :
      (results : List GuardrailResult) (s : Store)
      → IsSound s
      → IsSound (after_cache h c results s).store
  unfolding after_cache
  after_cache-IsSound results s sound = elim (Bool-cases (needs_confirmation h c results)) [
    | inl need ↦
        rw (need, after_cache)
          (confirm-IsSound
            (find_by_idempotency_key c.run_id "Confirmation" (confirm_key h c) s.rows) s sound)
    | inr no_need ↦ rw (no_need, after_cache) (call_tool-IsSound (tool_call_id h c) s sound)
  ]

  after_guardrails-IsSound :
      (results : List GuardrailResult) (row : Option Event) (s : Store)
      → IsSound s
      → IsSound (after_guardrails h c results row s).store
  unfolding after_guardrails uncalled
  after_guardrails-IsSound results none s sound = after_cache-IsSound results s sound
  after_guardrails-IsSound results (some e) s sound = go e.payload refl
    where
      go : (p : Payload) → e.payload ≡ p → IsSound (after_guardrails h c results (some e) s).store
      go (Payload.tool (ToolPayload.completed p)) same = rw (same, after_guardrails) sound
      go p same = rw (same, after_guardrails) sound

  checked-IsSound :
      (answer : Result Raised (List GuardrailResult)) (s : Store)
      → IsSound s
      → IsSound (checked h c answer s).store
  unfolding checked blocked uncalled
  checked-IsSound (err e) s sound = sound
  checked-IsSound (ok results) s sound = elim (Option-cases (first_failed results)) [
    | inl passed ↦
        rw (passed, checked) (after_guardrails-IsSound results (cached_call h c s) s sound)
    | inr (r, failed) ↦ rw (failed, checked) (keyless-IsSound _ s sound)
  ]

  -- On every branch, exceptions included, `execute` keeps the table well-formed and the keys of Tool
  -- events sound: an event of a tool call with an idempotency key records a success. An unsuccessful
  -- result, a failure, a timeout or a block is never found in place of a later call.
  pub execute-IsSound : (s : Store) → IsSound s → IsSound (execute h c s).store
  unfolding execute
  execute-IsSound s sound =
      checked-IsSound (run h.checks s.rows c.run_id c.allowed_tools c.tool c.input) s sound
