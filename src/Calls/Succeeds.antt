-- ===== src/Calls/Succeeds.antt =====
-- A result that counts as a success comes from a call of the function.
use jagent.Base.{
  ℕ, String, Bool, true, false, not, ◌&&◌, Option, none, some, List, Result, ok, err, ◌≡◌, refl,
  arith, Bool-cases, Option-cases, Result-cases, inl, inr,
}
use jagent.Values.{Value}
use jagent.Events.{
  Event, Payload, ToolPayload, ToolResultType, success, unsuccessful, ConfirmationPayload,
  ConfirmationRequested,
}
use jagent.EventLog.{Store, find_by_idempotency_key}
use jagent.Retry.{Raised, RaisedKind, Outcome, returned, raised}
use jagent.Semantic.{evaluate}
use jagent.Guardrails.{GuardrailResult}
use jagent.Calls.{
  ExecutionStatus, ToolExecutionResult, Call, Harness, Execution, find_confirmation_by_id,
  first_failed, tool_call_id, result_of,
}
use jagent.Calls.Invoke.{
  none_raised, call_tool, uncalled, conclude, judged, succeed, reject, is_rejected, on_exception,
}
use jagent.Calls.Execute.{
  needs_confirmation, confirm_key, ask, answered, confirm, after_cache, cached_call, hit,
  after_guardrails, blocked, checked,
}

is_completed : ExecutionStatus → Bool
is_completed ExecutionStatus.completed = true
is_completed status = false

-- The function gave an output that counts as success.
unfoldable pub succeeded : Result Raised ToolExecutionResult → Bool
unfolding is_completed
succeeded (ok r) = is_completed r.status && not r.has_semantic_error
succeeded (err e) = false

module _ (h : Harness) (c : Call) where
  unfoldable pub Success : ToolExecutionResult → Type 0
  Success r = succeeded (ok r) ≡ true

  on_exception-fails :
      (id : String) (e : Raised) (s : Store) → ¬ Success (on_exception h c id e s).0
  unfolding on_exception Success succeeded result_of
  on_exception-fails id e s good = go e.kind refl
    where
      go : (k : RaisedKind) → e.kind ≡ k → ⊥
      go RaisedKind.timed_out same = ground arith
      go (RaisedKind.confirmation_needed cid) same = ground arith
      go RaisedKind.other same = ground arith

  judged-Success :
      (id : String) (output : Value) (n : ℕ) (verdict : ToolResultType × Option String) (s : Store)
      → Success (judged h c id output n verdict s).0
      → judged h c id output n verdict s ≡ succeed h c id output n s
  unfolding judged Success succeeded result_of reject
  judged-Success id output n (unsuccessful, error) s good = cc
  judged-Success id output n (success, error) s good = elim (Bool-cases (is_rejected h c output)) [
    | inl bad ↦ absurd (ground arith)
    | inr usable ↦ rw (usable, judged) refl
  ]

  pub conclude-Success :
      (id : String) (outcome : Option (Outcome Value)) (s : Store)
      → Success (conclude h c id outcome s).0
      → (output : Value) × (n : ℕ) × (conclude h c id outcome s ≡ succeed h c id output n s)
  unfolding conclude
  conclude-Success id none s good = absurd (on_exception-fails id none_raised s good)
  conclude-Success id (some (raised e)) s good = absurd (on_exception-fails id e s good)
  conclude-Success id (some (returned output n)) s good =
      elim (Result-cases (evaluate h.ordered h.describe h.repr output c.tool)) [
        | inr (e, r) ↦ absurd (on_exception-fails id e s (rw (r, conclude) at good))
        | inl (verdict, r) ↦ (
          output,
          n,
          rw (r, conclude) (judged-Success id output n verdict s (rw (r, conclude) at good)),
        )
      ]

  unfoldable pub Succeeds : Execution → Type 0
  Succeeds x = succeeded x.answer ≡ true

  answered-success :
      (q : ConfirmationRequested) (answer : Option Bool) (s : Store)
      → Succeeds (answered h c q answer s)
      → (id : String) × (answered h c q answer s ≡ call_tool h c id s)
  unfolding answered uncalled Succeeds succeeded result_of
  answered-success q none s good = cc
  answered-success q (some true) s good = (q.tool_call_id, refl)
  answered-success q (some false) s good = cc

  confirm-success :
      (row : Option Event) (s : Store)
      → Succeeds (confirm h c row s)
      → (id : String) × (confirm h c row s ≡ call_tool h c id s)
  unfolding confirm ask uncalled Succeeds succeeded result_of
  confirm-success none s good = cc
  confirm-success (some e) s good = go e.payload refl
    where
      go :
          (p : Payload)
          → e.payload ≡ p
          → (id : String) × (confirm h c (some e) s ≡ call_tool h c id s)
      go (Payload.confirmation (ConfirmationPayload.requested q)) same =
          let (id, later) =
            answered-success q (find_confirmation_by_id c.run_id q.confirmation_id s.rows) s
              (rw (same, confirm) at good) in
          (id, rw (same, confirm) later)
      go p same = absurd (ground arith)

  after_cache-success :
      (results : List GuardrailResult) (s : Store)
      → Succeeds (after_cache h c results s)
      → (id : String) × (after_cache h c results s ≡ call_tool h c id s)
  unfolding after_cache
  after_cache-success results s good = elim (Bool-cases (needs_confirmation h c results)) [
    | inl need ↦
        let row = find_by_idempotency_key c.run_id "Confirmation" (confirm_key h c) s.rows in
        let (id, later) = confirm-success row s (rw (need, after_cache) at good) in
        (id, rw (need, after_cache) later)
    | inr no_need ↦ (tool_call_id h c, rw (no_need, after_cache) refl)
  ]

  after_guardrails-success :
      (results : List GuardrailResult) (row : Option Event) (s : Store)
      → Succeeds (after_guardrails h c results row s)
      → (row ≡ none) × ((id : String) × (after_guardrails h c results row s ≡ call_tool h c id s))
  unfolding after_guardrails uncalled Succeeds succeeded hit result_of
  after_guardrails-success results none s good = (refl, after_cache-success results s good)
  after_guardrails-success results (some e) s good = absurd (go e.payload refl)
    where
      go : (p : Payload) → e.payload ≡ p → ⊥
      go (Payload.tool (ToolPayload.completed p)) same = ground arith
      go p same = ground arith

  pub checked-success :
      (answer : Result Raised (List GuardrailResult)) (s : Store)
      → Succeeds (checked h c answer s)
      → (cached_call h c s ≡ none) × ((id : String) × (checked h c answer s ≡ call_tool h c id s))
  unfolding checked blocked uncalled Succeeds succeeded result_of
  checked-success (err e) s good = cc
  checked-success (ok results) s good = elim (Option-cases (first_failed results)) [
    | inl passed ↦
        let (fresh, (id, later)) =
          after_guardrails-success results (cached_call h c s) s (rw (passed, checked) at good) in
        (fresh, (id, rw (passed, checked) later))
    | inr (r, failed) ↦ absurd (ground arith)
  ]
