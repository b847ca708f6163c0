-- ===== src/Calls/Gates.antt =====
-- When the executor calls the function of a tool.
use jagent.Base.{
  ◌≢◌, Bool, true, false, Option, none, some, List, [], ◌∷◌, Result, ok, err, ◌≡◌, refl, ◌⊎◌, arith,
  Bool-cases, Option-cases, inl, inr,
}
use jagent.Events.{Event, Payload, ToolPayload, ConfirmationPayload, ConfirmationRequested}
use jagent.EventLog.{Store, find_by_idempotency_key}
use jagent.Tools.{OperationContract, resolve_operation}
use jagent.Retry.{Raised}
use jagent.Guardrails.{GuardrailResult, has_delete}
use jagent.Guardrails.Runner.{run}
use jagent.Guardrails.Registration.{validate_registration_safety}
use jagent.Guardrails.Deletion.{all_passed, asks, run-asks}
use jagent.Calls.{Call, Harness, Execution, find_confirmation_by_id, first_failed}
use jagent.Calls.Invoke.{uncalled}
use jagent.Calls.Execute.{
  needs_confirmation, confirm_key, ask, answered, confirm, after_cache, cached_call, hit,
  after_guardrails, blocked, checked, execute,
}

first_failed-none : (rs : List GuardrailResult) → first_failed rs ≡ none → all_passed rs ≡ true
unfolding first_failed all_passed
first_failed-none [] h = refl
first_failed-none (r ∷ rs) h = ground (arith, first_failed-none rs)

module _ (h : Harness) (c : Call) where
  -- The operator confirmed the request that stands under the confirmation key of the call.
  pub record Confirmed (s : Store) : Type 0 where
    pub request : ConfirmationRequested
    pub row : Event
    pub found : find_by_idempotency_key c.run_id "Confirmation" (confirm_key h c) s.rows ≡ some row
    pub requested : row.payload ≡ Payload.confirmation (ConfirmationPayload.requested request)
    pub approved : find_confirmation_by_id c.run_id request.confirmation_id s.rows ≡ some true

  -- What lets a call through: the guardrails pass, no earlier call with the key is on record, and a
  -- confirmation is not needed or was given.
  pub record Permitted (s : Store) : Type 0 where
    pub results : List GuardrailResult
    pub ran : run h.checks s.rows c.run_id c.allowed_tools c.tool c.input ≡ ok results
    pub passed : all_passed results ≡ true
    pub uncached : cached_call h c s ≡ none
    pub confirmed : (needs_confirmation h c results ≡ false) ⊎ Confirmed s

  abbrev Called : Execution → Type 0
  Called x = x.calls ≢ 0

  answered-calls :
      (q : ConfirmationRequested) (answer : Option Bool) (s : Store)
      → Called (answered h c q answer s)
      → answer ≡ some true
  unfolding answered uncalled
  answered-calls q none s called = absurd (called refl)
  answered-calls q (some true) s called = refl
  answered-calls q (some false) s called = absurd (called refl)

  confirm-calls :
      (row : Option Event) (s : Store)
      → find_by_idempotency_key c.run_id "Confirmation" (confirm_key h c) s.rows ≡ row
      → Called (confirm h c row s)
      → Confirmed s
  unfolding confirm ask uncalled
  confirm-calls none s found called = absurd (called refl)
  confirm-calls (some e) s found called = go e.payload refl called
    where
      go :
          (p : Payload)
          → e.payload ≡ p
          → Called (elim p [
            | Payload.confirmation (ConfirmationPayload.requested q) ↦
                answered h c q (find_confirmation_by_id c.run_id q.confirmation_id s.rows) s
            | p ↦ record { answer = err (h.invalid p); store = s; calls = 0 }
          ])
          → Confirmed s
      go (Payload.confirmation (ConfirmationPayload.requested q)) same called = record {
        request = q;
        row = e;
        found = found;
        requested = same;
        approved = answered-calls q _ s called;
      }
      go p same called = absurd (called refl)

  after_cache-calls :
      (results : List GuardrailResult) (s : Store)
      → Called (after_cache h c results s)
      → (needs_confirmation h c results ≡ false) ⊎ Confirmed s
  unfolding after_cache
  after_cache-calls results s called = elim (Bool-cases (needs_confirmation h c results)) [
    | inr no_need ↦ inl no_need
    | inl need ↦ inr (
        confirm-calls (find_by_idempotency_key c.run_id "Confirmation" (confirm_key h c) s.rows) s
          refl (rw (need, after_cache) at called))
  ]

  after_guardrails-calls :
      (results : List GuardrailResult) (row : Option Event) (s : Store)
      → Called (after_guardrails h c results row s)
      → (row ≡ none) × ((needs_confirmation h c results ≡ false) ⊎ Confirmed s)
  unfolding after_guardrails uncalled
  after_guardrails-calls results none s called = (refl, after_cache-calls results s called)
  after_guardrails-calls results (some e) s called = absurd (go e.payload called)
    where
      go :
          (p : Payload)
          → Called (elim p [
            | Payload.tool (ToolPayload.completed p) ↦ uncalled h c (hit h c p) s
            | p ↦ record { answer = err (h.invalid p); store = s; calls = 0 }
          ])
          → ⊥
      go (Payload.tool (ToolPayload.completed p)) called = called refl
      go p called = called refl

  checked-calls :
      (answer : Result Raised (List GuardrailResult)) (s : Store)
      → Called (checked h c answer s)
      → (results : List GuardrailResult) × (answer ≡ ok results)
        × (first_failed results ≡ none)
        × Called (after_guardrails h c results (cached_call h c s) s)
  unfolding checked blocked uncalled
  checked-calls (err e) s called = absurd (called refl)
  checked-calls (ok results) s called = elim (Option-cases (first_failed results)) [
    | inl passed ↦ (results, refl, passed, rw (passed, checked) at called)
    | inr (r, failed) ↦ absurd ((rw (failed, checked) at called) refl)
  ]

  -- If `execute` calls the function of a tool, then all guardrails passed on the input, no event of the
  -- run has the idempotency key of the call, and, where the tool or a guardrail asks for a confirmation,
  -- the operator confirmed the request that stands under the key of the call.
  pub execute-Permitted : (s : Store) → (execute h c s).calls ≢ 0 → Permitted s
  unfolding execute
  execute-Permitted s called =
      let answer = run h.checks s.rows c.run_id c.allowed_tools c.tool c.input in
      let (results, ran, passed, later) = checked-calls answer s called in
      let (uncached, confirmed) = after_guardrails-calls results (cached_call h c s) s later in
      record {
        results = results;
        ran = ran;
        passed = first_failed-none results passed;
        uncached = uncached;
        confirmed = confirmed;
      }

  -- A tool that has no violation at its registration deletes only with approval: if the operation of
  -- the input has a DELETE effect and `execute` calls the function, then the operator confirmed the
  -- request that stands under the key of the call.
  pub execute-deletion :
      (s : Store) (op : OperationContract)
      → validate_registration_safety c.tool ≡ []
      → resolve_operation c.tool c.input ≡ some op
      → has_delete op.side_effects ≡ true
      → (execute h c s).calls ≢ 0
      → Confirmed s
  unfolding needs_confirmation asks
  execute-deletion s op valid resolved deletes called =
      let permitted = execute-Permitted s called in
      let asked =
        run-asks h.checks s.rows c.run_id c.allowed_tools c.tool c.input op permitted.results valid
          resolved deletes permitted.ran permitted.passed in
      elim permitted.confirmed [ inr confirmed ↦ confirmed | inl no_need ↦ absurd (ground arith) ]
