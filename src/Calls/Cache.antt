-- ===== src/Calls/Cache.antt =====
-- A call that succeeded under a key is not made again.
use jagent.Base.{
  ℕ, String, true, Option, none, some, List, [], ◌∷◌, ok, ◌≡◌, refl, sym, ap, ◌∙◌, arith,
}
use mathlib.Core.Path.{subst}
use jagent.Values.{Value}
use jagent.Events.{Event, Payload, success}
use jagent.EventLog.{Store, find_by_idempotency_key, type_of}
use jagent.EventLog.Rows.{WellFormed}
use jagent.EventLog.Commits.{append_event-returns}
use jagent.EventLog.Keyed.{append_event-keyless, append_event-keyed}
use jagent.Outputs.{Stored, inline, write_failed, stored, store}
use jagent.Guardrails.{GuardrailResult}
use jagent.Guardrails.Runner.{run}
use jagent.Guardrails.Deletion.{all_passed}
use jagent.Calls.{
  ExecutionStatus, ToolExecutionResult, Call, Harness, first_failed, request, log, compute_key,
  result_of,
}
use jagent.Calls.Succeeds.{succeeded, Success, Succeeds, conclude-Success, checked-success}
use jagent.Calls.Invoke.{
  call_tool, retried, uncalled, succeed, offload_if_large, called_payload, completed_payload,
}
use jagent.Calls.Execute.{cached_call, hit, after_guardrails, checked, execute}

pub first_failed-passed :
    (rs : List GuardrailResult) → all_passed rs ≡ true → first_failed rs ≡ none
unfolding first_failed all_passed
first_failed-passed [] h = refl
first_failed-passed (r ∷ rs) h = ground (arith, first_failed-passed rs)

module _ (h : Harness) (c : Call) where
  log-WellFormed :
      (p : Payload) (key : Option String) (s : Store)
      → WellFormed s.rows
      → WellFormed (log h c p key s).rows
  unfolding log
  log-WellFormed p key s w = (append_event-returns (request h c p key) s w).1

  log-find :
      (p : Payload) (s : Store) (event_type k : String)
      → WellFormed s.rows
      → find_by_idempotency_key c.run_id event_type k (log h c p none s).rows
        ≡ find_by_idempotency_key c.run_id event_type k s.rows
  unfolding log request
  log-find p s event_type k w =
      append_event-keyless (request h c p none) s c.run_id event_type k w refl

  offload-find :
      (output : Value) (s : Store) (event_type k : String)
      → WellFormed s.rows
      → WellFormed (offload_if_large h c output s).1.rows
        × (find_by_idempotency_key c.run_id event_type k (offload_if_large h c output s).1.rows
            ≡ find_by_idempotency_key c.run_id event_type k s.rows)
  unfolding offload_if_large
  offload-find output s event_type k w = go (store h.blobs output) refl
    where
      go :
          (x : Stored)
          → store h.blobs output ≡ x
          → WellFormed (offload_if_large h c output s).1.rows
            × (find_by_idempotency_key c.run_id event_type k (offload_if_large h c output s).1.rows
                ≡ find_by_idempotency_key c.run_id event_type k s.rows)
      go inline e = rw (e, offload_if_large) (w, refl)
      go write_failed e = rw (e, offload_if_large) (w, refl)
      go (stored blob) e =
          rw (e, offload_if_large) (log-WellFormed _ none s w, log-find _ s event_type k w)

  -- The row that a success leaves.
  Recorded : String → String → Value → Store → Type 0
  Recorded k id persisted s =
      (e : Event) × (e.payload ≡ completed_payload h c id persisted success none)
      × (find_by_idempotency_key c.run_id "Tool" k s.rows ≡ some e)

  succeed-Recorded :
      (id k : String) (output : Value) (n : ℕ) (s : Store)
      → WellFormed s.rows
      → compute_key h c ≡ some k
      → find_by_idempotency_key c.run_id "Tool" k s.rows ≡ none
      → Recorded k id (offload_if_large h c output s).0 (succeed h c id output n s).1
  unfolding succeed Recorded log request type_of completed_payload
  succeed-Recorded id k output n s w keyed fresh =
      let (w', same) = offload-find output s "Tool" k w in
      append_event-keyed
        (request h c (completed_payload h c id (offload_if_large h c output s).0 success none)
          (compute_key h c))
        (offload_if_large h c output s).1 k w' keyed (same ∙ fresh)

  -- What a store that has the row of a success answers.
  execute-Recorded :
      (k id : String) (persisted : Value) (s : Store) (results : List GuardrailResult)
      → compute_key h c ≡ some k
      → Recorded k id persisted s
      → run h.checks s.rows c.run_id c.allowed_tools c.tool c.input ≡ ok results
      → all_passed results ≡ true
      → execute h c s ≡ record {
        answer = ok (record (result_of h c ExecutionStatus.idempotency_hit id) {
          output = persisted;
          duration_ms = h.duration_ms;
          cached = true;
        });
        store = s;
        calls = 0;
      }
  unfolding Recorded execute cached_call hit completed_payload uncalled result_of
  execute-Recorded k id persisted s results keyed (e, payload, found) ran passed =
      let known : cached_call h c s ≡ some e = rw (keyed, cached_call) found in
      let let_through : checked h c (ok results) s
          ≡ after_guardrails h c results (cached_call h c s) s =
        rw (first_failed-passed results passed, checked) refl in
      let answer : after_guardrails h c results (some e) s ≡ record {
        answer = ok (record (result_of h c ExecutionStatus.idempotency_hit id) {
          output = persisted;
          duration_ms = h.duration_ms;
          cached = true;
        });
        store = s;
        calls = 0;
      } =
        rw (payload, after_guardrails) refl in
      ap (λ a. checked h c a s) ran
      ∙ let_through
      ∙ ap (λ row. after_guardrails h c results row s) known
      ∙ answer

  -- The value that the events carry for an output.
  unfoldable pub persisted : Value → Store → Value
  unfolding offload_if_large
  persisted output s = (offload_if_large h c output s).0

  persisted_lem : (output : Value) (s t : Store) → persisted output s ≡ persisted output t
  unfolding persisted
  persisted_lem output s t = go (store h.blobs output) refl
    where
      go : (x : Stored) → store h.blobs output ≡ x → persisted output s ≡ persisted output t
      go inline e = ground arith
      go write_failed e = ground arith
      go (stored blob) e = ground arith

  -- A successful call is a call of the function whose output was written under the key.
  call_tool-success :
      (id k : String) (s : Store)
      → WellFormed s.rows
      → compute_key h c ≡ some k
      → find_by_idempotency_key c.run_id "Tool" k s.rows ≡ none
      → Succeeds h c (call_tool h c id s)
      → (output : Value) × (n : ℕ) × ((call_tool h c id s).answer
          ≡ ok (record (result_of h c ExecutionStatus.completed id) {
            output = output;
            duration_ms = h.duration_ms;
            retry_attempts = n;
          }))
        × Recorded k id (persisted output s) (call_tool h c id s).store
  unfolding call_tool Succeeds Success succeed persisted Recorded
  call_tool-success id k s w keyed fresh good =
      let before = log h c (called_payload h c id) none s in
      let w' = log-WellFormed (called_payload h c id) none s w in
      let still = log-find (called_payload h c id) s "Tool" k w in
      let (output, n, same) = conclude-Success h c id (retried h c).outcome before good in
      let (e, payload, found) = succeed-Recorded id k output n before w' keyed (still ∙ fresh) in
      (
        output,
        n,
        ap (λ x. ok x.0) same,
        (
          e,
          payload
              ∙ ap (λ v. completed_payload h c id v success none) (persisted_lem output before s),
          ap (λ x. find_by_idempotency_key c.run_id "Tool" k x.1.rows) same ∙ found,
        ),
      )

  -- If a call with an idempotency key on a well-formed store gave an output that counts as a success,
  -- then the same call on the store that it left, whose guardrails pass again, does not call the
  -- function: it answers from the event log, with the identifier of the first call and the value that
  -- was written for its output, and leaves the store as it is.
  pub execute-again :
      (s : Store) (k : String) (results : List GuardrailResult)
      → WellFormed s.rows
      → compute_key h c ≡ some k
      → succeeded (execute h c s).answer ≡ true
      → run h.checks (execute h c s).store.rows c.run_id c.allowed_tools c.tool c.input ≡ ok results
      → all_passed results ≡ true
      → (first : ToolExecutionResult) × ((execute h c s).answer ≡ ok first)
        × (execute h c (execute h c s).store ≡ record {
          answer = ok (record first {
            status = ExecutionStatus.idempotency_hit;
            output = persisted first.output s;
            cached = true;
            retry_attempts = 0;
          });
          store = (execute h c s).store;
          calls = 0;
        })
  unfolding execute Succeeds result_of
  execute-again s k results w keyed good ran passed =
      let answer = run h.checks s.rows c.run_id c.allowed_tools c.tool c.input in
      let (fresh, (id, same)) = checked-success h c answer s good in
      let unknown : find_by_idempotency_key c.run_id "Tool" k s.rows ≡ none =
        rw (keyed, cached_call) at fresh in
      let (output, n, first, recorded) =
        call_tool-success id k s w keyed unknown (ap (λ x. succeeded x.answer) (sym same) ∙ good) in
      (
        record (result_of h c ExecutionStatus.completed id) {
          output = output;
          duration_ms = h.duration_ms;
          retry_attempts = n;
        },
        ap (λ x. x.answer) same ∙ first,
        execute-Recorded k id (persisted output s) (execute h c s).store results keyed
            (subst (λ x. Recorded k id (persisted output s) x.store) (sym same) recorded) ran
            passed,
      )
