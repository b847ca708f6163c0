-- ===== src/Layers/Sync.antt =====
-- The events of a layer and its results agree: folding the events gives the states of the results.
use jagent.Base.{
  ℕ, ◌+◌, String, true, false, some, List, [], ◌∷◌, ◌==◌, Dict, lookup, insert, lookup-insert,
  Result, ok, err, ◌≡◌, ◌≢◌, refl, sym, ◌∙◌, arith, Bool-cases, Option-cases, inl, inr, length,
}
use mathlib.Core.Bool.{false≢true}
use jagent.Steps.{ExecState, StepResult}
use jagent.Plan.{DagPlan}
use jagent.Plan.Toposort.{step_map}
use jagent.Events.{StepPayload}
use jagent.Evidence.{Evidence, StepEvidence, evidence_of, started_evidence, step_evidence}
use jagent.Executor.{
  Environment, CallError, exception, base_exception, gate_skip_reason, execute_step,
}
use jagent.Layers.{
  LayerState, store_result, record_rest, record_waiting, record_result, record_one, record_all,
  gate_one, gate_all, gated, exec_layer_of, gate_result, skipped_event, start_one, start_all,
  execute_layer,
}
use jagent.Layers.Agree.{
  state_text, is_settled, evidence_after, Synced, evidence_after-snoc, insert-Synced,
  restate-Synced, settled_text,
}

module _ (env : Environment) (plan : DagPlan) (plan_id : String) (seq : ℕ) (m : Evidence) where
  abbrev InSync : LayerState → Type 0
  InSync s = Synced (evidence_after s.events seq m) s.results

  -- The event writes the state of the result into the evidence of the step.
  abbrev Records : String → ExecState → StepPayload → Type 0
  Records sid state event =
      (n : ℕ) (e : Evidence)
      → (ev : StepEvidence) × (step_evidence event n e ≡ insert sid ev e)
        × (is_settled state ≡ true → ev.exec_state ≡ state_text state)

  store_result-InSync :
      (sid : String) (r : StepResult) (event : StepPayload) (s : LayerState)
      → Records sid r.exec_state event
      → InSync s
      → InSync (store_result env plan plan_id sid r event s)
  unfolding store_result
  store_result-InSync sid r event s records h =
      let (ev, writes, state) = records (length s.events + seq) (evidence_after s.events seq m) in
      rw (evidence_after-snoc s.events event seq m)
        (rw writes (insert-Synced sid r ev (evidence_after s.events seq m) s.results state h))

  record_rest-InSync :
      (sid : String) (r : StepResult) (s : LayerState)
      → r.exec_state ≢ ExecState.cancelled
      → r.exec_state ≢ ExecState.completed
      → r.exec_state ≢ ExecState.idempotent
      → r.exec_state ≢ ExecState.unsuccessful
      → InSync s
      → InSync (record_rest env plan plan_id sid r s)
  unfolding record_rest step_evidence state_text is_settled
  record_rest-InSync sid r s c d i u h = go r.exec_state refl
    where
      go :
          (state : ExecState) → r.exec_state ≡ state → InSync (record_rest env plan plan_id sid r s)
      go ExecState.skipped e =
          rw (e, record_rest) (store_result-InSync sid r _ s (λ n f. (_, refl, λ k. rw e)) h)
      go ExecState.failed e =
          rw (e, record_rest) (store_result-InSync sid r _ s (λ n f. (_, refl, λ k. rw e)) h)
      go ExecState.pending e =
          rw (e, record_rest) (store_result-InSync sid r _ s (λ n f. (_, refl, λ k. cc)) h)
      go ExecState.running e =
          rw (e, record_rest) (store_result-InSync sid r _ s (λ n f. (_, refl, λ k. cc)) h)
      go ExecState.cancelled e = absurd (c e)
      go ExecState.completed e = absurd (d e)
      go ExecState.idempotent e = absurd (i e)
      go ExecState.unsuccessful e = absurd (u e)

  -- What every result of `_execute_step` satisfies.
  abbrev IsExecuted : StepResult → Type 0
  IsExecuted r =
      (r.exec_state ≢ ExecState.cancelled)
      × ((c : String) → r.confirmation_id ≡ some c → is_settled r.exec_state ≡ false)

  insert-InSync :
      (sid : String) (r : StepResult) (e : Evidence) (results : Dict StepResult)
      → is_settled r.exec_state ≡ false
      → Synced e results
      → Synced e (insert sid r results)
  insert-InSync sid r e results open_r h k q found settled = elim (Bool-cases (sid == k)) [
    | inl own ↦
        let same : q ≡ r = ground (arith, lookup-insert sid k r results) in
        absurd (false≢true (sym open_r ∙ rw same at settled))
    | inr other ↦ h k q (ground (arith, lookup-insert sid k r results)) settled
  ]

  record_waiting-InSync :
      (sid : String) (r : StepResult) (s : LayerState)
      → IsExecuted r
      → r.exec_state ≢ ExecState.completed
      → r.exec_state ≢ ExecState.idempotent
      → r.exec_state ≢ ExecState.unsuccessful
      → InSync s
      → InSync (record_waiting env plan plan_id sid r s)
  unfolding record_waiting
  record_waiting-InSync sid r s x d i u h = elim (Option-cases r.confirmation_id) [
    | inl asked_not ↦ rw (asked_not, record_waiting) (record_rest-InSync sid r s x.0 d i u h)
    | inr (c, asked) ↦
        rw (asked, record_waiting)
          (insert-InSync sid r (evidence_after s.events seq m) s.results (x.1 c asked) h)
  ]

  record_result-InSync :
      (sid : String) (r : StepResult) (s : LayerState)
      → IsExecuted r
      → InSync s
      → InSync (record_result env plan plan_id sid r s)
  unfolding record_result step_evidence state_text is_settled
  record_result-InSync sid r s x h = go r.exec_state refl
    where
      go :
          (state : ExecState)
          → r.exec_state ≡ state
          → InSync (record_result env plan plan_id sid r s)
      go ExecState.completed e =
          rw (e, record_result) (store_result-InSync sid r _ s (λ n f. (_, refl, λ k. rw e)) h)
      go ExecState.idempotent e =
          rw (e, record_result) (store_result-InSync sid r _ s (λ n f. (_, refl, λ k. rw e)) h)
      go ExecState.unsuccessful e =
          rw (e, record_result) (store_result-InSync sid r _ s (λ n f. (_, refl, λ k. rw e)) h)
      go ExecState.skipped e =
          rw (e, record_result) (record_waiting-InSync sid r s x (λ k. cc) (λ k. cc) (λ k. cc) h)
      go ExecState.failed e =
          rw (e, record_result) (record_waiting-InSync sid r s x (λ k. cc) (λ k. cc) (λ k. cc) h)
      go ExecState.pending e =
          rw (e, record_result) (record_waiting-InSync sid r s x (λ k. cc) (λ k. cc) (λ k. cc) h)
      go ExecState.running e =
          rw (e, record_result) (record_waiting-InSync sid r s x (λ k. cc) (λ k. cc) (λ k. cc) h)
      go ExecState.cancelled e =
          rw (e, record_result) (record_waiting-InSync sid r s x (λ k. cc) (λ k. cc) (λ k. cc) h)

  record_one-InSync :
      (sid : String) (raw : Result CallError StepResult) (s : LayerState)
      → ((r : StepResult) → raw ≡ ok r → IsExecuted r)
      → InSync s
      → InSync (record_one env plan plan_id sid raw s)
  unfolding record_one step_evidence state_text
  record_one-InSync sid (ok r) s x h = record_result-InSync sid r s (x r refl) h
  record_one-InSync sid (err (base_exception text)) s x h = h
  record_one-InSync sid (err (exception text)) s x h =
      store_result-InSync sid _ _ s (λ n f. (_, refl, λ k. refl)) h

  execute_step-IsExecuted :
      (before : Dict StepResult) (sid : String) (r : StepResult)
      → execute_step env plan before sid ≡ ok r
      → IsExecuted r
  unfolding execute_step is_settled
  execute_step-IsExecuted before sid r h = (λ e. ground arith, λ c e. ground arith)

  record_all-InSync :
      (before : Dict StepResult) (layer : List String) (s : LayerState)
      → InSync s
      → InSync (record_all env plan plan_id before layer s)
  unfolding record_all
  record_all-InSync before [] s h = h
  record_all-InSync before (sid ∷ layer) s h =
      let next = record_one env plan plan_id sid (execute_step env plan before sid) s in
      let first =
        record_one-InSync sid (execute_step env plan before sid) s
          (λ r e. execute_step-IsExecuted before sid r e) h in
      elim (Option-cases next.propagated) [
        | inl open_ ↦ rw (open_, record_all) (record_all-InSync before layer next first)
        | inr (text, stops) ↦ rw (stops, record_all) first
      ]

  start_one-InSync :
      (sid : String) (s : LayerState) → InSync s → InSync (start_one env plan plan_id sid s)
  unfolding start_one step_evidence started_evidence evidence_of
  start_one-InSync sid s h = elim (Option-cases (lookup sid (step_map plan.steps))) [
    | inl absent ↦ rw (absent, start_one) h
    | inr (step, present) ↦
        rw (present, start_one)
          (rw evidence_after-snoc (
            restate-Synced sid _ (evidence_after s.events seq m) s.results
              (λ state settled old. ground (arith, old.1, old.2, settled_text state settled)) h))
  ]

  start_all-InSync :
      (layer : List String) (s : LayerState)
      → InSync s
      → InSync (start_all env plan plan_id layer s)
  unfolding start_all
  start_all-InSync [] s h = h
  start_all-InSync (sid ∷ layer) s h = start_all-InSync layer _ (start_one-InSync sid s h)

  gate_one-InSync :
      (sid : String) (s : LayerState) → InSync s → InSync (gate_one env plan plan_id sid s)
  unfolding gate_one gate_result skipped_event step_evidence state_text
  gate_one-InSync sid s h = elim (Option-cases (lookup sid (step_map plan.steps))) [
    | inl absent ↦ rw (absent, gate_one) h
    | inr (step, present) ↦
        elim (Option-cases (gate_skip_reason env.setting.show step.depends_on s.results)) [
          | inl open_gate ↦ rw (present, open_gate, gate_one) h
          | inr (reason, shut) ↦
              rw (present, shut, gate_one)
                (store_result-InSync sid (gate_result env plan plan_id sid step reason)
                  (skipped_event env plan plan_id sid reason step.tool) s
                  (λ n f. (_, refl, λ k. refl)) h)
        ]
  ]

  gate_all-InSync :
      (layer : List String) (s : LayerState) → InSync s → InSync (gate_all env plan plan_id layer s)
  unfolding gate_all
  gate_all-InSync [] s h = h
  gate_all-InSync (sid ∷ layer) s h = gate_all-InSync layer _ (gate_one-InSync sid s h)

-- If the evidence agrees with the results before a layer, then the evidence after the events that
-- the layer appends agrees with the results after it: for every step whose result is settled, the
-- fold has the state of the result.
pub execute_layer-Synced :
    (env : Environment) (plan : DagPlan) (plan_id : String) (layer : List String)
    (results : Dict StepResult) (seq : ℕ) (m : Evidence)
    → Synced m results
    → Synced
        (evidence_after (execute_layer env plan plan_id layer results).events seq m)
        (execute_layer env plan plan_id layer results).results
unfolding execute_layer evidence_after
execute_layer-Synced env plan plan_id layer results seq m h =
    let before = gated env plan plan_id layer results in
    let exec_layer = exec_layer_of env plan plan_id layer results in
    record_all-InSync env plan plan_id seq m before.results exec_layer
      (start_all env plan plan_id exec_layer before)
      (start_all-InSync env plan plan_id seq m exec_layer before
        (gate_all-InSync env plan plan_id seq m layer _ h))
