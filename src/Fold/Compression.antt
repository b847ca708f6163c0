-- ===== src/Fold/Compression.antt =====
-- Compression (the Context events) trims the view of the model and never the evidence of the steps.
use jagent.Base.{
  ℕ, max, String, Bool, true, false, not, List, [], ◌∷◌, ◌==◌, ok, ◌≡◌, refl, arith, In, In-filter,
  In-filter-intro, filter, ◌↔◌, Bool-cases, inl, inr, err≢ok, ok-injective, sym, ap, ◌∙◌,
}
use jagent.Values.{Value}
use jagent.Events.{
  Event, Payload, RunPayload, ToolPayload, ConfirmationPayload, ContextPayload, PlanPayload,
}
use jagent.Evidence.{Evidence, tool_evidence, apply_blueprint, step_evidence}
use jagent.RunState.{RunState, ThoughtEntry, ToolResult, new_state}
use jagent.Fold.{
  apply, apply_payload, apply_run, apply_tool, apply_confirmation, apply_context, apply_plan,
  apply_step, drop_refs, is_ref, fold_from, fold_events,
}

kept_iff :
    {A : Type 0} (p : A → Bool) (x : A) (xs : List A)
    → In x (filter (λ y. not (p y)) xs) ↔ In x xs × (p x ≡ false)
kept_iff p x xs = (
  λ i. let (j, h) = In-filter (λ y. not (p y)) x xs i in (j, ground arith),
  λ (i, h). In-filter-intro (λ y. not (p y)) x xs i (ground arith),
)

unfoldable pub is_context : Event → Bool
is_context e = elim e.payload [ Payload.context _ ↦ true | _ ↦ false ]

abbrev pub without_context : List Event → List Event
without_context = filter (λ e. not (is_context e))

-- Archiving or pruning events removes from the view exactly the thoughts and tool results whose
-- sequence number is among the given ones.
drop_refs_view :
    (refs : List ℕ) (s : RunState)
    → ((t : ThoughtEntry)
        → In t (drop_refs refs s).thought_history
          ↔ In t s.thought_history × (is_ref refs t.seq ≡ false))
      × ((r : ToolResult)
          → In r (drop_refs refs s).tool_results
            ↔ In r s.tool_results × (is_ref refs r.event_seq ≡ false))
unfolding drop_refs
drop_refs_view refs s = (
  λ t. kept_iff (λ e. is_ref refs e.seq) t s.thought_history,
  λ r. kept_iff (λ e. is_ref refs e.event_seq) r s.tool_results,
)

module _ (repr : Value → String) where
  -- The fold, as far as it writes evidence: it reads nothing else of the state.
  unfoldable pub payload_evidence : Payload → ℕ → Evidence → Evidence
  payload_evidence (Payload.tool (ToolPayload.completed p)) seq m = tool_evidence repr p seq m
  payload_evidence (Payload.plan (PlanPayload.created p)) seq m =
      apply_blueprint p.steps p.plan_id seq m
  payload_evidence (Payload.plan (PlanPayload.revised p)) seq m =
      apply_blueprint p.steps p.plan_id seq m
  payload_evidence (Payload.step p) seq m = step_evidence p seq m
  payload_evidence _ seq m = m

  unfoldable pub evidence_fold : List Event → Evidence → Evidence
  evidence_fold [] m = m
  evidence_fold (e ∷ es) m = evidence_fold es (payload_evidence e.payload e.seq m)

  run-evidence : (p : RunPayload) (s : RunState) → (apply_run p s).step_evidence ≡ s.step_evidence
  unfolding apply_run
  run-evidence (RunPayload.started p) s = refl
  run-evidence _ s = refl

  context-evidence :
      (p : ContextPayload) (s : RunState) → (apply_context p s).step_evidence ≡ s.step_evidence
  unfolding apply_context
  context-evidence (ContextPayload.checkpointed n) s = refl
  context-evidence _ s = refl

  confirmation-evidence :
      (p : ConfirmationPayload) (s : RunState)
      → (apply_confirmation p s).step_evidence ≡ s.step_evidence
  unfolding apply_confirmation
  confirmation-evidence (ConfirmationPayload.requested c) s = refl
  confirmation-evidence _ s = refl

  tool_lem :
      (p : ToolPayload) (seq : ℕ) (s : RunState)
      → (apply_tool repr p seq s).step_evidence
        ≡ payload_evidence (Payload.tool p) seq s.step_evidence
  unfolding apply_tool payload_evidence
  tool_lem (ToolPayload.completed p) seq s = refl
  tool_lem _ seq s = refl

  plan_lem :
      (p : PlanPayload) (seq : ℕ) (s : RunState)
      → (apply_plan p seq s).step_evidence ≡ payload_evidence (Payload.plan p) seq s.step_evidence
  unfolding apply_plan payload_evidence
  plan_lem (PlanPayload.created p) seq s = refl
  plan_lem _ seq s = refl

  payload_lem :
      (p : Payload) (seq : ℕ) (s : RunState)
      → (apply_payload repr p seq s).step_evidence ≡ payload_evidence p seq s.step_evidence
  unfolding apply_payload payload_evidence apply_step
  payload_lem (Payload.run p) seq s = run-evidence p s
  payload_lem (Payload.tool p) seq s = tool_lem p seq s
  payload_lem (Payload.confirmation p) seq s = confirmation-evidence p s
  payload_lem (Payload.context p) seq s = context-evidence p s
  payload_lem (Payload.plan p) seq s = plan_lem p seq s
  payload_lem (Payload.step p) seq s = refl
  payload_lem _ seq s = refl

  pub apply-evidence :
      (e : Event) (s : RunState)
      → (apply repr e s).step_evidence ≡ payload_evidence e.payload e.seq s.step_evidence
  unfolding apply
  apply-evidence e s = payload_lem e.payload e.seq (record s { seq = max s.seq e.seq })

  pub fold_from-evidence :
      (run_id : String) (es : List Event) (s t : RunState)
      → fold_from repr run_id es s ≡ ok t
      → t.step_evidence ≡ evidence_fold es s.step_evidence
  unfolding fold_from evidence_fold
  fold_from-evidence run_id [] s t h = ap (λ (u : RunState). u.step_evidence) (sym (ok-injective h))
  fold_from-evidence run_id (e ∷ es) s t h = elim (Bool-cases (e.run_id == run_id)) [
    | inl same ↦
        fold_from-evidence run_id es (apply repr e s) t (rw same at h)
        ∙ ap (evidence_fold es) (apply-evidence e s)
    | inr other ↦ absurd (err≢ok (rw other at h))
  ]

  context_lem :
      (p : Payload) (seq : ℕ) (m : Evidence)
      → elim p [ Payload.context _ ↦ true | _ ↦ false ] ≡ true
      → payload_evidence p seq m ≡ m
  unfolding payload_evidence
  context_lem (Payload.context c) seq m h = refl
  context_lem (Payload.run p) seq m h = refl
  context_lem _ seq m h = cc

  evidence_fold-without_context :
      (es : List Event) (m : Evidence) → evidence_fold (without_context es) m ≡ evidence_fold es m
  unfolding evidence_fold is_context
  evidence_fold-without_context [] m = refl
  evidence_fold-without_context (e ∷ es) m = elim (Bool-cases (is_context e)) [
    | inl c ↦ rw (c, context_lem e.payload e.seq m c) (evidence_fold-without_context es m)
    | inr o ↦ rw o (evidence_fold-without_context es (payload_evidence e.payload e.seq m))
  ]

  fold_events-evidence :
      (es : List Event) (s : RunState)
      → fold_events repr es ≡ ok s
      → s.step_evidence ≡ evidence_fold es []
  unfolding fold_events new_state
  fold_events-evidence [] s h = absurd (err≢ok h)
  fold_events-evidence (e ∷ es) s h = fold_from-evidence e.run_id (e ∷ es) (new_state e.run_id) s h

  -- If a stream folds, and so does what is left of it without its Context events (checkpoints,
  -- archived episodes, pruned events), then both states have the same step evidence.
  pub fold_events-without_context :
      (es : List Event) (s t : RunState)
      → fold_events repr es ≡ ok s
      → fold_events repr (without_context es) ≡ ok t
      → t.step_evidence ≡ s.step_evidence
  fold_events-without_context es s t h k =
      fold_events-evidence (without_context es) t k
      ∙ evidence_fold-without_context es []
      ∙ sym (fold_events-evidence es s h)
