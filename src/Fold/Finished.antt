-- ===== src/Fold/Finished.antt =====
-- A finished step stays finished: only a Step event of the step itself changes its state.
use jagent.Base.{
  ℕ, String, true, some, List, [], ◌∷◌, ◌==◌, eq_iff, ok, ◌≡◌, ◌≢◌, arith, In, here, there,
  Bool-cases, inl, inr, sym, lookup, insert, lookup-insert, Option-cases,
}
use mathlib.Core.Path.{subst}
use jagent.Values.{Value}
use jagent.Events.{Event, Payload, Blueprint, ToolCompleted, ToolPayload, PlanPayload, StepPayload}
use jagent.Evidence.{
  Evidence, StepEvidence, evidence_of, blueprint_evidence, is_finished, tool_evidence,
  apply_blueprint, step_evidence,
}
use jagent.RunState.{RunState}
use jagent.Fold.{fold_from}
use jagent.Fold.Compression.{payload_evidence, evidence_fold, fold_from-evidence}

-- The evidence has a record of the step with this state.
abbrev pub HasState : String → String → Evidence → Type 0
HasState k state m = (ev : StepEvidence) × (lookup k m ≡ some ev) × (ev.exec_state ≡ state)

module _ (k state : String) (finished : is_finished state ≡ true) where
  blueprint-HasState :
      (ss : List Blueprint) (plan_id : String) (seq : ℕ) (m : Evidence)
      → HasState k state m
      → HasState k state (apply_blueprint ss plan_id seq m)
  unfolding apply_blueprint
  blueprint-HasState [] plan_id seq m h = h
  blueprint-HasState (s ∷ ss) plan_id seq m (ev, found, same) =
      blueprint-HasState ss plan_id seq _ (elim (Bool-cases (s.step_id == "")) [
        | inl blank ↦ rw blank (ev, found, same)
        | inr named ↦ rw named (elim (Bool-cases (s.step_id == k)) [
          | inl own ↦ (
            blueprint_evidence (evidence_of m s.step_id plan_id seq) s,
            ground (
              arith,
              lookup-insert s.step_id k (blueprint_evidence (evidence_of m s.step_id plan_id seq) s)
                  m,
            ),
            ground (arith, eq_iff s.step_id k),
          )
          | inr other ↦ (
            ev,
            ground (
              arith,
              lookup-insert s.step_id k (blueprint_evidence (evidence_of m s.step_id plan_id seq) s)
                  m,
            ),
            same,
          )
        ])
      ])

insert-HasState :
    (k j state : String) (ev : StepEvidence) (m : Evidence)
    → ((j ≡ k) → ev.exec_state ≡ state)
    → HasState k state m
    → HasState k state (insert j ev m)
insert-HasState k j state ev m h (old, found, same) = elim (Bool-cases (j == k)) [
  | inl own ↦ (ev, ground (arith, lookup-insert j k ev m), h ((eq_iff j k).0 own))
  | inr other ↦ (old, ground (arith, lookup-insert j k ev m), same)
]

tool-HasState :
    (repr : Value → String) (k state : String) (p : ToolCompleted) (seq : ℕ) (m : Evidence)
    → HasState k state m
    → HasState k state (tool_evidence repr p seq m)
unfolding tool_evidence
tool-HasState repr k state p seq m h = elim (Option-cases p.step_id) [
  | inl absent ↦ rw absent h
  | inr (sid, named) ↦ rw named (elim (Bool-cases (sid == "")) [
    | inl blank ↦ rw blank h
    | inr filled ↦ rw filled (insert-HasState k sid state _ m (λ e. ground (arith, h.1, h.2, e)) h)
  ])
]

-- The step that a Step event is about.
unfoldable pub step_id_of : StepPayload → String
step_id_of (StepPayload.started p) = p.step_id
step_id_of (StepPayload.completed p) = p.step_id
step_id_of (StepPayload.failed p) = p.step_id
step_id_of (StepPayload.skipped p) = p.step_id

step-HasState :
    (k state : String) (p : StepPayload) (seq : ℕ) (m : Evidence)
    → step_id_of p ≢ k
    → HasState k state m
    → HasState k state (step_evidence p seq m)
unfolding step_id_of step_evidence
step-HasState k state (StepPayload.started p) seq m h =
    insert-HasState k p.step_id state _ m (λ e. absurd (h e))
step-HasState k state (StepPayload.completed p) seq m h =
    insert-HasState k p.step_id state _ m (λ e. absurd (h e))
step-HasState k state (StepPayload.failed p) seq m h =
    insert-HasState k p.step_id state _ m (λ e. absurd (h e))
step-HasState k state (StepPayload.skipped p) seq m h =
    insert-HasState k p.step_id state _ m (λ e. absurd (h e))

-- The event is no Step event of the step.
abbrev pub IsAbout : String → Payload → Type 0
IsAbout k (Payload.step p) = step_id_of p ≡ k
IsAbout k _ = ⊥

module _ (repr : Value → String) (k state : String) (finished : is_finished state ≡ true) where
  payload-HasState :
      (p : Payload) (seq : ℕ) (m : Evidence)
      → ¬ (IsAbout k p)
      → HasState k state m
      → HasState k state (payload_evidence repr p seq m)
  unfolding payload_evidence
  payload-HasState (Payload.tool (ToolPayload.completed p)) seq m no_step h =
      tool-HasState repr k state p seq m h
  payload-HasState (Payload.plan (PlanPayload.created p)) seq m no_step h =
      blueprint-HasState k state finished p.steps p.plan_id seq m h
  payload-HasState (Payload.plan (PlanPayload.revised p)) seq m no_step h =
      blueprint-HasState k state finished p.steps p.plan_id seq m h
  payload-HasState (Payload.step p) seq m no_step h = step-HasState k state p seq m no_step h
  payload-HasState _ seq m no_step h = h

  fold-HasState :
      (es : List Event) (m : Evidence)
      → ((e : Event) → In e es → ¬ (IsAbout k e.payload))
      → HasState k state m
      → HasState k state (evidence_fold repr es m)
  unfolding evidence_fold
  fold-HasState [] m h s = s
  fold-HasState (e ∷ es) m h s =
      fold-HasState es _ (λ d i. h d (there i)) (payload-HasState e.payload e.seq m (h e here) s)

  -- Once a step is completed, idempotent or cancelled, no later event changes its state but a Step
  -- event of that step: not a revision of the plan (also one that changes the tool), not the output
  -- of a tool call, not a compression.
  pub finished_stays :
      (run_id : String) (es : List Event) (s t : RunState)
      → fold_from repr run_id es s ≡ ok t
      → ((e : Event) → In e es → ¬ (IsAbout k e.payload))
      → HasState k state s.step_evidence
      → HasState k state t.step_evidence
  finished_stays run_id es s t h other found =
      subst (HasState k state) (sym (fold_from-evidence repr run_id es s t h))
        (fold-HasState es s.step_evidence other found)
