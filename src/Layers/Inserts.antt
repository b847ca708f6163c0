-- ===== src/Layers/Inserts.antt =====
-- What each part of a layer does to the results.
use jagent.Base.{
  String, some, List, [], ◌∷◌, ◌==◌, eq_iff, Dict, lookup, insert, lookup-insert, Result, ok, err,
  ◌≡◌, refl, ◌⊎◌, ◌∙◌, arith, Bool-cases, Option-cases, inl, inr,
}
use jagent.Steps.{StepResult}
use jagent.Plan.{DagPlan}
use jagent.Plan.Toposort.{step_map}
use jagent.Executor.{Environment, CallError, exception, base_exception, gate_skip_reason}
use jagent.Layers.{
  LayerState, gate_result, store_result, record_rest, record_waiting, record_result, record_one,
  gate_one, gate_all, start_one, start_all,
}

-- The step has a result.
abbrev pub HasResult : String → Dict StepResult → Type 0
HasResult sid results = (r : StepResult) × (lookup sid results ≡ some r)

pub insert-HasResult :
    (k sid : String) (r : StepResult) (m : Dict StepResult)
    → HasResult sid m
    → HasResult sid (insert k r m)
insert-HasResult k sid r m (q, h) = elim (Bool-cases (k == sid)) [
  | inl own ↦ (r, ground (arith, lookup-insert k sid r m))
  | inr other ↦ (q, ground (arith, lookup-insert k sid r m))
]

pub insert-own : (k : String) (r : StepResult) (m : Dict StepResult) → HasResult k (insert k r m)
insert-own k r m = (r, ground (arith, lookup-insert k k r m, eq_iff k k))

module _ (env : Environment) (plan : DagPlan) (plan_id : String) where
  -- Recording a step inserts one result, its own, or marks what is to be raised again.
  pub record_one-inserts :
      (sid : String) (raw : Result CallError StepResult) (s : LayerState)
      → ((r : StepResult) × ((record_one env plan plan_id sid raw s).results
            ≡ insert sid r s.results)
          × ((record_one env plan plan_id sid raw s).propagated ≡ s.propagated))
        ⊎ ((text : String) × (raw ≡ err (base_exception text))
            × (record_one env plan plan_id sid raw s ≡ record s { propagated = some text }))
  unfolding record_one record_result record_waiting record_rest store_result
  record_one-inserts sid (err (exception text)) s = inl (_, refl, refl)
  record_one-inserts sid (err (base_exception text)) s = inr (text, refl, refl)
  record_one-inserts sid (ok r) s = inl (r, ground arith, ground arith)

  -- The gate leaves a step alone, or skips it with a result.
  pub gate_one-inserts :
      (sid : String) (s : LayerState)
      → (gate_one env plan plan_id sid s ≡ s)
        ⊎ ((r : StepResult) × ((gate_one env plan plan_id sid s).results ≡ insert sid r s.results)
            × ((gate_one env plan plan_id sid s).to_skip ≡ sid ∷ s.to_skip))
  unfolding gate_one store_result
  gate_one-inserts sid s = elim (Option-cases (lookup sid (step_map plan.steps))) [
    | inl absent ↦ inl (rw (absent, gate_one) refl)
    | inr (step, present) ↦
        elim (Option-cases (gate_skip_reason env.setting.show step.depends_on s.results)) [
          | inl open_gate ↦ inl (rw (present, open_gate, gate_one) refl)
          | inr (reason, shut) ↦ inr (
            gate_result env plan plan_id sid step reason,
            rw (present, shut, gate_one) refl,
            rw (present, shut, gate_one) refl,
          )
        ]
  ]

  pub start_all-results :
      (layer : List String) (s : LayerState)
      → (start_all env plan plan_id layer s).results ≡ s.results
  unfolding start_all start_one
  start_all-results [] s = refl
  start_all-results (sid ∷ layer) s =
      start_all-results layer (start_one env plan plan_id sid s) ∙ ground arith

  pub start_all-propagated :
      (layer : List String) (s : LayerState)
      → (start_all env plan plan_id layer s).propagated ≡ s.propagated
  unfolding start_all start_one
  start_all-propagated [] s = refl
  start_all-propagated (sid ∷ layer) s =
      start_all-propagated layer (start_one env plan plan_id sid s) ∙ ground arith

  pub gate_all-propagated :
      (layer : List String) (s : LayerState)
      → (gate_all env plan plan_id layer s).propagated ≡ s.propagated
  unfolding gate_all gate_one store_result
  gate_all-propagated [] s = refl
  gate_all-propagated (sid ∷ layer) s =
      gate_all-propagated layer (gate_one env plan plan_id sid s) ∙ ground arith
