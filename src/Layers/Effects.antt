-- ===== src/Layers/Effects.antt =====
-- What a layer does to the results: which steps of the layer get one, and that no other result changes.
use jagent.Base.{
  String, Bool, true, false, not, some, List, [], ◌∷◌, eq_iff, elem, filter, Dict, lookup,
  lookup-insert, err, ◌≡◌, refl, ◌∙◌, arith, Option-cases, inl, inr, In,
}
use jagent.Steps.{StepResult}
use jagent.Plan.{DagPlan}
use jagent.Executor.{Environment, base_exception, execute_step}
use jagent.Layers.{
  LayerState, record_one, record_all, gate_all, gated, exec_layer_of, execute_layer, outcome_of,
  raised,
}
use jagent.Layers.Inserts.{HasResult, record_one-inserts, gate_one-inserts, start_all-results}

module _ (env : Environment) (plan : DagPlan) (plan_id : String) where
  -- Each step that the gate skipped has a result.
  abbrev SkippedHaveResults : LayerState → Type 0
  SkippedHaveResults s = (sid : String) → elem sid s.to_skip ≡ true → HasResult sid s.results

  -- The layer was broken off: a BaseException came out of one of its steps.
  abbrev pub IsBroken : Dict StepResult → List String → LayerState → Type 0
  IsBroken before layer s =
      (k : String) × (text : String) × In k layer
      × (execute_step env plan before k ≡ err (base_exception text))
      × (outcome_of env plan plan_id s ≡ raised text)

  -- What is raised again ends the recording.
  record_all-stops :
      (before : Dict StepResult) (k : String) (layer : List String) (s : LayerState) (text : String)
      → (record_one env plan plan_id k (execute_step env plan before k) s).propagated ≡ some text
      → record_all env plan plan_id before (k ∷ layer) s
        ≡ record_one env plan plan_id k (execute_step env plan before k) s
  unfolding record_all
  record_all-stops before k layer s text h = ground arith

  gate_all-lookup :
      (layer : List String) (s : LayerState) (sid : String)
      → elem sid layer ≡ false
      → lookup sid (gate_all env plan plan_id layer s).results ≡ lookup sid s.results
  unfolding gate_all elem
  gate_all-lookup [] s sid h = refl
  gate_all-lookup (k ∷ layer) s sid h =
      gate_all-lookup layer _ sid (ground arith) ∙ (elim (gate_one-inserts env plan plan_id k s) [
        | inl same ↦ rw same refl
        | inr (r, results, skip) ↦
            rw results (ground (arith, lookup-insert k sid r s.results, eq_iff k sid, eq_iff sid k))
      ])

  record_all-lookup :
      (before : Dict StepResult) (layer : List String) (s : LayerState) (sid : String)
      → elem sid layer ≡ false
      → lookup sid (record_all env plan plan_id before layer s).results ≡ lookup sid s.results
  unfolding record_all elem
  record_all-lookup before [] s sid h = refl
  record_all-lookup before (k ∷ layer) s sid h =
      let next = record_one env plan plan_id k (execute_step env plan before k) s in
      let first : lookup sid next.results ≡ lookup sid s.results =
        elim (record_one-inserts env plan plan_id k (execute_step env plan before k) s) [
          | inl (r, inserts, still) ↦
              rw inserts
                (ground (arith, lookup-insert k sid r s.results, eq_iff k sid, eq_iff sid k))
          | inr (text, came, marks) ↦ rw marks refl
        ] in
      elim (Option-cases next.propagated) [
        | inl open_ ↦
            rw (open_, record_all) (record_all-lookup before layer next sid (ground arith) ∙ first)
        | inr (text, stops) ↦ rw (record_all-stops before k layer s text stops) first
      ]

elem-filter :
    (p : String → Bool) (x : String) (xs : List String)
    → elem x xs ≡ false
    → elem x (filter p xs) ≡ false
unfolding elem
elem-filter p x [] h = refl
elem-filter p x (y ∷ xs) h = ground (arith, elem-filter p x xs)

-- A layer changes no result of a step outside it.
pub execute_layer-frame :
    (env : Environment) (plan : DagPlan) (plan_id : String) (layer : List String)
    (results : Dict StepResult) (sid : String)
    → elem sid layer ≡ false
    → lookup sid (execute_layer env plan plan_id layer results).results ≡ lookup sid results
unfolding execute_layer
execute_layer-frame env plan plan_id layer results sid h =
    let before = gated env plan plan_id layer results in
    record_all-lookup env plan plan_id before.results _ _ sid
      (elem-filter (λ k. not (elem k before.to_skip)) sid layer h)
    ∙ rw (start_all-results env plan plan_id (exec_layer_of env plan plan_id layer results) before)
        (gate_all-lookup env plan plan_id layer _ sid h)
