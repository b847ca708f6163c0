-- ===== src/Executor/Gate.antt =====
-- The gate of `_execute_step`: no step runs on the result of a step that did not end normally.
use jagent.Base.{
  String, true, false, none, some, List, [], ◌∷◌, Dict, lookup, Result, ok, ◌≡◌, refl, ◌↔◌, sym,
  ◌∙◌, arith, Option-cases, inl, inr, In, here, there,
}
use mathlib.Core.Bool.{false≢true}
use jagent.Values.{Value, Fields}
use jagent.Steps.{ExecState, StepResult, new_result, step_normal}
use jagent.Plan.{DagStep, DagPlan}
use jagent.Executor.{
  Environment, ExecutionResult, StepError, CallError, gate_skip_reason, find_step, prepare_step,
  execute_step,
}

-- Every dependency that has a result ended normally.
pub DepsNormal : List String → Dict StepResult → Type 0
DepsNormal deps results =
    (dep : String) (r : StepResult)
    → In dep deps
    → lookup dep results ≡ some r
    → step_normal r ≡ true

module _ (show : StepError → String) where
  open_gate :
      (deps : List String) (results : Dict StepResult)
      → DepsNormal deps results
      → gate_skip_reason show deps results ≡ none
  unfolding gate_skip_reason DepsNormal
  open_gate [] results h = refl
  open_gate (dep ∷ deps) results h = elim (Option-cases (lookup dep results)) [
    | inl absent ↦ rw (absent, gate_skip_reason) (open_gate deps results (λ d r i. h d r (there i)))
    | inr (r, found) ↦
        rw (found, h dep r here found, gate_skip_reason)
          (open_gate deps results (λ d r i. h d r (there i)))
  ]

  gate_opened :
      (deps : List String) (results : Dict StepResult)
      → gate_skip_reason show deps results ≡ none
      → DepsNormal deps results
  unfolding gate_skip_reason DepsNormal
  gate_opened [] results h d r i found = elim i [ ]
  gate_opened (dep ∷ deps) results h d r here found = ground arith
  gate_opened (dep ∷ deps) results h d r (there i) found =
      gate_opened deps results (ground arith) d r i found

  -- The gate lets a step through exactly if each of its dependencies that has a result ended
  -- normally: completed, cached, or unsuccessful as a probe.
  pub gate_skip_reason-none_iff :
      (deps : List String) (results : Dict StepResult)
      → (gate_skip_reason show deps results ≡ none) ↔ DepsNormal deps results
  gate_skip_reason-none_iff deps results = (gate_opened deps results, open_gate deps results)

-- If a step of the plan has a dependency whose result is not normal, then the executor skips the
-- step for a reason that it reports, and the same comes of any other tool layer and any other
-- way to resolve the input: neither is asked.
pub execute_step-gated :
    (env : Environment) (plan : DagPlan) (results : Dict StepResult) (step : DagStep)
    (sid dep : String) (r : StepResult)
    (tool : String → String → Fields → Result CallError ExecutionResult)
    (resolve : Fields → Dict Value → Result String Fields)
    → find_step sid plan.steps ≡ some step
    → In dep step.depends_on
    → lookup dep results ≡ some r
    → step_normal r ≡ false
    → (reason : String) × (execute_step env plan results sid
        ≡ ok
            (record (new_result sid ExecState.skipped) { error = some reason; probe = step.probe }))
      × (execute_step
            (record { setting = record env.setting { resolve = resolve }; tool = tool })
            plan
            results
            sid
          ≡ execute_step env plan results sid)
unfolding execute_step prepare_step DepsNormal
execute_step-gated env plan results step sid dep r tool resolve found waits has bad =
    elim (Option-cases (gate_skip_reason env.setting.show step.depends_on results)) [
      | inl open_ ↦ absurd (false≢true (sym bad ∙ passed open_))
      | inr (reason, shut) ↦ (
        reason,
        rw (found, shut, execute_step, prepare_step) refl,
        rw (found, shut, execute_step, prepare_step) refl,
      )
    ]
  where
    passed : gate_skip_reason env.setting.show step.depends_on results ≡ none → step_normal r ≡ true
    passed open_ = gate_opened env.setting.show step.depends_on results open_ dep r waits has
