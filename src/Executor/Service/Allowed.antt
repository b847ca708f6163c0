-- ===== src/Executor/Service/Allowed.antt =====
-- When a step calls the function of its tool.
use jagent.Base.{
  ◌≢◌, String, true, none, some, Dict, lookup, ok, ◌≡◌, refl, ap, ◌∙◌, Option-cases, Result-cases,
  inl, inr,
}
use jagent.Values.{Fields}
use jagent.Steps.{StepResult}
use jagent.Plan.{DagPlan, DagStep}
use jagent.EventLog.{Store}
use jagent.Tools.{ToolDefinition, OperationContract, resolve_operation}
use jagent.Guardrails.{has_delete}
use jagent.Guardrails.Registry.{ToolFunction, Reached, Reached-IsGuarded}
use jagent.Calls.Execute.{execute}
use jagent.Calls.Gates.{Permitted, Confirmed, execute-Permitted, execute-deletion}
use jagent.Executor.{
  Prepared, ended, callable, gate_skip_reason, find_step, input_of, prepare_call, prepare_step,
}
use jagent.Executor.Gate.{DepsNormal, gate_skip_reason-none_iff}
use jagent.Executor.Service.{Service, StepRun, call_of, execute_step_on, after_call}

-- The step comes to the call.
IsCallable : Prepared → Type 0
IsCallable (ended r) = ⊥
IsCallable (callable step input def fn) = Unit {0}

module _ (sv : Service) (plan : DagPlan) (results : Dict StepResult) (sid : String) where
  -- A step whose call is made: it is in the plan, its gate is open, its input has no reference that fails,
  -- and its tool is in both tables.
  pub record IsReady : Type 0 where
    pub step : DagStep
    pub input : Fields
    pub def : ToolDefinition
    pub fn : ToolFunction
    pub found : find_step sid plan.steps ≡ some step
    pub open_gate : gate_skip_reason sv.setting.show step.depends_on results ≡ none
    pub resolved : input_of sv.setting step results ≡ ok input
    pub present : lookup step.tool sv.setting.registry.tools ≡ some def
    pub known : lookup step.tool sv.setting.registry.fns ≡ some fn

  module _ (s : Store) where
    abbrev Called : StepRun → Type 0
    Called x = x.calls ≢ 0

    pub ready-execute_step_on :
        (r : IsReady)
        → execute_step_on sv plan results sid s
          ≡ after_call sv r.step sid
              (execute sv.harness (call_of sv sid r.step r.input r.def r.fn) s)
    unfolding execute_step_on prepare_step prepare_call
    ready-execute_step_on r =
        rw
          (
            r.found, r.open_gate, r.resolved, r.present, r.known, execute_step_on, prepare_step,
            prepare_call,
          )
          refl

    prepare_call-calls :
        (step : DagStep)
        → find_step sid plan.steps ≡ some step
        → gate_skip_reason sv.setting.show step.depends_on results ≡ none
        → IsCallable (prepare_call sv.setting step sid results)
        → IsReady
    unfolding prepare_call IsCallable
    prepare_call-calls step found open_gate called =
        elim (Result-cases (input_of sv.setting step results)) [
          | inr (e, bad) ↦ absurd (rw (bad, prepare_call) at called)
          | inl (input, resolved) ↦
              elim (Option-cases (lookup step.tool sv.setting.registry.tools)) [
                | inl absent ↦ absurd (rw (resolved, absent, prepare_call) at called)
                | inr (def, present) ↦
                    elim (Option-cases (lookup step.tool sv.setting.registry.fns)) [
                      | inl absent ↦ absurd (rw (resolved, present, absent, prepare_call) at called)
                      | inr (fn, known) ↦ record {
                        step = step;
                        input = input;
                        def = def;
                        fn = fn;
                        found = found;
                        open_gate = open_gate;
                        resolved = resolved;
                        present = present;
                        known = known;
                      }
                    ]
              ]
        ]

    prepare_step-calls : IsCallable (prepare_step sv.setting plan results sid) → IsReady
    unfolding prepare_step IsCallable
    prepare_step-calls called = elim (Option-cases (find_step sid plan.steps)) [
      | inl absent ↦ absurd (rw (absent, prepare_step) at called)
      | inr (step, found) ↦
          elim (Option-cases (gate_skip_reason sv.setting.show step.depends_on results)) [
            | inr (reason, shut) ↦ absurd (rw (found, shut, prepare_step) at called)
            | inl open_gate ↦
                prepare_call-calls step found open_gate
                  (rw (found, open_gate, prepare_step) at called)
          ]
    ]

    execute_step_on-calls : Called (execute_step_on sv plan results sid s) → IsReady
    unfolding execute_step_on IsCallable
    execute_step_on-calls called =
        prepare_step-calls (go (prepare_step sv.setting plan results sid) refl)
      where
        go :
            (p : Prepared)
            → prepare_step sv.setting plan results sid ≡ p
            → IsCallable (prepare_step sv.setting plan results sid)
        go (ended r) e = absurd ((rw (e, execute_step_on) at called) refl)
        go (callable step input def fn) e = rw e tt

    -- What stands behind a call of a function.
    pub record IsAllowed : Type 0 where
      pub prepared : IsReady
      pub deps_normal : DepsNormal prepared.step.depends_on results
      pub permitted :
          Permitted sv.harness
            (call_of sv sid prepared.step prepared.input prepared.def prepared.fn)
            s
      pub confirmed :
          (op : OperationContract)
          → resolve_operation prepared.def prepared.input ≡ some op
          → has_delete op.side_effects ≡ true
          → Confirmed sv.harness
              (call_of sv sid prepared.step prepared.input prepared.def prepared.fn)
              s

-- In a run whose registry was built by registrations and removals, a step calls the function of its tool
-- only if every dependency that has a result ended normally, all guardrails passed on the input with its
-- references filled, no event of the run has the key of the call, every confirmation that is asked for
-- was given, and, where the operation of that input deletes, the operator confirmed the request that
-- stands under the key of the call.
pub execute_step_on-IsAllowed :
    (sv : Service) (plan : DagPlan) (results : Dict StepResult) (sid : String) (s : Store)
    → Reached sv.setting.registry
    → (execute_step_on sv plan results sid s).calls ≢ 0
    → IsAllowed sv plan results sid s
unfolding after_call call_of
execute_step_on-IsAllowed sv plan results sid s reached called =
    let ready = execute_step_on-calls sv plan results sid s called in
    let call = call_of sv sid ready.step ready.input ready.def ready.fn in
    let made : (execute sv.harness call s).calls ≢ 0 = λ none_made.
      called (ap (λ x. x.calls) (ready-execute_step_on sv plan results sid s ready) ∙ none_made) in
    let guarded =
      Reached-IsGuarded sv.setting.registry ready.step.tool ready.def reached ready.present in
    record {
      prepared = ready;
      deps_normal =
          (gate_skip_reason-none_iff sv.setting.show ready.step.depends_on results).0
            ready.open_gate;
      permitted = execute-Permitted sv.harness call s made;
      confirmed = λ op resolved deletes.
          execute-deletion sv.harness call s op guarded.safe resolved deletes made;
    }
