-- ===== src/Recovery/Rebuild.antt =====
-- A restart from the event log finds the states of the results that the executor had.
use jagent.Base.{
  ℕ, String, Bool, true, ◌&&◌, ◌||◌, some, List, [], ◌∷◌, ◌==◌, eq_iff, Dict, lookup, ◌≡◌, refl, ap,
  ◌∙◌, arith,
}
use jagent.Steps.{ExecState, StepResult, step_normal, exec_state_is_normal, should_not_rerun}
use jagent.Plan.{DagPlan}
use jagent.Evidence.{Evidence, StepEvidence, evidence_normal}
use jagent.Executor.{Environment}
use jagent.Layers.{execute_layer}
use jagent.Layers.Agree.{Synced, evidence_after, state_text, is_settled}
use jagent.Layers.Sync.{execute_layer-Synced}
use jagent.Recovery.{state_from, rebuilt, rebuild_results_from_evidence}

rebuild-lookup :
    (sid : String) (ev : StepEvidence) (m : Evidence)
    → lookup sid m ≡ some ev
    → lookup sid (rebuild_results_from_evidence m) ≡ some (rebuilt sid ev)
unfolding lookup rebuild_results_from_evidence
rebuild-lookup sid ev [] h = cc
rebuild-lookup sid ev ((k, w) ∷ m) h = ground (arith, eq_iff k sid, rebuild-lookup sid ev m)

state_from-state_text :
    (state : ExecState) → is_settled state ≡ true → state_from (state_text state) ≡ state
unfolding is_settled state_text state_from
state_from-state_text ExecState.pending h = cc
state_from-state_text ExecState.running h = cc
state_from-state_text ExecState.completed h = refl
state_from-state_text ExecState.unsuccessful h = refl
state_from-state_text ExecState.failed h = refl
state_from-state_text ExecState.skipped h = refl
state_from-state_text ExecState.idempotent h = refl
state_from-state_text ExecState.cancelled h = refl

normal_state :
    (t : String) (probe : Bool)
    → exec_state_is_normal (state_from t) probe
      ≡ ((t == "completed" || t == "idempotent") || (t == "unsuccessful" && probe))
unfolding exec_state_is_normal state_from
normal_state t probe =
    ground (arith, eq_iff t "completed", eq_iff t "idempotent", eq_iff t "unsuccessful")

-- A result that is rebuilt from the evidence of a step ended normally exactly if the evidence says
-- so, and it has the output, the error and the probe flag of the evidence: the gate before the next
-- steps decides after a restart as it did before.
pub rebuild-step_normal :
    (sid : String) (ev : StepEvidence) (m : Evidence)
    → lookup sid m ≡ some ev
    → (r : StepResult) × (lookup sid (rebuild_results_from_evidence m) ≡ some r)
      × (step_normal r ≡ evidence_normal ev)
      × (r.output ≡ ev.output)
      × (r.error ≡ ev.error)
      × (r.probe ≡ ev.probe)
unfolding step_normal evidence_normal rebuilt
rebuild-step_normal sid ev m h = (
  rebuilt sid ev,
  rebuild-lookup sid ev m h,
  normal_state ev.exec_state ev.probe,
  refl,
  refl,
  refl,
)

-- If the evidence agrees with the results before a layer, then the results that are rebuilt from the
-- log after the layer have the state of every settled result of it: the same steps count as done
-- and are not run again.
pub execute_layer-rebuilt :
    (env : Environment) (plan : DagPlan) (plan_id : String) (layer : List String)
    (results : Dict StepResult) (seq : ℕ) (m : Evidence) (sid : String) (r : StepResult)
    → Synced m results
    → lookup sid (execute_layer env plan plan_id layer results).results ≡ some r
    → is_settled r.exec_state ≡ true
    → (q : StepResult) × (lookup sid (
          rebuild_results_from_evidence
            (evidence_after (execute_layer env plan plan_id layer results).events seq m))
        ≡ some q)
      × (q.exec_state ≡ r.exec_state)
      × (should_not_rerun q ≡ should_not_rerun r)
unfolding rebuilt should_not_rerun
execute_layer-rebuilt env plan plan_id layer results seq m sid r synced found settled =
    let (ev, there_is, state) =
      execute_layer-Synced env plan plan_id layer results seq m synced sid r found settled in
    let same : (rebuilt sid ev).exec_state ≡ r.exec_state =
      ap state_from state ∙ state_from-state_text r.exec_state settled in
    (rebuilt sid ev, rebuild-lookup sid ev _ there_is, same, rw same refl)
