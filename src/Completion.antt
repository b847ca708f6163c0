-- ===== src/Completion.antt =====
-- harness/core/scheduler/completion.py: the gate that decides whether a run is complete, in two
-- independent dimensions, mechanical and deliverable.
pub mod Verdicts
use jagent.Base.{
  ℕ, zero, suc, ◌+◌, String, Bool, true, false, not, ◌&&◌, ◌||◌, Option, none, some, List, [], ◌∷◌,
  ◌++◌, map, ◌==◌, any, all, filter, if◌then◌else◌, Dict, lookup, lookup_or,
}
use jagent.Values.{Value, Fields}
use jagent.Steps.{StepResult, step_normal}
use jagent.Plan.{DagStep, DagPlan, RequiredOperation, step_satisfies}
use jagent.Contracts.{DeliveryContract}

pub data DeliverableStatus : Type 0 where
  met unmet unverified failed : DeliverableStatus

pub record DeliverableVerdict : Type 0 where
  pub contract_id : String
  pub status : DeliverableStatus
  pub matched_step_ids : List String

-- An entry of `unmet_step_ids`: a step, or the text "declared_op#i:tool input".
pub data Unmet : Type 0 where
  step : String → Unmet
  declared_op : ℕ → String → Fields → Unmet

pub record CompletionVerdict : Type 0 where
  pub mechanical_complete : Bool
  pub unmet_step_ids : List Unmet
  pub deliverables : List DeliverableVerdict
  pub deliverable_status : DeliverableStatus

unfoldable pub deliverable_met : CompletionVerdict → Bool
deliverable_met v = elim v.deliverable_status [ met ↦ true | _ ↦ false ]

unfoldable pub is_nil {ℓ} : {A : Type ℓ} → List A → Bool
is_nil [] = true
is_nil (x ∷ xs) = false

module _ (repr : Value → String) (results : Dict StepResult) (step_aliases : Dict String) where
  -- isinstance(results.get(aliases.get(sid, sid)), StepResult) and results[...].step_normal
  unfoldable pub is_normal : String → Bool
  unfolding lookup
  is_normal sid = elim (lookup (lookup_or sid sid step_aliases) results) [
    | none ↦ false
    | some r ↦ step_normal r
  ]

  -- The step satisfies the request and ended normally.
  unfoldable pub delivers : String → Fields → DagStep → Bool
  unfolding is_normal
  delivers tool input s = step_satisfies repr s tool input && is_normal s.id

  unfoldable pub unmet_steps : List DagStep → List Unmet
  unfolding is_normal
  unmet_steps steps = map (λ s. step s.id) (filter (λ s. not (is_normal s.id)) steps)

  -- for i, req in enumerate(plan.declared_operations)
  unfoldable pub unmet_operations : List DagStep → ℕ → List RequiredOperation → List Unmet
  unfolding delivers
  unmet_operations steps i [] = []
  unmet_operations steps i (req ∷ reqs) =
      let rest = unmet_operations steps (suc i) reqs in
      if any (delivers req.tool req.input) steps
      then rest
      else declared_op i req.tool req.input ∷ rest

  unfoldable pub verdict_of : DagPlan → DeliveryContract → DeliverableVerdict
  unfolding delivers is_nil
  verdict_of plan c =
      let matched = map (λ s. s.id) (filter (delivers c.tool c.input) plan.steps) in
      record {
        contract_id = c.contract_id;
        status = if is_nil matched then unmet else met;
        matched_step_ids = matched;
      }

  unfoldable pub verify_deliverables : List DeliveryContract → DagPlan → List DeliverableVerdict
  unfolding verdict_of
  verify_deliverables contracts plan = map (verdict_of plan) contracts

is_met : DeliverableVerdict → Bool
is_met v = elim v.status [ met ↦ true | _ ↦ false ]

module _ (repr : Value → String) where
  unfoldable pub status_of : List DeliveryContract → List DeliverableVerdict → DeliverableStatus
  unfolding is_met is_nil
  status_of contracts deliverables =
      if is_nil contracts
      then unverified
      else if not (is_nil deliverables) && all is_met deliverables
      then met
      else failed

  -- CompletionVerdict.compute, which `_completion_gate` calls.
  unfoldable pub compute :
      DagPlan → Dict StepResult → Dict String → List DeliveryContract → CompletionVerdict
  unfolding status_of unmet_steps unmet_operations verify_deliverables is_nil
  compute plan results step_aliases contracts =
      let unmet_ids =
        unmet_steps repr results step_aliases plan.steps
        ++ unmet_operations repr results step_aliases plan.steps 0 plan.declared_operations in
      let deliverables = verify_deliverables repr results step_aliases contracts plan in
      record {
        mechanical_complete = is_nil unmet_ids;
        unmet_step_ids = unmet_ids;
        deliverables = deliverables;
        deliverable_status = status_of contracts deliverables;
      }
