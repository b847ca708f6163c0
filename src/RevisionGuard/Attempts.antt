-- ===== src/RevisionGuard/Attempts.antt =====
-- `_revise_with_degenerate_guard`: the planner is asked again while its revision is rejected. `revise n`
-- is what the planner answers to the n-th request, with the feedback that it gets; `feedback` words a
-- rejection. Logs and the records of the rejections are left out.
use jagent.Base.{ℕ, zero, suc, String, not, ◌&&◌, Option, none, some, List, [], if◌then◌else◌, Dict}
use jagent.Values.{Value, Fields}
use jagent.Steps.{StepResult}
use jagent.Plan.{DagPlan}
use jagent.Contracts.{DeliveryContract}
use jagent.Completion.{is_nil}
use jagent.Tools.{Registry}
use jagent.Revision.{RevisionError, validate_revision_invariants}
use jagent.RevisionGuard.{find_degenerate_revised_steps}
use jagent.RevisionGuard.Merge.{merge_revised_plan}

-- merge_context
pub record MergeContext : Type 0 where
  pub root_plan : DagPlan
  pub current_plan : DagPlan
  pub step_aliases : Dict String

-- The pair that the method returns, or the end of the attempts.
pub data Revised : Type 0 where
  accepted : DagPlan → Revised
  no_revision : Revised
  exhausted : (degenerate : List String) (invariant_errors : List RevisionError) → Revised

module _ (dumps : Fields → String) (repr : Value → String) (contracts : List DeliveryContract)
    (registry : Option Registry) (plan : DagPlan) (results : Dict StepResult)
    (context : Option MergeContext) where
  -- The invariants on a copy of the merge.
  unfoldable pub invariant_errors_of : DagPlan → List String → List RevisionError
  unfolding merge_revised_plan validate_revision_invariants is_nil
  invariant_errors_of revised degenerate = elim context [
    | none ↦ []
    | some c ↦
        if not (is_nil revised.steps) && is_nil degenerate
        then validate_revision_invariants repr contracts
            (merge_revised_plan dumps c.root_plan c.current_plan revised results
              c.step_aliases).plan
            registry
        else []
  ]

  module _ {ℓ} {F : Type ℓ} (revise : ℕ → F → Option DagPlan)
      (feedback : F → List String → List RevisionError → F) where
    -- The loop, with the number of the attempt and what the attempt before found.
    unfoldable pub revise_from : ℕ → ℕ → F → List String → List RevisionError → Revised
    unfolding find_degenerate_revised_steps invariant_errors_of is_nil
    revise_from zero attempt fb degenerate errors = exhausted degenerate errors
    revise_from (suc left) attempt fb degenerate errors = elim (revise attempt fb) [
      | none ↦ no_revision
      | some revised ↦
          let bad = find_degenerate_revised_steps dumps plan results revised in
          let broken = invariant_errors_of revised bad in
          let again = revise_from left (suc attempt) (feedback fb bad broken) bad broken in
          if is_nil bad && is_nil broken then accepted revised else again
    ]

    -- for attempt in range(self.config.max_revise_retries + 1)
    unfoldable pub revise_with_degenerate_guard : ℕ → F → Revised
    unfolding revise_from
    revise_with_degenerate_guard max_revise_retries fb =
        revise_from (suc max_revise_retries) 0 fb [] []
