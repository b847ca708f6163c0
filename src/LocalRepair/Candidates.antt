-- ===== src/LocalRepair/Candidates.antt =====
-- The first part of harness/core/scheduler/local_repair.py: the tools that only read, and the failed
-- steps that a repair may change.
use jagent.Base.{
  ℕ, String, Bool, true, false, not, ◌&&◌, ◌||◌, none, some, List, [], ◌∷◌, map, any, all, filter,
  elem, nat_eq, ltb, ◌==◌, if◌then◌else◌, Dict, lookup, insert,
}
use jagent.Values.{Value, Fields}
use jagent.Steps.{ExecState, StepResult, step_normal}
use jagent.Plan.{DagStep, DagPlan, codes, step_satisfies}
use jagent.Contracts.{DeliveryContract}
use jagent.Tools.{SideEffect, ToolDefinition}
use jagent.Recovery.{classify_failure_tier}

-- Python's order of texts, by code points.
unfoldable pub codes_leb : List ℕ → List ℕ → Bool
codes_leb [] ds = true
codes_leb (c ∷ cs) [] = false
codes_leb (c ∷ cs) (d ∷ ds) = ltb c d || (nat_eq c d && codes_leb cs ds)

module _ {A : Type 0} (key : A → String) where
  unfoldable pub put_in_order : A → List A → List A
  unfolding codes codes_leb
  put_in_order x [] = x ∷ []
  put_in_order x (y ∷ ys) =
      let rest = put_in_order x ys in
      if codes_leb (codes (key x)) (codes (key y)) then x ∷ y ∷ ys else y ∷ rest

  -- sorted by a key: of items with the same key, the earlier stays first.
  unfoldable pub sort_by : List A → List A
  unfolding put_in_order
  sort_by [] = []
  sort_by (x ∷ xs) = put_in_order x (sort_by xs)

no_effects : List SideEffect → Bool
no_effects [] = true
no_effects (e ∷ es) = false

unfoldable pub is_fully_read_only : ToolDefinition → Bool
unfolding no_effects
is_fully_read_only td =
    no_effects td.side_effects && all (λ op. no_effects op.side_effects) td.operations

unfoldable pub read_only_from : Dict Bool → List ToolDefinition → Dict Bool
unfolding is_fully_read_only insert
read_only_from ro [] = ro
read_only_from ro (td ∷ tds) =
    read_only_from (if is_fully_read_only td then insert td.name true ro else ro) tds

unfoldable pub read_only_tool_map : List ToolDefinition → Dict Bool
unfolding read_only_from
read_only_tool_map = read_only_from []

unfoldable pub may_be_repaired : ExecState → Bool
may_be_repaired ExecState.failed = true
may_be_repaired ExecState.unsuccessful = true
may_be_repaired _ = false

module _ (repr : Value → String) (dumps : Fields → String) (transient_search : String → Bool) where
  -- A set: only membership is read.
  unfoldable pub bound_step_ids : List DagStep → List DeliveryContract → List String
  unfolding step_satisfies
  bound_step_ids steps contracts =
      map (λ s. s.id)
        (filter (λ s. any (λ c. step_satisfies repr s c.tool c.input) contracts) steps)

  -- One turn of the loop over the steps.
  unfoldable pub is_candidate : Dict StepResult → List String → DagStep → Bool
  unfolding elem lookup step_normal may_be_repaired classify_failure_tier
  is_candidate results bound s = if elem s.id bound then false else elim (lookup s.id results) [
    | none ↦ false
    | some r ↦
        not (step_normal r)
        && may_be_repaired r.exec_state
        && classify_failure_tier dumps transient_search r.error r.retryable == "step_repair"
  ]

  unfoldable pub local_repair_candidates :
      DagPlan → Dict StepResult → List DeliveryContract → List DagStep
  unfolding sort_by is_candidate bound_step_ids
  local_repair_candidates plan results contracts =
      sort_by (λ s. s.id)
        (filter (is_candidate results (bound_step_ids plan.steps contracts)) plan.steps)
