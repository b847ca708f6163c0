-- ===== src/RevisionGuard.antt =====
-- harness/core/scheduler/revision_guard.py: revisions that repeat a failed action, and the merge of a
-- revision with the steps of the first plan that are not done. `dumps` prints an input for a
-- signature. The worklist of the closure is on fuel, and its stack has the top at its head.
pub mod Bound
pub mod Apart
pub mod Aliases
pub mod Restore
pub mod Merge
pub mod Kept
pub mod Attempts
pub mod Guarded
pub mod Closure
pub mod Degenerate
use jagent.Base.{
  ℕ, zero, suc, ◌+◌, String, Bool, true, false, not, ◌&&◌, ◌||◌, Option, none, some, List, [], ◌∷◌,
  ◌++◌, ◌==◌, elem, any, all, filter, map, if◌then◌else◌, length, Dict, lookup, has_key, insert,
}
use jagent.Values.{Fields}
use jagent.Steps.{StepResult, is_failed, is_unsuccessful}
use jagent.Plan.{DagStep, DagPlan}
use jagent.Plan.Toposort.{step_map}

abbrev pub Signature : Type 0
Signature = String × String

unfoldable pub sig_eq : Signature → Signature → Bool
sig_eq (tool, input) (tool', input') = tool == tool' && input == input'

unfoldable pub sig_in : Signature → List Signature → Bool
unfolding sig_eq
sig_in g gs = any (λ k. sig_eq g k) gs

-- FAILED, or UNSUCCESSFUL without being a probe
unfoldable pub went_wrong : Option StepResult → Bool
unfolding is_failed is_unsuccessful
went_wrong none = false
went_wrong (some r) = is_failed r || (is_unsuccessful r && not r.probe)

-- stack.extend(deps)
unfoldable pub push_all : List String → List String → List String
push_all [] stack = stack
push_all (d ∷ deps) stack = push_all deps (d ∷ stack)

module _ (steps : Dict DagStep) where
  -- (d for d in step.depends_on if d in revised_map), [] for an unknown step
  unfoldable pub next_steps : String → List String
  unfolding lookup has_key
  next_steps sid = elim (lookup sid steps) [
    | none ↦ []
    | some s ↦ filter (λ d. has_key d steps) s.depends_on
  ]

  -- The loop of `_closure`; none when the fuel runs out.
  unfoldable pub explore : ℕ → List String → List String → Option (List String)
  unfolding next_steps push_all elem
  explore fuel [] seen = some seen
  explore zero (cur ∷ stack) seen = none
  explore (suc fuel) (cur ∷ stack) seen =
      let again = explore fuel stack seen in
      let on = explore fuel (push_all (next_steps cur) stack) (cur ∷ seen) in
      if elem cur seen then again else on

-- One pop for the start and one for each dependency of each step.
unfoldable pub fuel_for : Dict DagStep → ℕ
fuel_for [] = 1
fuel_for ((sid, s) ∷ m) = length s.depends_on + fuel_for m

unfoldable pub closure : Dict DagStep → String → Option (List String)
unfolding explore fuel_for
closure steps sid = explore steps (fuel_for steps) (sid ∷ []) []

module _ (dumps : Fields → String) where
  unfoldable pub step_signature : DagStep → Signature
  step_signature s = (s.tool, dumps s.input)

  -- {step_signature(revised_map[cid]) for cid in cl}
  unfoldable pub signatures_of : Dict DagStep → List String → List Signature
  unfolding lookup
  signatures_of steps [] = []
  signatures_of steps (cid ∷ cids) =
      let rest = signatures_of steps cids in
      elim (lookup cid steps) [ none ↦ rest | some s ↦ step_signature s ∷ rest ]

  unfoldable pub failed_signatures : List DagStep → Dict StepResult → List Signature
  unfolding went_wrong lookup
  failed_signatures [] results = []
  failed_signatures (s ∷ ss) results =
      let rest = failed_signatures ss results in
      if went_wrong (lookup s.id results) then step_signature s ∷ rest else rest

  -- The test of one revised step.
  unfoldable pub is_degenerate : DagPlan → Dict StepResult → Dict DagStep → DagStep → Bool
  unfolding failed_signatures sig_in closure signatures_of
  is_degenerate plan results steps rs =
      sig_in (step_signature rs) (failed_signatures plan.steps results)
      && elim (closure steps rs.id) [
        | none ↦ false
        | some cl ↦ all (λ g. sig_in g (map step_signature plan.steps)) (signatures_of steps cl)
      ]

  -- find_degenerate_revised_steps; without a failed signature no step is degenerate.
  unfoldable pub find_degenerate_revised_steps : DagPlan → Dict StepResult → DagPlan → List String
  unfolding is_degenerate step_map
  find_degenerate_revised_steps plan results revised =
      map (λ s. s.id) (filter (is_degenerate plan results (step_map revised.steps)) revised.steps)
