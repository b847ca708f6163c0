-- ===== src/Examples/Guarding.antt =====
-- A plan that is checked before it runs, and revisions of it after the fetch failed.
use jagent.Base.{
  ◌≢◌, eq_iff, ℕ, String, true, nat_eq, if◌then◌else◌, Option, some, List, [], ◌∷◌, elem, keys,
  insert, Dict, lookup, lookup_or, ok, ◌≡◌, ◌↔◌, ◌⊎◌, refl, In,
}
use mathlib.Core.Bool.{false≢true}
use jagent.Values.{Fields, field, end, str, get, get_or_null, eq}
use jagent.Steps.{ExecState, StepResult, new_result, step_normal}
use jagent.Plan.{DagStep, DagPlan, step_satisfies, paths_equivalent}
use jagent.Plan.Toposort.{step_map, topological_sort}
use jagent.Plan.Structure.{cycle, ids_and_deps, validate_dag_structure}
use jagent.Plan.Structure.Accepted.{validate_dag_structure-sorts}
use jagent.Plan.Structure.Verdict.{validate_dag_structure-verdict}
use jagent.Completion.{compute, met}
use jagent.Tools.{get_tool_def, effective_side_effects}
use jagent.Revision.{validate_revision_invariants}
use jagent.RevisionGuard.{find_degenerate_revised_steps, step_signature}
use jagent.RevisionGuard.Degenerate.{IsHopeless, find_degenerate_revised_steps-nil_iff}
use jagent.RevisionGuard.Merge.{merged_aliases, merged_steps, merge_revised_plan}
use jagent.RevisionGuard.Apart.{IsNew, merge_revised_plan-one_to_one}
use jagent.RevisionGuard.Kept.{IsKept, merge_revised_plan-keeps}
use jagent.RevisionGuard.Attempts.{MergeContext, revise_with_degenerate_guard}
use jagent.RevisionGuard.Guarded.{guarded_revision_delivers}
use jagent.Examples.Plans.{
  fetch, save, fetch_and_save, circular, write_input, plan_of, plain_step, done, no_repr,
}
use jagent.Examples.Gate.{saved}
use jagent.Examples.Revising.{registry, some_contract}

validate_dag_structure-sorts_example :
    (layers : List (List String)) × (topological_sort fetch_and_save [] [] ≡ ok layers)
unfolding validate_dag_structure
validate_dag_structure-sorts_example = validate_dag_structure-sorts fetch_and_save [] [] refl

validate_dag_structure-verdict_example :
    (validate_dag_structure circular [] [] ≡ [])
    ⊎ ((path : List String) × (validate_dag_structure circular [] [] ≡ cycle path ∷ []))
unfolding ids_and_deps
validate_dag_structure-verdict_example = validate_dag_structure-verdict circular [] [] refl

-- The cycle is reported with its path.
circular_lem : validate_dag_structure circular [] [] ≡ cycle ("s1" ∷ "s2" ∷ "s1" ∷ []) ∷ []
unfolding validate_dag_structure
circular_lem = refl

abbrev dumps : Fields → String
dumps end = "{}"
dumps (field k v fs) = k

-- The fetch failed, and the save was skipped.
abbrev failed : Dict StepResult
failed = ("s1", new_result "s1" ExecState.failed) ∷ ("s2", new_result "s2" ExecState.skipped) ∷ []

abbrev mirror : DagStep
mirror = plain_step "r1" "http_request" (field "mirror" (str "eu") end) []

abbrev revision : DagPlan
revision = plan_of (mirror ∷ [])

find_degenerate_revised_steps-nil_iff_example :
    (find_degenerate_revised_steps dumps fetch_and_save failed revision ≡ []) ↔ (
      (rs : DagStep)
      → In rs (mirror ∷ [])
      → ¬ IsHopeless dumps fetch_and_save failed (step_map (mirror ∷ [])) rs)
find_degenerate_revised_steps-nil_iff_example =
    find_degenerate_revised_steps-nil_iff dumps fetch_and_save failed revision

-- The same fetch again is rejected.
again_lem :
    find_degenerate_revised_steps dumps fetch_and_save failed (plan_of (fetch ∷ [])) ≡ "s1" ∷ []
unfolding find_degenerate_revised_steps step_signature insert
again_lem = refl

merge_revised_plan-keeps_example :
    ((oid : String) (s : DagStep)
      → lookup oid (step_map fetch_and_save.steps) ≡ some s
      → IsKept dumps fetch_and_save revision failed []
          (merge_revised_plan dumps fetch_and_save fetch_and_save revision failed [])
          oid
          s)
    × ((sid : String) (r : StepResult)
        → elem sid (
            keys (
              merged_steps dumps fetch_and_save revision failed
                (merged_aliases dumps fetch_and_save fetch_and_save revision failed [])))
          ≡ true
        → lookup sid
            (merge_revised_plan dumps fetch_and_save fetch_and_save revision failed []).results
          ≡ some r
        → (step_normal r ≡ true) × (lookup sid failed ≡ some r))
merge_revised_plan-keeps_example =
    merge_revised_plan-keeps dumps fetch_and_save fetch_and_save revision failed []

-- The mirror takes the place of the fetch, and the save waits for it.
merged_lem : merge_revised_plan dumps fetch_and_save fetch_and_save revision failed [] ≡ record {
  plan = plan_of (mirror ∷ record save { depends_on = "r1" ∷ [] } ∷ []);
  aliases = ("s1", "r1") ∷ [];
  results = [];
}
unfolding merge_revised_plan
merged_lem = refl

abbrev other_mirror : String → String → DagStep
other_mirror sid region = plain_step sid "http_request" (field "mirror" (str region) end) []

-- The mirror failed as well, and the revision has two fetches: the fetch keeps the failed mirror as its
-- alias, the plan has neither of them, and the save waits for a step that the plan does not have.
bound_to_failed_lem :
    (merge_revised_plan dumps fetch_and_save revision
      (plan_of (other_mirror "x1" "us" ∷ other_mirror "x2" "asia" ∷ []))
      (("r1", new_result "r1" ExecState.failed) ∷ [])
      (("s1", "r1") ∷ ("s2", "s2") ∷ [])).plan
    ≡ plan_of (
        other_mirror "x1" "us"
        ∷ other_mirror "x2" "asia"
        ∷ record save { depends_on = "r1" ∷ [] }
        ∷ [])
unfolding merge_revised_plan
bound_to_failed_lem = refl

-- A fetch and a write failed, and the revision has each again under a new id.
abbrev two_steps : DagPlan
two_steps = plan_of (fetch ∷ plain_step "s2" "file_op" write_input [] ∷ [])

abbrev two_again : DagPlan
two_again =
    plan_of (plain_step "r2" "file_op" write_input [] ∷ plain_step "r1" "http_request" end [] ∷ [])

abbrev both_failed : Dict StepResult
both_failed =
    ("s1", new_result "s1" ExecState.failed) ∷ ("s2", new_result "s2" ExecState.failed) ∷ []

abbrev two_aliases : Dict String
two_aliases = (merge_revised_plan dumps two_steps two_steps two_again both_failed []).aliases

fetch_bound : IsNew [] two_aliases "s1" "r1"
unfolding merge_revised_plan lookup
fetch_bound = record { bound = refl; changed = λ e. cc }

write_bound : IsNew [] two_aliases "s2" "r2"
unfolding merge_revised_plan lookup
write_bound = record { bound = refl; changed = λ e. cc }

merge_revised_plan-one_to_one_example : ◌≢◌ {A = String} "r1" "r2"
merge_revised_plan-one_to_one_example =
    merge_revised_plan-one_to_one dumps two_steps two_steps two_again both_failed [] "s1" "s2" "r1"
      "r2" (λ e. false≢true ((eq_iff "s1" "s2").1 e)) fetch_bound write_bound

abbrev context : MergeContext
context = record { root_plan = fetch_and_save; current_plan = fetch_and_save; step_aliases = [] }

-- The first answer repeats the fetch, the second has the mirror.
abbrev answers : ℕ → String → Option DagPlan
answers n fb = some (if nat_eq n 0 then plan_of (fetch ∷ []) else revision)

abbrev at_the_end : Dict StepResult
at_the_end = ("r1", done "r1") ∷ ("s2", done "s2") ∷ []

guarded_revision_delivers_example :
    (find_degenerate_revised_steps dumps fetch_and_save failed revision ≡ [])
    × ((compute no_repr
          (merge_revised_plan dumps fetch_and_save fetch_and_save revision failed []).plan
          at_the_end
          (("s1", "r1") ∷ [])
          (saved ∷ [])).deliverable_status
        ≡ met)
unfolding revise_with_degenerate_guard compute lookup lookup_or step_normal step_satisfies get
    get_or_null eq paths_equivalent validate_revision_invariants get_tool_def effective_side_effects
    merge_revised_plan
guarded_revision_delivers_example =
    guarded_revision_delivers dumps no_repr (saved ∷ []) (some registry) fetch_and_save failed
      answers (λ fb bad broken. fb) context 2 "" revision at_the_end (("s1", "r1") ∷ [])
      some_contract refl refl refl
