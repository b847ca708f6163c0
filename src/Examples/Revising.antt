-- ===== src/Examples/Revising.antt =====
-- A revision that keeps what the user asked for.
use jagent.Base.{true, some, [], ◌∷◌, ◌≡◌, ◌≢◌, ◌↔◌, refl, In, lookup, lookup_or}
use jagent.Values.{get, get_or_null, eq}
use jagent.Steps.{step_normal}
use jagent.Plan.{DagStep, step_satisfies, paths_equivalent}
use jagent.Contracts.{DeliveryContract}
use jagent.Completion.{compute, met}
use jagent.Tools.{SideEffect, Registry, get_tool_def, effective_side_effects}
use jagent.Revision.{validate_revision_invariants, step_is_mutating, removed}
use jagent.Revision.Invariants.{
  IsKept, IsCovered, validate_revision_invariants-nil_iff, accepted_revision_delivers,
}
use jagent.Examples.Plans.{fetch, fetch_and_save, plan_of, write_input, no_repr}
use jagent.Examples.Gate.{results, saved}
use jagent.Examples.Running.{http}

abbrev pub registry : Registry
registry =
    ("http_request", http)
    ∷ ("file_op", record http { name = "file_op"; side_effects = SideEffect.write ∷ [] })
    ∷ []

pub some_contract : (saved ∷ []) ≢ []
some_contract e = cc

validate_revision_invariants-nil_iff_example :
    (validate_revision_invariants no_repr (saved ∷ []) fetch_and_save (some registry) ≡ [])
    ↔ ((c : DeliveryContract) → In c (saved ∷ []) → IsKept no_repr fetch_and_save.steps c)
      × ((s : DagStep)
          → In s fetch_and_save.steps
          → step_is_mutating s registry ≡ true
          → IsCovered no_repr fetch_and_save.steps (saved ∷ []) s)
validate_revision_invariants-nil_iff_example =
    validate_revision_invariants-nil_iff no_repr (saved ∷ []) fetch_and_save registry some_contract

accepted_revision_delivers_example :
    (compute no_repr fetch_and_save results [] (saved ∷ [])).deliverable_status ≡ met
unfolding compute lookup lookup_or step_normal step_satisfies get get_or_null eq paths_equivalent
    validate_revision_invariants get_tool_def effective_side_effects
accepted_revision_delivers_example =
    accepted_revision_delivers no_repr (saved ∷ []) fetch_and_save (some registry) results []
      some_contract refl refl

-- Without the save the revision is rejected.
rejected_lem :
    validate_revision_invariants no_repr (saved ∷ []) (plan_of (fetch ∷ [])) (some registry)
    ≡ removed "c1" "file_op" write_input ∷ []
unfolding validate_revision_invariants step_satisfies get_tool_def effective_side_effects lookup
rejected_lem = refl
