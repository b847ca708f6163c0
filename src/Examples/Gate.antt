-- ===== src/Examples/Gate.antt =====
-- The completion gate on a run that fetched and saved.
use jagent.Base.{true, [], ◌∷◌, ◌≡◌, ◌≢◌, ◌↔◌, refl, In, Dict, lookup, lookup_or}
use jagent.Values.{get, get_or_null, eq}
use jagent.Steps.{StepResult, step_normal}
use jagent.Plan.{step_satisfies, paths_equivalent}
use jagent.Contracts.{DeliveryContract, extracted}
use jagent.Completion.{compute, met}
use jagent.Completion.Verdicts.{
  IsComplete, IsDelivered, mechanical_complete_iff, deliverable_met_iff,
}
use jagent.Examples.Plans.{fetch_and_save, write_input, done, no_repr}

abbrev pub results : Dict StepResult
results = ("s1", done "s1") ∷ ("s2", done "s2") ∷ []

abbrev pub saved : DeliveryContract
saved = record { contract_id = "c1"; source = extracted; tool = "file_op"; input = write_input }

mechanical_complete_iff_example :
    ((compute no_repr fetch_and_save results [] (saved ∷ [])).mechanical_complete ≡ true)
    ↔ IsComplete no_repr results [] fetch_and_save
mechanical_complete_iff_example =
    mechanical_complete_iff no_repr fetch_and_save results [] (saved ∷ [])

deliverable_met_iff_example :
    ((compute no_repr fetch_and_save results [] (saved ∷ [])).deliverable_status ≡ met)
    ↔ ((saved ∷ []) ≢ [])
      × ((c : DeliveryContract)
          → In c (saved ∷ [])
          → IsDelivered no_repr results [] fetch_and_save c.tool c.input)
deliverable_met_iff_example = deliverable_met_iff no_repr fetch_and_save results [] (saved ∷ [])

-- Both dimensions of the gate on this run.
gate :
    ((compute no_repr fetch_and_save results [] (saved ∷ [])).mechanical_complete ≡ true)
    × ((compute no_repr fetch_and_save results [] (saved ∷ [])).deliverable_status ≡ met)
unfolding compute lookup lookup_or step_normal step_satisfies get get_or_null eq paths_equivalent
gate = (refl, refl)
