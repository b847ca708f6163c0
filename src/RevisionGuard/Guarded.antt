-- ===== src/RevisionGuard/Guarded.antt =====
-- What a revision that the guard accepted is worth.
use jagent.Base.{
  ℕ, zero, suc, ◌≢◌, String, true, false, ◌&&◌, &&-left, &&-right, Option, some, List, [], ◌∷◌,
  Dict, ◌≡◌, refl, sym, ◌∙◌, arith, Bool-cases, Option-cases, inl, inr,
}
use mathlib.Core.Path.{subst}
use jagent.Values.{Value, Fields}
use jagent.Steps.{StepResult}
use jagent.Plan.{DagPlan}
use jagent.Contracts.{DeliveryContract}
use jagent.Completion.{is_nil, compute, met}
use jagent.Tools.{Registry}
use jagent.Revision.{RevisionError, validate_revision_invariants}
use jagent.Revision.Invariants.{accepted_revision_delivers}
use jagent.RevisionGuard.{find_degenerate_revised_steps}
use jagent.RevisionGuard.Merge.{merge_revised_plan}
use jagent.RevisionGuard.Attempts.{
  MergeContext, accepted, invariant_errors_of, revise_from, revise_with_degenerate_guard,
}

is_nil-eq {ℓ} : {A : Type ℓ} (xs : List A) → is_nil xs ≡ true → xs ≡ []
unfolding is_nil
is_nil-eq [] h = refl
is_nil-eq (x ∷ xs) h = cc

module _ {ℓ} {F : Type ℓ} (dumps : Fields → String) (repr : Value → String)
    (contracts : List DeliveryContract) (registry : Option Registry) (plan : DagPlan)
    (results : Dict StepResult) (revise : ℕ → F → Option DagPlan)
    (feedback : F → List String → List RevisionError → F) where
  revise_from-accepted :
      (context : Option MergeContext) (left attempt : ℕ) (fb : F) (degenerate : List String)
      (errors : List RevisionError) (revised : DagPlan)
      → revise_from dumps repr contracts registry plan results context revise feedback left attempt
          fb degenerate errors
        ≡ accepted revised
      → (find_degenerate_revised_steps dumps plan results revised ≡ [])
        × (invariant_errors_of dumps repr contracts registry plan results context revised
              (find_degenerate_revised_steps dumps plan results revised)
            ≡ [])
  unfolding revise_from
  revise_from-accepted context zero attempt fb degenerate errors revised h = cc
  revise_from-accepted context (suc left) attempt fb degenerate errors revised h =
      elim (Option-cases (revise attempt fb)) [
        | inl refused ↦ absurd (ground arith)
        | inr (r, answer) ↦
            let bad = find_degenerate_revised_steps dumps plan results r in
            let broken =
              invariant_errors_of dumps repr contracts registry plan results context r bad in
            elim (Bool-cases (is_nil bad && is_nil broken)) [
              | inl good ↦
                  let same : r ≡ revised = ground arith in
                  subst
                    (λ x.
                      (find_degenerate_revised_steps dumps plan results x ≡ [])
                      × (invariant_errors_of dumps repr contracts registry plan results context x
                            (find_degenerate_revised_steps dumps plan results x)
                          ≡ []))
                    same
                    (
                      is_nil-eq bad (&&-left (is_nil bad) (is_nil broken) good),
                      is_nil-eq broken (&&-right (is_nil bad) (is_nil broken) good),
                    )
              | inr rejected ↦
                  revise_from-accepted context left (suc attempt) (feedback fb bad broken) bad
                    broken revised (ground arith)
            ]
      ]

  invariant_errors-nil :
      (c : MergeContext) (revised : DagPlan)
      → is_nil revised.steps ≡ false
      → invariant_errors_of dumps repr contracts registry plan results (some c) revised [] ≡ []
      → validate_revision_invariants repr contracts
          (merge_revised_plan dumps c.root_plan c.current_plan revised results c.step_aliases).plan
          registry
        ≡ []
  unfolding invariant_errors_of
  invariant_errors-nil c revised steps h =
      let opened : invariant_errors_of dumps repr contracts registry plan results (some c) revised
            []
          ≡ validate_revision_invariants repr contracts
              (merge_revised_plan dumps c.root_plan c.current_plan revised results
                c.step_aliases).plan
              registry =
        rw (steps, invariant_errors_of) refl in
      sym opened ∙ h

  -- If the guard accepts a revision with steps, in a run with contracts and with the plans to merge
  -- it with, then the revision has no degenerate step, and the merged plan delivers when it completes:
  -- whatever its results and aliases are by then, if the completion gate finds it mechanically
  -- complete, then it finds every contract delivered. The planner may answer anything.
  pub guarded_revision_delivers :
      (c : MergeContext) (max_revise_retries : ℕ) (fb : F) (revised : DagPlan)
      (later : Dict StepResult) (step_aliases : Dict String)
      → contracts ≢ []
      → is_nil revised.steps ≡ false
      → revise_with_degenerate_guard dumps repr contracts registry plan results
          (some c)
          revise
          feedback
          max_revise_retries
          fb
        ≡ accepted revised
      → (compute repr
          (merge_revised_plan dumps c.root_plan c.current_plan revised results c.step_aliases).plan
          later
          step_aliases
          contracts).mechanical_complete
        ≡ true
      → (find_degenerate_revised_steps dumps plan results revised ≡ [])
        × ((compute repr
              (merge_revised_plan dumps c.root_plan c.current_plan revised results
                c.step_aliases).plan
              later
              step_aliases
              contracts).deliverable_status
            ≡ met)
  unfolding revise_with_degenerate_guard
  guarded_revision_delivers c max_revise_retries fb revised later step_aliases some_contract steps h
        complete =
      let (fine, kept) =
        revise_from-accepted (some c) (suc max_revise_retries) 0 fb [] [] revised h in
      let merged =
        (merge_revised_plan dumps c.root_plan c.current_plan revised results c.step_aliases).plan in
      let errors : invariant_errors_of dumps repr contracts registry plan results (some c) revised
            []
          ≡ [] =
        subst
          (λ ds.
            invariant_errors_of dumps repr contracts registry plan results (some c) revised ds ≡ [])
          fine kept in
      (
        fine,
        accepted_revision_delivers repr contracts merged registry later step_aliases some_contract
            (invariant_errors-nil c revised steps errors) complete,
      )
