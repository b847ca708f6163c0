-- ===== src/RevisionGuard/Degenerate.antt =====
-- What the guard rejects: steps that repeat a failed action and reach no new one.
use jagent.Base.{
  String, Bool, true, false, ◌&&◌, some, List, [], ◌∷◌, ◌==◌, ◌∙◌, &&-left, &&-right, all, elem,
  filter, map, Dict, lookup, ◌≡◌, ◌≢◌, ◌↔◌, refl, sym, arith, eq_iff, In, here, there, Bool-cases,
  Option-cases, inl, inr,
}
use jagent.Values.{Fields}
use jagent.Steps.{StepResult}
use jagent.Plan.{DagStep, DagPlan}
use jagent.Plan.Toposort.{step_map}
use jagent.RevisionGuard.{
  Signature, sig_in, step_signature, signatures_of, failed_signatures, is_degenerate,
  find_degenerate_revised_steps,
}
use jagent.RevisionGuard.Closure.{Reaches, closure-Reaches}

module _ (dumps : Fields → String) where
  signatures_of-all :
      (steps : Dict DagStep) (cl : List String) (gs : List Signature)
      → (all (λ g. sig_in g gs) (signatures_of dumps steps cl) ≡ true) ↔ (
          (x : String) (s : DagStep)
          → elem x cl ≡ true
          → lookup x steps ≡ some s
          → sig_in (step_signature dumps s) gs ≡ true)
  unfolding signatures_of elem
  signatures_of-all steps [] gs = (λ h x s e l. cc, λ h. refl)
  signatures_of-all steps (c ∷ cl) gs =
      let (forth, back) = signatures_of-all steps cl gs in
      elim (Option-cases (lookup c steps)) [
        | inl unknown ↦ (
          λ h x s e l. elim (Bool-cases (x == c)) [
            | inl same ↦ ground (arith, eq_iff x c)
            | inr other ↦ forth (ground arith) x s (ground arith) l
          ],
          λ h. ground (arith, back (λ x s e l. h x s (ground arith) l)),
        )
        | inr (t, known) ↦ (
          λ h x s e l. elim (Bool-cases (x == c)) [
            | inl same ↦ ground (arith, eq_iff x c)
            | inr other ↦ forth (ground arith) x s (ground arith) l
          ],
          λ h. ground (
            arith,
            h c t (ground (arith, eq_iff c c)) known,
            back (λ x s e l. h x s (ground arith) l),
          ),
        )
      ]

  -- A revised step that cannot help: it does again what a step of the plan did that went wrong, and
  -- every step that it reaches in the revision does what some step of the plan does already.
  pub record IsHopeless (plan : DagPlan) (results : Dict StepResult) (steps : Dict DagStep)
      (rs : DagStep) : Type 0 where
    pub repeats :
        sig_in (step_signature dumps rs) (failed_signatures dumps plan.steps results) ≡ true
    pub nothing_new :
        (x : String) (s : DagStep)
        → Reaches steps rs.id x
        → lookup x steps ≡ some s
        → sig_in (step_signature dumps s) (map (step_signature dumps) plan.steps) ≡ true

  is_degenerate_iff :
      (plan : DagPlan) (results : Dict StepResult) (steps : Dict DagStep) (rs : DagStep)
      → (is_degenerate dumps plan results steps rs ≡ true) ↔ IsHopeless plan results steps rs
  unfolding is_degenerate
  is_degenerate_iff plan results steps rs =
      let (cl, e, reached) = closure-Reaches steps rs.id in
      let seen = map (step_signature dumps) plan.steps in
      let (forth, back) = signatures_of-all steps cl seen in
      let failed = sig_in (step_signature dumps rs) (failed_signatures dumps plan.steps results) in
      let old = all (λ g. sig_in g seen) (signatures_of dumps steps cl) in
      let same : is_degenerate dumps plan results steps rs ≡ (failed && old) =
        rw (e, is_degenerate) refl in
      (
        λ h. record {
          repeats = &&-left failed old (sym same ∙ h);
          nothing_new =
              λ x s r l. forth (&&-right failed old (sym same ∙ h)) x s ((reached x).1 r) l;
        },
        λ h.
            let all_old : old ≡ true = back (λ x s k l. h.nothing_new x s ((reached x).0 k) l) in
            same ∙ ground (arith, h.repeats, all_old),
      )

  map-filter_nil :
      (p : DagStep → Bool) (ss : List DagStep)
      → (map (λ s. s.id) (filter p ss) ≡ []) ↔ ((s : DagStep) → In s ss → p s ≢ true)
  map-filter_nil p [] = (λ h s i. elim i [ ], λ h. refl)
  map-filter_nil p (t ∷ ss) =
      let (forth, back) = map-filter_nil p ss in
      elim (Bool-cases (p t)) [
        | inl yes_p ↦ (λ h s i. absurd (ground arith), λ h. absurd (h t here yes_p))
        | inr no_p ↦ (
          λ h s i. later p t ss s no_p (forth (ground arith)) i,
          λ h. ground (arith, back (λ s i. h s (there i))),
        )
      ]
    where
      later :
          (p : DagStep → Bool) (t : DagStep) (ss : List DagStep) (s : DagStep)
          → p t ≡ false
          → ((u : DagStep) → In u ss → p u ≢ true)
          → In s (t ∷ ss)
          → p s ≢ true
      later p t ss s n rest here e = ground arith
      later p t ss s n rest (there i) e = rest s i e

  -- The guard finds no degenerate step in a revision exactly if no step of it is hopeless: none repeats
  -- an action of the plan that failed, or was unsuccessful and no probe, while all steps that it
  -- reaches along the dependencies of the revision repeat actions of the plan.
  pub find_degenerate_revised_steps-nil_iff :
      (plan : DagPlan) (results : Dict StepResult) (revised : DagPlan)
      → (find_degenerate_revised_steps dumps plan results revised ≡ []) ↔ (
          (rs : DagStep)
          → In rs revised.steps
          → ¬ IsHopeless plan results (step_map revised.steps) rs)
  unfolding find_degenerate_revised_steps
  find_degenerate_revised_steps-nil_iff plan results revised =
      let steps = step_map revised.steps in
      let (forth, back) = map-filter_nil (is_degenerate dumps plan results steps) revised.steps in
      (
        λ h rs i hopeless. forth h rs i ((is_degenerate_iff plan results steps rs).1 hopeless),
        λ h. back (λ rs i d. h rs i ((is_degenerate_iff plan results steps rs).0 d)),
      )
