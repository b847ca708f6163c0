-- ===== src/Completion/Verdicts.antt =====
-- Properties of the completion gate.
use jagent.Base.{
  ℕ, suc, String, Bool, true, not, ◌&&◌, List, [], ◌∷◌, ◌++◌, map, any, all, filter, Dict, In, here,
  there, any→In, In→any, all→In, In→all, ◌≡◌, ◌≢◌, ◌↔◌, arith, refl, Bool-cases, inl, inr, ◌⊎◌,
  some, lookup, lookup_or, Option-cases,
}
use jagent.Values.{Value, Fields}
use jagent.Steps.{ExecState, StepResult, step_normal, exec_state_is_normal}
use jagent.Plan.{DagStep, DagPlan, RequiredOperation, step_satisfies}
use jagent.Contracts.{DeliveryContract}
use jagent.Completion.{
  met, unverified, is_nil, is_met, is_normal, delivers, unmet_steps, unmet_operations, verdict_of,
  verify_deliverables, status_of, compute,
}

-- Completed, cached, or unsuccessful as a probe.
abbrev pub EndedNormally : StepResult → Type 0
EndedNormally r =
    (r.exec_state ≡ ExecState.completed)
    ⊎ ((r.exec_state ≡ ExecState.idempotent)
        ⊎ ((r.exec_state ≡ ExecState.unsuccessful) × (r.probe ≡ true)))

pub step_normal_iff : (r : StepResult) → (step_normal r ≡ true) ↔ EndedNormally r
unfolding step_normal exec_state_is_normal
step_normal_iff r = go r.exec_state refl
  where
    go : (state : ExecState) → r.exec_state ≡ state → (step_normal r ≡ true) ↔ EndedNormally r
    go ExecState.completed e = (λ h. inl e, λ h. rw (e, step_normal) refl)
    go ExecState.idempotent e = (λ h. inr (inl e), λ h. rw (e, step_normal) refl)
    go ExecState.unsuccessful e = (λ h. inr (inr (e, ground arith)), λ h. ground arith)
    go ExecState.pending e = (λ h. ground arith, λ h. ground arith)
    go ExecState.running e = (λ h. ground arith, λ h. ground arith)
    go ExecState.failed e = (λ h. ground arith, λ h. ground arith)
    go ExecState.skipped e = (λ h. ground arith, λ h. ground arith)
    go ExecState.cancelled e = (λ h. ground arith, λ h. ground arith)

module _ (repr : Value → String) (results : Dict StepResult) (step_aliases : Dict String) where
  -- The step has a result under its alias, or under its own id, that ended normally.
  abbrev pub HasNormal : String → Type 0
  HasNormal sid =
      (r : StepResult) × (lookup (lookup_or sid sid step_aliases) results ≡ some r)
      × EndedNormally r

  is_normal_iff : (sid : String) → (is_normal repr results step_aliases sid ≡ true) ↔ HasNormal sid
  unfolding is_normal
  is_normal_iff sid = elim (Option-cases (lookup (lookup_or sid sid step_aliases) results)) [
    | inl absent ↦ (λ h. ground arith, λ h. ground (arith, h.1))
    | inr (r, found) ↦ (
      λ h. (r, found, (step_normal_iff r).0 (ground arith)),
      λ (q, same, n). ground (arith, (step_normal_iff q).1 n),
    )
  ]

  -- Some step of the plan satisfies the request, and its result is normal.
  abbrev pub IsDelivered : DagPlan → String → Fields → Type 0
  IsDelivered plan tool input =
      (s : DagStep) × In s plan.steps × (step_satisfies repr s tool input ≡ true) × HasNormal s.id

  -- Every step is normal, and every declared operation is delivered.
  abbrev pub IsComplete : DagPlan → Type 0
  IsComplete plan =
      ((s : DagStep) → In s plan.steps → HasNormal s.id)
      × ((op : RequiredOperation)
          → In op plan.declared_operations
          → IsDelivered plan op.tool op.input)

  any-delivers :
      (plan : DagPlan) (tool : String) (input : Fields)
      → (any (delivers repr results step_aliases tool input) plan.steps ≡ true)
        ↔ IsDelivered plan tool input
  unfolding delivers
  any-delivers plan tool input = (
    λ h.
        let (s, i, d) = any→In (delivers repr results step_aliases tool input) plan.steps h in
        (s, i, ground arith, (is_normal_iff s.id).0 (ground arith)),
    λ (s, i, sat, n).
        In→any (delivers repr results step_aliases tool input) s i
          (ground (arith, (is_normal_iff s.id).1 n)),
  )

  is_nil-append : {A : Type 0} (xs ys : List A) → is_nil (xs ++ ys) ≡ (is_nil xs && is_nil ys)
  unfolding is_nil
  is_nil-append [] ys = refl
  is_nil-append (x ∷ xs) ys = refl

  is_nil-unmet_steps :
      (steps : List DagStep)
      → (is_nil (unmet_steps repr results step_aliases steps) ≡ true)
        ↔ ((s : DagStep) → In s steps → HasNormal s.id)
  unfolding unmet_steps is_nil
  is_nil-unmet_steps [] = (λ h s i. elim i [ ], λ h. refl)
  is_nil-unmet_steps (t ∷ steps) = elim (Bool-cases (is_normal repr results step_aliases t.id)) [
    | inl n ↦ rw n (
      λ h s i. normal_cons s t steps ((is_normal_iff t.id).0 n) ((is_nil-unmet_steps steps).0 h) i,
      λ h. (is_nil-unmet_steps steps).1 (λ s i. h s (there i)),
    )
    | inr b ↦ rw b (λ h. cc, λ h. cc (b, (is_normal_iff t.id).1 (h t here)))
  ]
    where
      normal_cons :
          (s t : DagStep) (steps : List DagStep)
          → HasNormal t.id
          → ((s : DagStep) → In s steps → HasNormal s.id)
          → In s (t ∷ steps)
          → HasNormal s.id
      normal_cons s t steps n h here = n
      normal_cons s t steps n h (there i) = h s i

  is_nil-unmet_operations :
      (plan : DagPlan) (i : ℕ) (ops : List RequiredOperation)
      → (is_nil (unmet_operations repr results step_aliases plan.steps i ops) ≡ true)
        ↔ ((op : RequiredOperation) → In op ops → IsDelivered plan op.tool op.input)
  unfolding unmet_operations is_nil
  is_nil-unmet_operations plan i [] = (λ h op j. elim j [ ], λ h. refl)
  is_nil-unmet_operations plan i (r ∷ ops) =
      let rest = is_nil-unmet_operations plan (suc i) ops in
      elim (Bool-cases (any (delivers repr results step_aliases r.tool r.input) plan.steps)) [
        | inl n ↦ rw n (
          λ h op j. delivered_cons op r ops ((any-delivers plan r.tool r.input).0 n) (rest.0 h) j,
          λ h. rest.1 (λ op j. h op (there j)),
        )
        | inr b ↦ rw b (λ h. cc, λ h. cc (b, (any-delivers plan r.tool r.input).1 (h r here)))
      ]
    where
      delivered_cons :
          (op r : RequiredOperation) (ops : List RequiredOperation)
          → IsDelivered plan r.tool r.input
          → ((op : RequiredOperation) → In op ops → IsDelivered plan op.tool op.input)
          → In op (r ∷ ops)
          → IsDelivered plan op.tool op.input
      delivered_cons op r ops n h here = n
      delivered_cons op r ops n h (there i) = h op i

  is_nil-filter :
      (p : DagStep → Bool) (steps : List DagStep)
      → is_nil (map (λ s. s.id) (filter p steps)) ≡ not (any p steps)
  unfolding is_nil
  is_nil-filter p [] = refl
  is_nil-filter p (s ∷ steps) = ground (arith, is_nil-filter p steps)

  is_met-verdict_of :
      (plan : DagPlan) (c : DeliveryContract)
      → is_met (verdict_of repr results step_aliases plan c)
        ≡ any (delivers repr results step_aliases c.tool c.input) plan.steps
  unfolding verdict_of is_met
  is_met-verdict_of plan c =
      ground (arith, is_nil-filter (delivers repr results step_aliases c.tool c.input) plan.steps)

  all-is_met :
      (plan : DagPlan) (cs : List DeliveryContract)
      → all is_met (verify_deliverables repr results step_aliases cs plan)
        ≡ all (λ c. any (delivers repr results step_aliases c.tool c.input) plan.steps) cs
  unfolding verify_deliverables
  all-is_met plan [] = refl
  all-is_met plan (c ∷ cs) = ground (arith, all-is_met plan cs, is_met-verdict_of plan c)

-- The gate reports a plan as mechanically complete exactly when every step of it has a result
-- (under its alias) that is completed, cached, or unsuccessful as a probe, and every declared
-- operation is satisfied by a step with one.
pub mechanical_complete_iff :
    (repr : Value → String) (plan : DagPlan) (results : Dict StepResult)
    (step_aliases : Dict String) (contracts : List DeliveryContract)
    → ((compute repr plan results step_aliases contracts).mechanical_complete ≡ true)
      ↔ IsComplete repr results step_aliases plan
unfolding compute
mechanical_complete_iff repr plan results step_aliases contracts =
    let split =
      is_nil-append repr results step_aliases (unmet_steps repr results step_aliases plan.steps)
        (unmet_operations repr results step_aliases plan.steps 0 plan.declared_operations) in
    let of_steps = is_nil-unmet_steps repr results step_aliases plan.steps in
    let of_ops =
      is_nil-unmet_operations repr results step_aliases plan 0 plan.declared_operations in
    (
      λ h. (of_steps.0 (ground arith), of_ops.0 (ground arith)),
      λ (s, o). ground (arith, of_steps.1 s, of_ops.1 o),
    )

-- The deliverable dimension is met exactly when there is a contract and each contract is satisfied
-- by a step of the plan with a result that ended normally.
pub deliverable_met_iff :
    (repr : Value → String) (plan : DagPlan) (results : Dict StepResult)
    (step_aliases : Dict String) (contracts : List DeliveryContract)
    → ((compute repr plan results step_aliases contracts).deliverable_status ≡ met)
      ↔ (contracts ≢ [])
        × ((c : DeliveryContract)
            → In c contracts
            → IsDelivered repr results step_aliases plan c.tool c.input)
unfolding compute status_of is_nil
deliverable_met_iff repr plan results step_aliases [] = (λ h. cc, λ (h, _). absurd (h refl))
deliverable_met_iff repr plan results step_aliases (c ∷ cs) = (
  λ h. (
    λ e. cc,
    λ d i. (any-delivers repr results step_aliases plan d.tool d.input).0 (
        all→In (λ d. any (delivers repr results step_aliases d.tool d.input) plan.steps) (c ∷ cs)
          (ground (arith, all-is_met repr results step_aliases plan (c ∷ cs))) d i),
  ),
  λ (_, h). rw (
    all-is_met repr results step_aliases plan (c ∷ cs),
    In→all (λ d. any (delivers repr results step_aliases d.tool d.input) plan.steps) (c ∷ cs)
        (λ d i. (any-delivers repr results step_aliases plan d.tool d.input).1 (h d i)),
  ),
)

-- The deliverable dimension is unverified exactly when the run has no contract.
deliverable_unverified_iff :
    (repr : Value → String) (plan : DagPlan) (results : Dict StepResult)
    (step_aliases : Dict String) (contracts : List DeliveryContract)
    → ((compute repr plan results step_aliases contracts).deliverable_status ≡ unverified)
      ↔ (contracts ≡ [])
unfolding compute status_of is_nil
deliverable_unverified_iff repr plan results step_aliases [] = (λ h. refl, λ h. refl)
deliverable_unverified_iff repr plan results step_aliases (c ∷ cs) = (λ h. ground arith, λ h. cc)
