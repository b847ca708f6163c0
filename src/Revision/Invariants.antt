-- ===== src/Revision/Invariants.antt =====
-- What an accepted revision keeps, and that a plan which keeps it delivers when it completes.
use jagent.Base.{
  String, true, false, Option, some, List, [], ◌∷◌, ◌++◌, filter, map, if◌then◌else◌, Dict, ◌≡◌,
  ◌≢◌, ◌↔◌, refl, arith, Bool-cases, inl, inr, In, here, there, any→In, In→any, In-filter,
  In-filter-intro,
}
use jagent.Values.{Value, Fields, field, end, get_or_null, eq}
use jagent.Steps.{StepResult}
use jagent.Plan.{DagStep, DagPlan, step_satisfies}
use jagent.Contracts.{DeliverySource, DeliveryContract}
use jagent.Completion.{compute, met, is_nil}
use jagent.Completion.Verdicts.{IsDelivered, mechanical_complete_iff, deliverable_met_iff}
use jagent.Tools.{Registry}
use jagent.Revision.{
  RevisionError, step_is_mutating, changed_keys, is_caller, key_errors, covers, contract_errors,
  all_contract_errors, mutating_errors, validate_revision_invariants,
}

append-nil : (xs ys : List RevisionError) → xs ++ ys ≡ [] → (xs ≡ []) × (ys ≡ [])
append-nil [] ys h = (refl, h)
append-nil (x ∷ xs) ys h = cc

-- The step has each value of the contract's input.
pub HasValues : Fields → Fields → Type 0
HasValues end input = Unit
HasValues (field key val rest) input =
    (eq (get_or_null key input) val ≡ true) × HasValues rest input

changed_keys-nil : (c input : Fields) → changed_keys c input ≡ [] → HasValues c input
unfolding changed_keys HasValues
changed_keys-nil end input h = tt
changed_keys-nil (field k v rest) input h =
    (ground arith, changed_keys-nil rest input (ground arith))

nil-changed_keys : (c input : Fields) → HasValues c input → changed_keys c input ≡ []
unfolding changed_keys HasValues
nil-changed_keys end input h = refl
nil-changed_keys (field k v rest) input (e, h) = ground (arith, e, nil-changed_keys rest input h)

key_errors-nil :
    (c : DeliveryContract) (ss : List DagStep)
    → key_errors c ss ≡ []
    → (s : DagStep) → In s ss
    → HasValues c.input s.input
unfolding key_errors
key_errors-nil c [] h s i = elim i [ ]
key_errors-nil c (t ∷ ss) h s here =
    changed_keys-nil c.input s.input (map-nil (changed_keys c.input s.input) (append-nil _ _ h).0)
  where
    map-nil :
        (ks : List String) → map (λ key. RevisionError.changed key c.contract_id) ks ≡ [] → ks ≡ []
    map-nil [] h = refl
    map-nil (k ∷ ks) h = cc
key_errors-nil c (t ∷ ss) h s (there i) = key_errors-nil c ss (append-nil _ _ h).1 s i

nil-key_errors :
    (c : DeliveryContract) (ss : List DagStep)
    → ((s : DagStep) → In s ss → HasValues c.input s.input)
    → key_errors c ss ≡ []
unfolding key_errors
nil-key_errors c [] h = refl
nil-key_errors c (t ∷ ss) h =
    rw (nil-changed_keys c.input t.input (h t here)) (nil-key_errors c ss (λ s i. h s (there i)))

first_of : {A : Type 0} (xs : List A) → is_nil xs ≡ false → (x : A) × In x xs
unfolding is_nil
first_of [] h = cc
first_of (x ∷ xs) h = (x, here)

In-is_nil : {A : Type 0} {x : A} {xs : List A} → In x xs → is_nil xs ≡ false
unfolding is_nil
In-is_nil here = refl
In-is_nil (there i) = refl

module _ (repr : Value → String) (steps : List DagStep) where
  -- A step of the plan satisfies the contract. If a caller wrote it, then each step that does has
  -- all its values, the content among them.
  abbrev pub IsKept : DeliveryContract → Type 0
  IsKept c =
      ((s : DagStep) × In s steps × (step_satisfies repr s c.tool c.input ≡ true))
      × (c.source ≡ DeliverySource.caller
          → (s : DagStep) → In s steps
          → step_satisfies repr s c.tool c.input ≡ true
          → HasValues c.input s.input)

  contract_errors-nil : (c : DeliveryContract) → contract_errors repr steps c ≡ [] → IsKept c
  unfolding contract_errors covers is_caller
  contract_errors-nil c h = elim (Bool-cases (is_nil (filter (covers repr c) steps))) [
    | inl none_left ↦ ground arith
    | inr some_left ↦ (
      covering (first_of (filter (covers repr c) steps) some_left),
      λ e s i sat.
          key_errors-nil c (filter (covers repr c) steps) (caller_errors some_left e) s
            (In-filter-intro (covers repr c) s steps i sat),
    )
  ]
    where
      covering :
          (s : DagStep) × In s (filter (covers repr c) steps)
          → (s : DagStep) × In s steps × (step_satisfies repr s c.tool c.input ≡ true)
      covering (s, i) = let (j, sat) = In-filter (covers repr c) s steps i in (s, j, sat)

      caller_errors :
          is_nil (filter (covers repr c) steps) ≡ false
          → c.source ≡ DeliverySource.caller
          → key_errors c (filter (covers repr c) steps) ≡ []
      caller_errors n e = rw (n, e, contract_errors) at h

  nil-contract_errors : (c : DeliveryContract) → IsKept c → contract_errors repr steps c ≡ []
  unfolding contract_errors covers is_caller
  nil-contract_errors c ((s, i, sat), same) =
      rw (In-is_nil (In-filter-intro (covers repr c) s steps i sat), contract_errors)
        (go c.source refl)
    where
      go :
          (source : DeliverySource)
          → c.source ≡ source
          → ◌≡◌ {A = List RevisionError}
              (if is_caller c.source then key_errors c (filter (covers repr c) steps) else [])
              []
      go DeliverySource.extracted e = rw e refl
      go DeliverySource.caller e = rw e (
          nil-key_errors c (filter (covers repr c) steps)
            (λ t j. let (k, sat_t) = In-filter (covers repr c) t steps j in same e t k sat_t))

  all_contract_errors-nil :
      (cs : List DeliveryContract)
      → (all_contract_errors repr steps cs ≡ []) ↔ ((c : DeliveryContract) → In c cs → IsKept c)
  unfolding all_contract_errors
  all_contract_errors-nil [] = (λ h c i. elim i [ ], λ h. refl)
  all_contract_errors-nil (d ∷ cs) = (
    λ h c i.
        let (own, others) = append-nil (contract_errors repr steps d) _ h in
        kept c own ((all_contract_errors-nil cs).0 others) i,
    λ h.
        rw (nil-contract_errors d (h d here))
          ((all_contract_errors-nil cs).1 (λ c i. h c (there i))),
  )
    where
      kept :
          (c : DeliveryContract)
          → contract_errors repr steps d ≡ []
          → ((c : DeliveryContract) → In c cs → IsKept c)
          → In c (d ∷ cs)
          → IsKept c
      kept c h hs here = contract_errors-nil c h
      kept c h hs (there i) = hs c i

  -- Some contract covers the step.
  abbrev pub IsCovered : List DeliveryContract → DagStep → Type 0
  IsCovered contracts s =
      (c : DeliveryContract) × In c contracts × (step_satisfies repr s c.tool c.input ≡ true)

module _ (repr : Value → String) (contracts : List DeliveryContract) (registry : Registry) where
  mutating_errors-nil :
      (steps : List DagStep)
      → mutating_errors repr contracts registry steps ≡ []
      → (s : DagStep) → In s steps
      → step_is_mutating s registry ≡ true
      → IsCovered repr [] contracts s
  unfolding mutating_errors covers
  mutating_errors-nil [] h s i m = elim i [ ]
  mutating_errors-nil (t ∷ steps) h s here m =
      any→In (λ c. covers repr c s) contracts (ground arith)
  mutating_errors-nil (t ∷ steps) h s (there i) m = mutating_errors-nil steps (ground arith) s i m

  nil-mutating_errors :
      (steps : List DagStep)
      → ((s : DagStep)
          → In s steps
          → step_is_mutating s registry ≡ true
          → IsCovered repr [] contracts s)
      → mutating_errors repr contracts registry steps ≡ []
  unfolding mutating_errors covers
  nil-mutating_errors [] h = refl
  nil-mutating_errors (t ∷ steps) h = elim (Bool-cases (step_is_mutating t registry)) [
    | inr harmless ↦ ground (arith, nil-mutating_errors steps (λ s i. h s (there i)))
    | inl mutates ↦
        let (c, i, sat) = h t here mutates in
        ground (
          arith,
          In→any (λ c. covers repr c t) c i sat,
          nil-mutating_errors steps (λ s i. h s (there i)),
        )
  ]

-- A revision of a run with contracts and a registry is accepted exactly if each contract is still
-- satisfied by a step, the steps that satisfy a caller's contract have all its values, and each step
-- with side effects, or with an unknown tool, satisfies a contract.
pub validate_revision_invariants-nil_iff :
    (repr : Value → String) (contracts : List DeliveryContract) (plan : DagPlan)
    (registry : Registry)
    → contracts ≢ []
    → (validate_revision_invariants repr contracts plan (some registry) ≡ [])
      ↔ ((c : DeliveryContract) → In c contracts → IsKept repr plan.steps c)
        × ((s : DagStep)
            → In s plan.steps
            → step_is_mutating s registry ≡ true
            → IsCovered repr plan.steps contracts s)
unfolding validate_revision_invariants is_nil
validate_revision_invariants-nil_iff repr [] plan registry some_contract =
    absurd (some_contract refl)
validate_revision_invariants-nil_iff repr (d ∷ cs) plan registry some_contract =
    let contracts = d ∷ cs in
    (
      λ h.
          let (kept, covered) = append-nil (all_contract_errors repr plan.steps contracts) _ h in
          (
            (all_contract_errors-nil repr plan.steps contracts).0 kept,
            mutating_errors-nil repr contracts registry plan.steps covered,
          ),
      λ (kept, covered).
          rw ((all_contract_errors-nil repr plan.steps contracts).1 kept)
            (nil-mutating_errors repr contracts registry plan.steps covered),
    )

-- If a revision is accepted for a run with contracts, and the completion gate finds it mechanically
-- complete, then the gate finds every contract delivered as well.
pub accepted_revision_delivers :
    (repr : Value → String) (contracts : List DeliveryContract) (plan : DagPlan)
    (registry : Option Registry) (results : Dict StepResult) (step_aliases : Dict String)
    → contracts ≢ []
    → validate_revision_invariants repr contracts plan registry ≡ []
    → (compute repr plan results step_aliases contracts).mechanical_complete ≡ true
    → (compute repr plan results step_aliases contracts).deliverable_status ≡ met
unfolding validate_revision_invariants
accepted_revision_delivers repr contracts plan registry results step_aliases some_contract accepted
      complete =
    (deliverable_met_iff repr plan results step_aliases contracts).1 (some_contract, delivered)
  where
    delivered :
        (c : DeliveryContract)
        → In c contracts
        → IsDelivered repr results step_aliases plan c.tool c.input
    delivered c i =
        let ((s, j, sat), _) =
          (all_contract_errors-nil repr plan.steps contracts).0 (append-nil _ _ accepted).0 c i in
        (
          s,
          j,
          sat,
          ((mechanical_complete_iff repr plan results step_aliases contracts).0 complete).0 s j,
        )
