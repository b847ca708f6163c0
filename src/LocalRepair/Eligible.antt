-- ===== src/LocalRepair/Eligible.antt =====
-- The steps that a repair may change.
use jagent.Base.{
  String, Bool, true, false, some, List, [], ◌∷◌, elem, map, filter, any, Dict, lookup, ◌≡◌, ◌⊎◌,
  refl, sym, arith, eq_iff, inl, inr, Bool-cases, Option-cases, In, here, there, In-filter,
  In-filter-intro, In→any,
}
use mathlib.Core.Path.{subst}
use jagent.Values.{Value, Fields}
use jagent.Steps.{StepResult, step_normal}
use jagent.Plan.{DagStep, DagPlan, step_satisfies, codes}
use jagent.Contracts.{DeliveryContract}
use jagent.LocalRepair.Candidates.{
  codes_leb, put_in_order, sort_by, bound_step_ids, is_candidate, local_repair_candidates,
}

In-cons : {A : Type 0} → (x y : A) (ys : List A) → In x (y ∷ ys) → (x ≡ y) ⊎ In x ys
In-cons x y ys here = inl refl
In-cons x y ys (there i) = inr i

module _ {A : Type 0} (key : A → String) where
  put_in_order-In : (x y : A) (ys : List A) → In x (put_in_order key y ys) → (x ≡ y) ⊎ In x ys
  unfolding put_in_order
  put_in_order-In x y [] here = inl refl
  put_in_order-In x y [] (there i) = elim i [ ]
  put_in_order-In x y (z ∷ ys) i = elim (Bool-cases (codes_leb (codes (key y)) (codes (key z)))) [
    | inl before ↦ In-cons x y (z ∷ ys) (rw (before, put_in_order) at i)
    | inr after ↦ elim (In-cons x z (put_in_order key y ys) (rw (after, put_in_order) at i)) [
      | inl same ↦ inr (subst (λ w. In w (z ∷ ys)) (sym same) here)
      | inr rest ↦ elim (put_in_order-In x y ys rest) [
        | inl same ↦ inl same
        | inr old ↦ inr (there old)
      ]
    ]
  ]

  -- Sorting adds nothing.
  sort_by-In : (x : A) (xs : List A) → In x (sort_by key xs) → In x xs
  unfolding sort_by
  sort_by-In x [] i = elim i [ ]
  sort_by-In x (y ∷ xs) i = elim (put_in_order-In x y (sort_by key xs) i) [
    | inl same ↦ subst (λ z. In z (y ∷ xs)) (sym same) here
    | inr old ↦ there (sort_by-In x xs old)
  ]

elem-ids : (s : DagStep) (ss : List DagStep) → In s ss → elem s.id (map (λ x. x.id) ss) ≡ true
unfolding elem
elem-ids s [] k = elim k [ ]
elem-ids s (t ∷ ss) here = ground (arith, eq_iff s.id s.id)
elem-ids s (t ∷ ss) (there k) = ground (arith, elem-ids s ss k)

module _ (repr : Value → String) (dumps : Fields → String) (transient_search : String → Bool)
    (plan : DagPlan) (results : Dict StepResult) (contracts : List DeliveryContract) where
  pub record IsEligible (s : DagStep) : Type 0 where
    pub inside : In s plan.steps
    pub unbound :
        elem s.id (bound_step_ids repr dumps transient_search plan.steps contracts) ≡ false
    pub failed : (r : StepResult) × (lookup s.id results ≡ some r) × (step_normal r ≡ false)

  pub candidate-IsEligible :
      (s : DagStep)
      → In s (local_repair_candidates repr dumps transient_search plan results contracts)
      → IsEligible s
  unfolding local_repair_candidates is_candidate
  candidate-IsEligible s i =
      let bound = bound_step_ids repr dumps transient_search plan.steps contracts in
      let (inside, passes) =
        In-filter (is_candidate repr dumps transient_search results bound) s plan.steps (
          sort_by-In (λ x. x.id) s
            (filter (is_candidate repr dumps transient_search results bound) plan.steps) i) in
      elim (Option-cases (lookup s.id results)) [
        | inl absent ↦ absurd (ground arith)
        | inr (r, found) ↦ record {
          inside = inside;
          unbound = ground arith;
          failed = (r, found, ground arith);
        }
      ]

  -- A step that satisfies a contract has a bound id.
  pub bound-elem :
      (c : DeliveryContract) (s : DagStep)
      → In c contracts
      → In s plan.steps
      → step_satisfies repr s c.tool c.input ≡ true
      → elem s.id (bound_step_ids repr dumps transient_search plan.steps contracts) ≡ true
  unfolding bound_step_ids
  bound-elem c s i j h =
      elem-ids s
        (filter (λ s. any (λ c. step_satisfies repr s c.tool c.input) contracts) plan.steps)
        (In-filter-intro (λ s. any (λ c. step_satisfies repr s c.tool c.input) contracts) s
          plan.steps j (In→any (λ c. step_satisfies repr s c.tool c.input) c i h))
