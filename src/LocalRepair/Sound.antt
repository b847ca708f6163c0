-- ===== src/LocalRepair/Sound.antt =====
-- What a repair leaves of the plan.
use jagent.Base.{
  ℕ, ◌+◌, String, Bool, true, false, Option, some, List, [], ◌∷◌, ◌==◌, ltb, elem, map, Dict,
  lookup, lookup_or, lookup-remove, remove, insert, ◌≡◌, ◌⊎◌, refl, sym, ap, ◌∙◌, arith, eq_iff,
  inl, inr, Bool-cases, Option-cases, In, here, there,
}
use mathlib.Core.Path.{subst}
use jagent.Values.{Value, Fields}
use jagent.Steps.{StepResult, step_normal}
use jagent.Plan.{DagStep, DagPlan, step_satisfies}
use jagent.Contracts.{DeliveryContract}
use jagent.Tools.{ToolDefinition}
use jagent.Recovery.{
  RecoveryBudget, LocalRepairProposal, RepairDecision, allowed, budget_exhausted, empty_proposal,
  not_whitelisted, side_effecting, repeats_action, is_read_only, validate_local_repair,
}
use jagent.Recovery.Repair.{validate_local_repair-allowed_iff}
use jagent.LocalRepair.Candidates.{bound_step_ids, local_repair_candidates, read_only_tool_map}
use jagent.LocalRepair.Eligible.{IsEligible, candidate-IsEligible, bound-elem}
use jagent.LocalRepair.{
  Attempt, repaired, escalated, key_error, Round, replaced, by_decision, whitelist, with_action,
  turned_down, Repairing, weigh_proposal, round_of, settle, put_event, replace_action, attempt_from,
  attempt_step_local_repair,
}

by_decision-replaced :
    (d : RepairDecision) (p q : LocalRepairProposal)
    → by_decision p d ≡ replaced q
    → (d ≡ allowed) × (p ≡ q)
unfolding by_decision
by_decision-replaced allowed p q h = (refl, cc)
by_decision-replaced (budget_exhausted m n) p q h = cc
by_decision-replaced empty_proposal p q h = cc
by_decision-replaced (not_whitelisted t) p q h = cc
by_decision-replaced (side_effecting t) p q h = cc
by_decision-replaced repeats_action p q h = cc

map-In : (f : DagStep → DagStep) (s : DagStep) (ss : List DagStep) → In s ss → In (f s) (map f ss)
map-In f s [] i = elim i [ ]
map-In f s (t ∷ ss) here = here
map-In f s (t ∷ ss) (there i) = there (map-In f s ss i)

In-map :
    (f : DagStep → DagStep) (t : DagStep) (ss : List DagStep)
    → In t (map f ss)
    → (s : DagStep) × In s ss × (f s ≡ t)
In-map f t [] i = elim i [ ]
In-map f t (s ∷ ss) here = (s, here, refl)
In-map f t (s ∷ ss) (there i) = let (u, j, e) = In-map f t ss i in (u, there j, e)

with_action-other :
    (sid : String) (p : LocalRepairProposal) (u : DagStep)
    → (u.id == sid) ≡ false
    → u ≡ with_action sid p u
unfolding with_action
with_action-other sid p u other = ground arith

module _ (repr : Value → String) (dumps : Fields → String) (transient_search : String → Bool)
    (plan : DagPlan) (results : Dict StepResult) (contracts : List DeliveryContract)
    (budget : RecoveryBudget) (ro_tools : Dict Bool) where
  -- The steps that satisfy a contract stay in the plan, with their results.
  unfoldable pub KeepsDelivery : DagPlan → Dict StepResult → Type 0
  KeepsDelivery plan' results' =
      (c : DeliveryContract) (s : DagStep)
      → In c contracts
      → In s plan.steps
      → step_satisfies repr s c.tool c.input ≡ true
      → In s plan'.steps × (lookup s.id results' ≡ lookup s.id results)

  -- A step that is new in the plan reads only, with a tool of the budget, and stands for a step that did
  -- not end normally, with another action.
  unfoldable pub IsRepair : DagStep → Type 0
  IsRepair t =
      (is_read_only repr t.tool t.input ro_tools ≡ true)
      × (elem t.tool budget.allowed_tools ≡ true)
      × ((s : DagStep) × In s plan.steps
          × (s.id ≡ t.id)
          × ¬ ((t.tool ≡ s.tool) × (dumps t.input ≡ dumps s.input)))
      × ((r : StepResult) × (lookup t.id results ≡ some r) × (step_normal r ≡ false))

  -- What an attempt may leave: a plan in which the new steps are repairs, or the old results.
  unfoldable pub IsSafe : Attempt → Dict StepResult → Type 0
  IsSafe (repaired plan') results' =
      KeepsDelivery plan' results'
      × ((t : DagStep) → In t plan'.steps → In t plan.steps ⊎ IsRepair t)
  IsSafe escalated results' = results' ≡ results
  IsSafe (key_error sid) results' = ⊥

  module _ (propose : DagStep → Option String → List String → Option LocalRepairProposal)
      (plan_id : String) where
    -- A proposal that replaces an action was allowed.
    round_of-replaced :
        (s : DagStep) (used : ℕ) (error : Option String) (q : LocalRepairProposal)
        → round_of repr dumps transient_search propose plan plan_id budget ro_tools s used error
          ≡ replaced q
        → validate_local_repair repr dumps q (used + 1) budget ro_tools (s.tool, dumps s.input)
          ≡ allowed
    unfolding round_of weigh_proposal
    round_of-replaced s used error q h = go budget.allowed_tools refl
      where
        go :
            (ts : List String)
            → budget.allowed_tools ≡ ts
            → validate_local_repair repr dumps q (used + 1) budget ro_tools (s.tool, dumps s.input)
              ≡ allowed
        go [] e = absurd (ground arith)
        go (t ∷ ts) e =
            elim (Option-cases (
              propose s error
                (whitelist repr dumps transient_search propose plan plan_id budget ro_tools))) [
                  | inl silent ↦ absurd (ground arith)
                  | inr (p, made) ↦
                      let (accepts, same) =
                        by_decision-replaced
                          (validate_local_repair repr dumps p (used + 1) budget ro_tools
                            (s.tool, dumps s.input))
                          p q (ground arith) in
                      subst
                        (λ x.
                          validate_local_repair repr dumps x (used + 1) budget ro_tools
                            (s.tool, dumps s.input)
                          ≡ allowed)
                        same accepts
                ]

  module _ (s : DagStep) (p : LocalRepairProposal)
      (e : IsEligible repr dumps transient_search plan results contracts s) where
    replaced-KeepsDelivery :
        KeepsDelivery
          (record plan { steps = replace_action s.id p plan.steps })
          (remove s.id results)
    unfolding KeepsDelivery replace_action with_action
    replaced-KeepsDelivery c t i j h = elim (Bool-cases (t.id == s.id)) [
      | inl same ↦
          let is_s : t.id ≡ s.id = ground (arith, eq_iff t.id s.id) in
          let bound =
            ap (λ n. elem n (bound_step_ids repr dumps transient_search plan.steps contracts))
              (sym is_s)
            ∙ bound-elem repr dumps transient_search plan results contracts c t i j h in
          absurd (ground (arith, e.unbound))
      | inr other ↦ (
        subst (λ x. In x (map (with_action s.id p) plan.steps)) (ground arith)
            (map-In (with_action s.id p) t plan.steps j),
        ground (arith, lookup-remove s.id t.id results, eq_iff s.id t.id, eq_iff t.id s.id),
      )
    ]

    with_action-IsRepair :
        (u : DagStep)
        → (u.id == s.id) ≡ true
        → (is_read_only repr p.tool_name p.input ro_tools ≡ true)
          × (elem p.tool_name budget.allowed_tools ≡ true)
          × ¬ ((p.tool_name ≡ s.tool) × (dumps p.input ≡ dumps s.input))
        → IsRepair (with_action s.id p u)
    unfolding IsRepair with_action
    with_action-IsRepair u same (reads, listed, differs) =
        let (r, found, bad) = e.failed in
        let is_s : u.id ≡ s.id = (eq_iff u.id s.id).0 same in
        let changed : record u { tool = p.tool_name; input = p.input } ≡ with_action s.id p u =
          ground arith in
        subst IsRepair changed (
          reads,
          listed,
          (s, e.inside, sym is_s, differs),
          (r, ap (λ n. lookup n results) is_s ∙ found, bad),
        )

    replaced-IsRepair :
        (t : DagStep)
        → (is_read_only repr p.tool_name p.input ro_tools ≡ true)
          × (elem p.tool_name budget.allowed_tools ≡ true)
          × ¬ ((p.tool_name ≡ s.tool) × (dumps p.input ≡ dumps s.input))
        → In t (replace_action s.id p plan.steps)
        → In t plan.steps ⊎ IsRepair t
    unfolding replace_action
    replaced-IsRepair t good i =
        let (u, j, is_t) = In-map (with_action s.id p) t plan.steps i in
        elim (Bool-cases (u.id == s.id)) [
          | inl same ↦ inr (subst IsRepair is_t (with_action-IsRepair u same good))
          | inr other ↦
              inl (subst (λ x. In x plan.steps) (with_action-other s.id p u other ∙ is_t) j)
        ]

    replaced-IsSafe :
        (used : ℕ)
        → validate_local_repair repr dumps p (used + 1) budget ro_tools (s.tool, dumps s.input)
          ≡ allowed
        → IsSafe
            (repaired (record plan { steps = replace_action s.id p plan.steps }))
            (remove s.id results)
    unfolding IsSafe
    replaced-IsSafe used ok =
        let (rounds, named, listed, reads, differs) =
          (validate_local_repair-allowed_iff repr dumps p (used + 1) budget ro_tools s.tool
              (dumps s.input)).0
            ok in
        (replaced-KeepsDelivery, λ t i. replaced-IsRepair t (reads, listed, differs) i)

  module _ (propose : DagStep → Option String → List String → Option LocalRepairProposal)
      (plan_id : String) where
    settle-IsSafe :
        (s : DagStep) (used : ℕ) (error : Option String) (rounds : Dict ℕ) (next : Repairing)
        (r : Round)
        → IsEligible repr dumps transient_search plan results contracts s
        → IsSafe next.attempt next.results
        → round_of repr dumps transient_search propose plan plan_id budget ro_tools s used error ≡ r
        → let out =
            settle repr dumps transient_search propose plan plan_id budget ro_tools s used error
              rounds results next r in
          IsSafe out.attempt out.results
    unfolding settle put_event
    settle-IsSafe s used error rounds next (turned_down outcome tool reason) e h is_r = h
    settle-IsSafe s used error rounds next (replaced p) e h is_r =
        replaced-IsSafe s p e used (round_of-replaced propose plan_id s used error p is_r)

    attempt_from-IsSafe :
        (ss : List DagStep) (rounds : Dict ℕ)
        → ((s : DagStep)
            → In s ss
            → IsEligible repr dumps transient_search plan results contracts s)
        → let out =
            attempt_from repr dumps transient_search propose plan plan_id budget ro_tools ss rounds
              results in
          IsSafe out.attempt out.results
    unfolding attempt_from IsSafe put_event
    attempt_from-IsSafe [] rounds h = refl
    attempt_from-IsSafe (s ∷ ss) rounds h =
        let used = lookup_or s.id 0 rounds in
        let counted = insert s.id (used + 1) rounds in
        elim (Bool-cases (ltb used budget.max_repair_rounds)) [
          | inr full ↦
              rw (full, attempt_from) (attempt_from-IsSafe ss rounds (λ t i. h t (there i)))
          | inl left ↦
              let e = h s here in
              let (r, found, bad) = e.failed in
              let next =
                attempt_from repr dumps transient_search propose plan plan_id budget ro_tools ss
                  counted results in
              rw (left, attempt_from)
                (rw found (
                  settle-IsSafe s used r.error counted next _ e
                    (attempt_from-IsSafe ss counted (λ t i. h t (there i))) refl))
        ]

-- An attempt of a local repair never raises the KeyError of results[step.id]. If it repairs no step, it
-- leaves the results as they were. If it returns a plan, every step that satisfies a delivery contract is
-- still in it, with the same result, and every step that is new in it only reads, with a tool of the
-- budget, and stands for a step that did not end normally, with another action.
pub attempt_step_local_repair-IsSafe :
    (repr : Value → String) (dumps : Fields → String) (transient_search : String → Bool)
    (propose : DagStep → Option String → List String → Option LocalRepairProposal)
    (tool_defs : List ToolDefinition) (plan : DagPlan) (plan_id : String)
    (results : Dict StepResult) (repair_rounds : Dict ℕ) (budget : RecoveryBudget)
    (contracts : List DeliveryContract)
    → let out =
        attempt_step_local_repair repr dumps transient_search propose tool_defs plan plan_id results
          repair_rounds budget contracts in
      IsSafe repr dumps transient_search plan results contracts budget
        (read_only_tool_map tool_defs)
        out.attempt
        out.results
unfolding attempt_step_local_repair
attempt_step_local_repair-IsSafe repr dumps transient_search propose tool_defs plan plan_id results
      repair_rounds budget contracts =
    attempt_from-IsSafe repr dumps transient_search plan results contracts budget
      (read_only_tool_map tool_defs) propose plan_id
      (local_repair_candidates repr dumps transient_search plan results contracts) repair_rounds
      (candidate-IsEligible repr dumps transient_search plan results contracts)
