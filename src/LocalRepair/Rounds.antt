-- ===== src/LocalRepair/Rounds.antt =====
-- The rounds of repair that a step gets.
use jagent.Base.{
  ℕ, ◌+◌, ◌≤◌, ◌<◌, String, Bool, Option, List, [], ◌∷◌, ◌==◌, if◌then◌else◌, ltb, Dict, lookup,
  lookup_or, lookup_or-insert, insert, ◌≡◌, ap, arith, eq_iff, inl, inr, Bool-cases, Option-cases,
}
use jagent.Values.{Value, Fields}
use jagent.Steps.{StepResult}
use jagent.Plan.{DagStep, DagPlan}
use jagent.Contracts.{DeliveryContract}
use jagent.Tools.{ToolDefinition}
use jagent.Recovery.{RecoveryBudget, LocalRepairProposal}
use jagent.LocalRepair.Candidates.{local_repair_candidates, read_only_tool_map}
use jagent.LocalRepair.{
  RepairEvent, repair_started, repair_completed, Round, replaced, turned_down, Repairing, round_of,
  settle, put_event, round_started, round_completed, attempt_from, attempt_step_local_repair,
}

-- The rounds that are started_rounds for a step.
pub started_rounds : String → List RepairEvent → ℕ
started_rounds n [] = 0
started_rounds n (repair_started p ∷ es) = (if p.step_id == n then 1 else 0) + started_rounds n es
started_rounds n (repair_completed p ∷ es) = started_rounds n es

-- Every round is counted, and the count stays within the bound.
abbrev pub IsCounted : ℕ → Dict ℕ → Repairing → String → Type 0
IsCounted bound rounds out n =
    (lookup_or n 0 out.repair_rounds ≡ lookup_or n 0 rounds + started_rounds n out.events)
    × (lookup_or n 0 rounds ≤ bound → lookup_or n 0 out.repair_rounds ≤ bound)

module _ (repr : Value → String) (dumps : Fields → String) (transient_search : String → Bool)
    (propose : DagStep → Option String → List String → Option LocalRepairProposal) (plan : DagPlan)
    (plan_id : String) (budget : RecoveryBudget) (ro_tools : Dict Bool) where
  settle-IsCounted :
      (s : DagStep) (used : ℕ) (error : Option String) (rounds : Dict ℕ) (results : Dict StepResult)
      (next : Repairing) (r : Round) (n : String) (bound : ℕ)
      → IsCounted bound rounds next n
      → IsCounted bound rounds
          (settle repr dumps transient_search propose plan plan_id budget ro_tools s used error
            rounds results next r)
          n
  unfolding settle put_event round_completed started_rounds
  settle-IsCounted s used error rounds results next (turned_down outcome tool reason) n bound h = h
  settle-IsCounted s used error rounds results next (replaced p) n bound h = (omega arith, λ k. k)

  -- A round that starts is one more in the table.
  started-IsCounted :
      (s : DagStep) (error : Option String) (rounds : Dict ℕ) (out : Repairing) (n : String)
      → (lookup_or s.id 0 rounds < budget.max_repair_rounds)
      → IsCounted budget.max_repair_rounds (insert s.id (lookup_or s.id 0 rounds + 1) rounds) out n
      → IsCounted budget.max_repair_rounds rounds
          (put_event
            (round_started repr dumps transient_search propose plan plan_id budget ro_tools s
              (lookup_or s.id 0 rounds)
              error)
            out)
          n
  unfolding put_event round_started started_rounds
  started-IsCounted s error rounds out n less (e, h) =
      let at_n = lookup_or-insert s.id n (lookup_or s.id 0 rounds + 1) 0 rounds in
      elim (Bool-cases (s.id == n)) [
        | inl same ↦
            let is_n : lookup_or s.id 0 rounds ≡ lookup_or n 0 rounds =
              ap (λ k. lookup_or k 0 rounds) ((eq_iff s.id n).0 same) in
            (ground arith, λ k. h (ground arith))
        | inr other ↦ (ground arith, λ k. h (ground arith))
      ]

  attempt_from-IsCounted :
      (ss : List DagStep) (rounds : Dict ℕ) (results : Dict StepResult) (n : String)
      → IsCounted budget.max_repair_rounds rounds
          (attempt_from repr dumps transient_search propose plan plan_id budget ro_tools ss rounds
            results)
          n
  unfolding attempt_from started_rounds
  attempt_from-IsCounted [] rounds results n = (omega arith, λ h. h)
  attempt_from-IsCounted (s ∷ ss) rounds results n =
      let used = lookup_or s.id 0 rounds in
      let counted = insert s.id (used + 1) rounds in
      elim (Bool-cases (ltb used budget.max_repair_rounds)) [
        | inr full ↦ rw (full, attempt_from) (attempt_from-IsCounted ss rounds results n)
        | inl left ↦ elim (Option-cases (lookup s.id results)) [
          | inl absent ↦ rw (left, attempt_from) (rw absent (omega arith, λ h. h))
          | inr (r, there_is) ↦
              let next =
                attempt_from repr dumps transient_search propose plan plan_id budget ro_tools ss
                  counted results in
              let round =
                round_of repr dumps transient_search propose plan plan_id budget ro_tools s used
                  r.error in
              let settled =
                settle repr dumps transient_search propose plan plan_id budget ro_tools s used
                  r.error counted results next round in
              rw (left, attempt_from)
                (rw there_is (
                  started-IsCounted s r.error rounds settled n (ground arith) (
                    settle-IsCounted s used r.error counted results next round n
                      budget.max_repair_rounds (attempt_from-IsCounted ss counted results n))))
        ]
      ]

-- One attempt of a local repair adds to the table of rounds, for each step, exactly the rounds that its
-- events say were started_rounds for that step, and a step within the budget of rounds stays within it.
pub attempt_step_local_repair-IsCounted :
    (repr : Value → String) (dumps : Fields → String) (transient_search : String → Bool)
    (propose : DagStep → Option String → List String → Option LocalRepairProposal)
    (tool_defs : List ToolDefinition) (plan : DagPlan) (plan_id : String)
    (results : Dict StepResult) (repair_rounds : Dict ℕ) (budget : RecoveryBudget)
    (contracts : List DeliveryContract) (n : String)
    → IsCounted budget.max_repair_rounds repair_rounds
        (attempt_step_local_repair repr dumps transient_search propose tool_defs plan plan_id
          results repair_rounds budget contracts)
        n
unfolding attempt_step_local_repair
attempt_step_local_repair-IsCounted repr dumps transient_search propose tool_defs plan plan_id
      results repair_rounds budget contracts n =
    attempt_from-IsCounted repr dumps transient_search propose plan plan_id budget
      (read_only_tool_map tool_defs)
      (local_repair_candidates repr dumps transient_search plan results contracts) repair_rounds
      results n
