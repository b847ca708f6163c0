-- ===== src/LocalRepair.antt =====
-- harness/core/scheduler/local_repair.py: one round of repair for a failed step, tried before the whole
-- plan is revised. The planner is a parameter, which gives no proposal where the source's fails, as are
-- the printer `dumps` and the search of the pattern of transient errors. The configured number of rounds
-- is not negative. The texts of reasons are data, and the traces are left out.
pub mod Candidates
pub mod Eligible
pub mod Rounds
pub mod Sound
use jagent.Base.{
  ℕ, ◌+◌, ◌-◌, String, Bool, true, false, not, ◌&&◌, ◌||◌, Option, none, some, List, [], ◌∷◌, map,
  max, any, all, filter, elem, nat_eq, ltb, ◌==◌, if◌then◌else◌, Dict, lookup, lookup_or, insert,
  remove,
}
use jagent.Values.{Value, Fields}
use jagent.Steps.{ExecState, StepResult, step_normal}
use jagent.Plan.{DagStep, DagPlan, codes, step_satisfies}
use jagent.Contracts.{DeliveryContract}
use jagent.Tools.{SideEffect, OperationContract, ToolDefinition}
use jagent.LocalRepair.Candidates.{sort_by, read_only_tool_map, local_repair_candidates}
use jagent.Recovery.{
  classify_failure_tier, RecoveryBudget, LocalRepairProposal, RepairDecision, allowed,
  validate_local_repair,
}

-- frozenset(names)
distinct : List String → List String
unfolding elem
distinct [] = []
distinct (n ∷ ns) = let rest = distinct ns in if elem n rest then rest else n ∷ rest

-- `_local_repair_budget`
unfoldable pub local_repair_budget : Bool → ℕ → List ToolDefinition → Option RecoveryBudget
unfolding distinct
local_repair_budget enabled max_rounds tool_defs =
    if enabled
    then some (record {
      max_repair_rounds = max 1 max_rounds;
      allowed_tools = distinct (map (λ td. td.name) tool_defs);
    })
    else none

pub data RepairOutcome : Type 0 where
  accepted rejected exhausted : RepairOutcome

-- The texts of `reason`.
pub data RepairReason : Type 0 where
  no_tool_available no_proposal within_budget : RepairReason
  refused_because : RepairDecision → RepairReason

pub record RepairStarted : Type 0 where
  pub step_id : String
  pub plan_id : String
  pub repair_round : ℕ
  pub budget_remaining : ℕ
  pub step_tool : String
  pub error : Option String
  pub tool_whitelist : List String

pub record RepairCompleted : Type 0 where
  pub step_id : String
  pub plan_id : String
  pub repair_round : ℕ
  pub outcome : RepairOutcome
  pub tool_name : String
  pub error : Option String
  pub proposed_tool : String
  pub reason : RepairReason

pub data RepairEvent : Type 0 where
  repair_started : RepairStarted → RepairEvent
  repair_completed : RepairCompleted → RepairEvent

-- What is made of a proposal.
pub data Round : Type 0 where
  replaced : LocalRepairProposal → Round
  turned_down : RepairOutcome → (proposed_tool : String) → RepairReason → Round

unfoldable pub by_decision : LocalRepairProposal → RepairDecision → Round
by_decision proposal allowed = replaced proposal
by_decision proposal d = turned_down rejected proposal.tool_name (refused_because d)

-- A patched plan, None, or the KeyError of results[step.id].
pub data Attempt : Type 0 where
  repaired : DagPlan → Attempt
  escalated : Attempt
  key_error : String → Attempt

pub record Repairing : Type 0 where
  pub attempt : Attempt
  pub repair_rounds : Dict ℕ
  pub results : Dict StepResult
  pub events : List RepairEvent

unfoldable pub put_event : RepairEvent → Repairing → Repairing
put_event e a = record a { events = e ∷ a.events }

-- One step of the patched copy.
unfoldable pub with_action : String → LocalRepairProposal → DagStep → DagStep
with_action sid proposal s =
    if s.id == sid then record s { tool = proposal.tool_name; input = proposal.input } else s

unfoldable pub replace_action : String → LocalRepairProposal → List DagStep → List DagStep
unfolding with_action
replace_action sid proposal steps = map (with_action sid proposal) steps

module _ (repr : Value → String) (dumps : Fields → String) (transient_search : String → Bool) where
  module _ (propose : DagStep → Option String → List String → Option LocalRepairProposal)
      (plan : DagPlan) (plan_id : String) (budget : RecoveryBudget) (ro_tools : Dict Bool) where
    unfoldable pub whitelist : List String
    unfolding sort_by
    whitelist = sort_by (λ t. t) budget.allowed_tools

    unfoldable pub weigh_proposal : DagStep → ℕ → LocalRepairProposal → Round
    unfolding validate_local_repair by_decision
    weigh_proposal s used proposal = by_decision proposal (
        validate_local_repair repr dumps proposal (used + 1) budget ro_tools
          (s.tool, dumps s.input))

    -- One round for a step, from the proposal on.
    unfoldable pub round_of : DagStep → ℕ → Option String → Round
    unfolding weigh_proposal whitelist
    round_of s used error = elim budget.allowed_tools [
      | [] ↦ turned_down exhausted "" no_tool_available
      | _ ∷ _ ↦ elim (propose s error whitelist) [
        | none ↦ turned_down rejected "" no_proposal
        | some proposal ↦ weigh_proposal s used proposal
      ]
    ]

    unfoldable pub round_started : DagStep → ℕ → Option String → RepairEvent
    unfolding whitelist
    round_started s used error = repair_started (record {
      step_id = s.id;
      plan_id = plan_id;
      repair_round = used + 1;
      budget_remaining = budget.max_repair_rounds - used - 1;
      step_tool = s.tool;
      error = error;
      tool_whitelist = whitelist;
    })

    unfoldable pub round_completed :
        DagStep → ℕ → Option String → RepairOutcome → String → RepairReason → RepairEvent
    round_completed s used error outcome proposed_tool reason = repair_completed (record {
      step_id = s.id;
      plan_id = plan_id;
      repair_round = used + 1;
      outcome = outcome;
      tool_name = s.tool;
      error = error;
      proposed_tool = proposed_tool;
      reason = reason;
    })

    -- What follows a round: the next step, or the patched plan.
    unfoldable pub settle :
        DagStep → ℕ → Option String → Dict ℕ → Dict StepResult → Repairing → Round → Repairing
    unfolding remove round_completed put_event replace_action
    settle s used error rounds results next (turned_down outcome proposed_tool reason) =
        put_event (round_completed s used error outcome proposed_tool reason) next
    settle s used error rounds results next (replaced proposal) = record {
      attempt = repaired (record plan { steps = replace_action s.id proposal plan.steps });
      repair_rounds = rounds;
      results = remove s.id results;
      events = round_completed s used error accepted proposal.tool_name within_budget ∷ [];
    }

    -- The loop over the candidates.
    unfoldable pub attempt_from : List DagStep → Dict ℕ → Dict StepResult → Repairing
    unfolding lookup lookup_or insert round_of round_started settle put_event
    attempt_from [] rounds results = record {
      attempt = escalated;
      repair_rounds = rounds;
      results = results;
      events = [];
    }
    attempt_from (s ∷ ss) rounds results =
        let used = lookup_or s.id 0 rounds in
        let counted = insert s.id (used + 1) rounds in
        elim (ltb used budget.max_repair_rounds) [
          | false ↦ attempt_from ss rounds results
          | true ↦ elim (lookup s.id results) [
            | none ↦ record {
              attempt = key_error s.id;
              repair_rounds = rounds;
              results = results;
              events = [];
            }
            | some r ↦ put_event (round_started s used r.error) (
                settle s used r.error counted results (attempt_from ss counted results)
                  (round_of s used r.error))
          ]
        ]

  -- `_attempt_step_local_repair`
  unfoldable pub attempt_step_local_repair :
      (DagStep → Option String → List String → Option LocalRepairProposal)
      → List ToolDefinition
      → DagPlan
      → String
      → Dict StepResult
      → Dict ℕ
      → RecoveryBudget
      → List DeliveryContract
      → Repairing
  unfolding attempt_from local_repair_candidates read_only_tool_map
  attempt_step_local_repair propose tool_defs plan plan_id results repair_rounds budget contracts =
      attempt_from propose plan plan_id budget (read_only_tool_map tool_defs)
        (local_repair_candidates repr dumps transient_search plan results contracts) repair_rounds
        results
