-- ===== src/Examples/Repairing.antt =====
-- A fetch that failed, and its repair.
use jagent.Base.{String, false, Option, some, List, [], ◌∷◌, Dict, ◌≡◌, refl}
use jagent.Values.{Fields, field, end, str, eq}
use jagent.Steps.{ExecState, StepResult, new_result}
use jagent.Plan.{DagStep, paths_equivalent}
use jagent.Tools.{ToolDefinition}
use jagent.Recovery.{RecoveryBudget, LocalRepairProposal}
use jagent.LocalRepair.Candidates.{read_only_tool_map}
use jagent.LocalRepair.{Repairing, repaired, attempt_step_local_repair}
use jagent.LocalRepair.Rounds.{IsCounted, attempt_step_local_repair-IsCounted}
use jagent.LocalRepair.Sound.{IsSafe, attempt_step_local_repair-IsSafe}
use jagent.Examples.Plans.{fetch, save, fetch_and_save, plan_of, no_repr}
use jagent.Examples.Gate.{saved}
use jagent.Examples.Running.{http}

abbrev dumps : Fields → String
dumps end = "{}"
dumps (field k v fs) = k

-- Both steps failed, but the save is bound to the contract.
abbrev results : Dict StepResult
results = ("s1", new_result "s1" ExecState.failed) ∷ ("s2", new_result "s2" ExecState.failed) ∷ []

abbrev tools : List ToolDefinition
tools = http ∷ record http { name = "file_op" } ∷ []

abbrev budget : RecoveryBudget
budget = record { max_repair_rounds = 2; allowed_tools = "http_request" ∷ "file_op" ∷ [] }

abbrev mirror : Fields
mirror = field "url" (str "mirror") end

abbrev propose : DagStep → Option String → List String → Option LocalRepairProposal
propose s error names = some (record { step_id = s.id; tool_name = "http_request"; input = mirror })

abbrev attempted : Repairing
attempted =
    attempt_step_local_repair no_repr dumps (λ e. false) propose tools fetch_and_save "p1" results
      [] budget (saved ∷ [])

attempt_step_local_repair-IsSafe_example :
    IsSafe no_repr dumps
      (λ e. false)
      fetch_and_save
      results
      (saved ∷ [])
      budget
      (read_only_tool_map tools)
      attempted.attempt
      attempted.results
attempt_step_local_repair-IsSafe_example =
    attempt_step_local_repair-IsSafe no_repr dumps (λ e. false) propose tools fetch_and_save "p1"
      results [] budget (saved ∷ [])

attempt_step_local_repair-IsCounted_example : IsCounted 2 [] attempted "s1"
attempt_step_local_repair-IsCounted_example =
    attempt_step_local_repair-IsCounted no_repr dumps (λ e. false) propose tools fetch_and_save "p1"
      results [] budget (saved ∷ []) "s1"

-- The fetch is sent to the mirror, in its first round.
repaired_lem :
    (attempted.attempt ≡ repaired (plan_of (save ∷ record fetch { input = mirror } ∷ [])))
    × (attempted.repair_rounds ≡ ("s1", 1) ∷ [])
unfolding attempt_step_local_repair eq paths_equivalent
repaired_lem = (refl, refl)
