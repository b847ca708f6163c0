-- ===== src/Recovery.antt =====
-- harness/core/recovery.py: results from evidence after a restart, what a revision leaves unrepaired,
-- and which repairs of one step are allowed. `action_input_signature` and `action_signature` of
-- harness/core/dag_types.py print JSON: the printer `dumps` is a parameter, as are the search of the
-- pattern of transient errors and Python's `sorted`.
pub mod Rebuild
pub mod Repair
use jagent.Base.{
  ℕ, String, Bool, true, false, not, ◌&&◌, ◌||◌, Option, none, some, List, [], ◌∷◌, ◌==◌, elem, any,
  if◌then◌else◌, Dict, lookup, insert, ltb, map, ◌-◌,
}
use jagent.Values.{Value, Fields, end, get, py_str}
use jagent.Steps.{ExecState, StepResult, new_result}
use jagent.Events.{Blueprint}
use jagent.Evidence.{Evidence, StepEvidence, str_or}
use jagent.Plan.{codes, codes_eq}

-- _EVIDENCE_STATE_MAP.get(text, ExecState.PENDING)
unfoldable pub state_from : String → ExecState
state_from t =
    if t == "completed"
    then ExecState.completed
    else if t == "idempotent"
    then ExecState.idempotent
    else if t == "unsuccessful"
    then ExecState.unsuccessful
    else if t == "failed"
    then ExecState.failed
    else if t == "skipped"
    then ExecState.skipped
    else if t == "cancelled"
    then ExecState.cancelled
    else ExecState.pending

unfoldable pub rebuilt : String → StepEvidence → StepResult
unfolding state_from
rebuilt sid ev = record (new_result sid (state_from ev.exec_state)) {
  output = ev.output;
  summary = ev.output_summary;
  error = ev.error;
  tool_call_id = ev.tool_call_id;
  probe = ev.probe;
}

-- The keys of a dict are distinct, so each assignment adds an item.
unfoldable pub rebuild_results_from_evidence : Evidence → Dict StepResult
unfolding rebuilt
rebuild_results_from_evidence [] = []
rebuild_results_from_evidence ((sid, ev) ∷ m) =
    (sid, rebuilt sid ev) ∷ rebuild_results_from_evidence m

-- {str(s["step_id"]): s for s in patch_steps if s["step_id"]}
unfoldable pub patch_by_id : Dict Blueprint → List Blueprint → Dict Blueprint
patch_by_id m [] = m
patch_by_id m (s ∷ ss) = patch_by_id (if s.step_id == "" then m else insert s.step_id s m) ss

module _ (dumps : Fields → String) (transient_search : String → Bool) where
  unfoldable pub is_transient : Option String → Bool
  is_transient none = false
  is_transient (some e) = not (e == "") && transient_search e

  -- The revision runs the same tool with the same input, or the input that ran is not known.
  unfoldable pub repeats : StepEvidence → Blueprint → Option (Option Fields) → Bool
  repeats ev patch original =
      if not (patch.tool_name == "") && not (patch.tool_name == ev.tool_name)
      then false
      else elim original [
        | some (some input) ↦
            not (not (patch.tool_name == "") && not (dumps patch.input == dumps input))
        | _ ↦ true
      ]

  -- One turn of the loop: whether the step is added to `unresolved`.
  unfoldable pub is_unresolved :
      Dict Blueprint → Dict (Option Fields) → String → StepEvidence → Bool
  unfolding is_transient repeats lookup
  is_unresolved patches original_inputs sid ev =
      if not (ev.exec_state == "unsuccessful" || ev.exec_state == "failed") || is_transient ev.error
      then false
      else elim (lookup sid patches) [
        | none ↦ true
        | some patch ↦ repeats ev patch (lookup sid original_inputs)
      ]

  unfoldable pub unresolved_from : Dict Blueprint → Dict (Option Fields) → Evidence → List String
  unfolding is_unresolved
  unresolved_from patches original_inputs [] = []
  unresolved_from patches original_inputs ((sid, ev) ∷ m) =
      let rest = unresolved_from patches original_inputs m in
      if is_unresolved patches original_inputs sid ev then sid ∷ rest else rest

  unfoldable pub unresolved_known_bad_steps :
      (List String → List String) → Evidence → List Blueprint → Dict (Option Fields) → List String
  unfolding unresolved_from patch_by_id
  unresolved_known_bad_steps sorted prev_evidence patch_steps original_inputs =
      sorted (unresolved_from (patch_by_id [] patch_steps) original_inputs prev_evidence)

  unfoldable pub classify_failure_tier : Option String → Bool → String
  unfolding is_transient
  classify_failure_tier error retryable =
      if retryable || is_transient error then "tool_retry" else "step_repair"

pub record RecoveryBudget : Type 0 where
  pub max_repair_rounds : ℕ
  pub allowed_tools : List String

pub record LocalRepairProposal : Type 0 where
  pub step_id : String
  pub tool_name : String
  pub input : Fields

-- The reasons of a RepairDecision, `allowed` for the one that allows.
pub data RepairDecision : Type 0 where
  allowed : RepairDecision
  budget_exhausted : (round max_rounds : ℕ) → RepairDecision
  empty_proposal : RepairDecision
  not_whitelisted : String → RepairDecision
  side_effecting : String → RepairDecision
  repeats_action : RepairDecision

-- text.upper() in ("GET", "HEAD"): no character outside ASCII has a capital among these letters.
upper : ℕ → ℕ
upper c = if not (ltb c 97) && ltb c 123 then c - 32 else c

unfoldable pub is_safe_method : String → Bool
unfolding codes codes_eq upper
is_safe_method method =
    codes_eq (map upper (codes method)) (codes "GET")
    || codes_eq (map upper (codes method)) (codes "HEAD")

module _ (repr : Value → String) where
  -- str(input.get(key, default))
  text_or : String → String → Fields → String
  unfolding get py_str
  text_or key default input = elim (get key input) [ none ↦ default | some v ↦ py_str repr v ]

  unfoldable pub is_read_only : String → Fields → Dict Bool → Bool
  unfolding lookup text_or is_safe_method
  is_read_only tool_name tool_input explicit = elim (lookup tool_name explicit) [
    | some b ↦ b
    | none ↦
        if tool_name == "fetch_output"
        then true
        else if tool_name == "http_request"
        then is_safe_method (text_or "method" "GET" tool_input)
        else if tool_name == "file_op"
        then elem (text_or "operation" "" tool_input) ("read" ∷ "list" ∷ [])
        else false
  ]

  unfoldable pub is_read_only_action : String → Fields → Bool
  unfolding is_read_only
  is_read_only_action tool_name tool_input = is_read_only tool_name tool_input []

  -- The signature is a pair of texts: the tool and its printed input.
  unfoldable pub validate_local_repair :
      (Fields → String)
      → LocalRepairProposal
      → ℕ
      → RecoveryBudget
      → Dict Bool
      → String × String
      → RepairDecision
  unfolding is_read_only
  validate_local_repair dumps proposal round_used budget step_tools_read_only original =
      if ltb budget.max_repair_rounds round_used
      then budget_exhausted round_used budget.max_repair_rounds
      else if proposal.tool_name == ""
      then empty_proposal
      else if not (elem proposal.tool_name budget.allowed_tools)
      then not_whitelisted proposal.tool_name
      else if not (is_read_only proposal.tool_name proposal.input step_tools_read_only)
      then side_effecting proposal.tool_name
      else if proposal.tool_name == original.0 && dumps proposal.input == original.1
      then repeats_action
      else allowed
