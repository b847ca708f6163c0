-- ===== src/Examples/Recovering.antt =====
-- A restart after a layer, a repair, and a revision after a failure.
use jagent.Base.{
  String, true, false, none, some, List, [], ◌∷◌, ◌≡◌, ◌↔◌, refl, elem, length, lookup,
}
use jagent.Values.{Fields, end, field, str}
use jagent.Steps.{ExecState, StepResult, new_result, should_not_rerun}
use jagent.Events.{Blueprint}
use jagent.Evidence.{StepEvidence}
use jagent.Layers.{execute_layer, gate_one, record_one, start_one}
use jagent.Layers.Agree.{evidence_after, is_settled}
use jagent.Recovery.{
  rebuild_results_from_evidence, unresolved_known_bad_steps, patch_by_id, RecoveryBudget,
  LocalRepairProposal, allowed, is_read_only, validate_local_repair,
}
use jagent.Recovery.Rebuild.{execute_layer-rebuilt}
use jagent.Recovery.Repair.{unresolved_known_bad_steps-nil_iff, AllAddressed}
use jagent.Examples.Plans.{fetch_and_save, no_repr}
use jagent.Examples.Running.{env, nothing_known}

fetched : StepResult
fetched = record (new_result "s1" ExecState.completed) {
  output = str "body";
  summary = "body";
  tool_call_id = some "call-1";
}

execute_layer-rebuilt_example :
    (q : StepResult) × (lookup "s1" (
        rebuild_results_from_evidence
          (evidence_after (execute_layer env fetch_and_save "p1" ("s1" ∷ []) []).events 1 []))
      ≡ some q)
    × (q.exec_state ≡ ExecState.completed)
    × (should_not_rerun q ≡ should_not_rerun fetched)
unfolding execute_layer lookup elem gate_one record_one start_one fetched is_settled
execute_layer-rebuilt_example =
    execute_layer-rebuilt env fetch_and_save "p1" ("s1" ∷ []) [] 1 [] "s1" fetched nothing_known
      refl refl

-- The evidence of a probe that was unsuccessful.
abbrev probed : StepEvidence
probed = record {
  step_id = "s1";
  plan_id = "p1";
  tool_name = "http_request";
  exec_state = "unsuccessful";
  depends_on = [];
  output_summary = "";
  error = some "not found";
  tool_call_id = none;
  output_ref = none;
  output = str "";
  probe = true;
  skip_reason = none;
  updated_seq = 3;
}

abbrev budget : RecoveryBudget
budget = record { max_repair_rounds = 2; allowed_tools = "file_op" ∷ [] }

abbrev read_it : LocalRepairProposal
read_it = record {
  step_id = "s1";
  tool_name = "file_op";
  input = field "operation" (str "read") end;
}

-- A printer for the inputs of this example.
abbrev dumps : Fields → String
dumps end = "{}"
dumps (field k v fs) = "input"

-- This repair is allowed.
repair_lem : validate_local_repair no_repr dumps read_it 1 budget [] ("file_op", "{}") ≡ allowed
unfolding validate_local_repair elem is_read_only lookup
repair_lem = refl

abbrev other_tool : Blueprint
other_tool = record {
  step_id = "s1";
  tool_name = "browser";
  input = end;
  depends_on = [];
  description = "";
  probe = false;
}

same_length : (xs : List String) → length xs ≡ length xs
same_length xs = refl

unresolved_known_bad_steps-nil_iff_example :
    (unresolved_known_bad_steps dumps
        (λ e. false)
        (λ xs. xs)
        (("s1", probed) ∷ [])
        (other_tool ∷ [])
        []
      ≡ [])
    ↔ AllAddressed dumps (λ e. false) (patch_by_id [] (other_tool ∷ [])) [] (("s1", probed) ∷ [])
unresolved_known_bad_steps-nil_iff_example =
    unresolved_known_bad_steps-nil_iff dumps (λ e. false) (λ xs. xs) (("s1", probed) ∷ [])
      (other_tool ∷ []) [] same_length
