-- ===== src/Evidence.antt =====
-- The step evidence of harness/core/fold.py: what the events say of each step, kept apart from the
-- view that compression trims. Each function is the part of `fold_events` that writes evidence.
use jagent.Base.{
  ℕ, String, Bool, false, not, ◌&&◌, ◌||◌, Option, none, some, List, [], ◌∷◌, ◌==◌, if◌then◌else◌,
  Dict, lookup, insert,
}
use jagent.Values.{Value, null, obj, get_or_null, truthy, py_str}
use jagent.Events.{
  Blueprint, ToolCompleted, StepPayload, StepStarted, StepCompleted, StepFailed, StepSkipped,
}

pub record StepEvidence : Type 0 where
  pub step_id : String
  pub plan_id : String
  pub tool_name : String
  pub exec_state : String
  pub depends_on : List String
  pub output_summary : String
  pub error : Option String
  pub tool_call_id : Option String
  pub output_ref : Option String
  pub output : Value
  pub probe : Bool
  pub skip_reason : Option String
  pub updated_seq : ℕ

abbrev pub Evidence : Type 0
Evidence = Dict StepEvidence

-- exec_state_is_normal on the text of a state.
unfoldable pub evidence_normal : StepEvidence → Bool
evidence_normal ev =
    (ev.exec_state == "completed" || ev.exec_state == "idempotent")
    || (ev.exec_state == "unsuccessful" && ev.probe)

new_evidence : String → String → ℕ → StepEvidence
new_evidence step_id plan_id seq = record {
  step_id = step_id;
  plan_id = plan_id;
  tool_name = "";
  exec_state = "pending";
  depends_on = [];
  output_summary = "";
  error = none;
  tool_call_id = none;
  output_ref = none;
  output = null;
  probe = false;
  skip_reason = none;
  updated_seq = seq;
}

-- `a or b` on texts.
unfoldable pub str_or : String → String → String
str_or a b = if a == "" then b else a

unfoldable pub opt_or {ℓ} : {A : Type ℓ} → Option A → Option A → Option A
opt_or none b = b
opt_or (some a) b = some a

-- `x if p else y` where `p` is an optional text: the empty text is no value.
unfoldable pub opt_str_or : Option String → Option String → Option String
opt_str_or none b = b
opt_str_or (some a) b = if a == "" then b else some a

-- `_evidence(step_id, plan_id, seq)`: get or create the record of a step.
unfoldable pub evidence_of : Evidence → String → String → ℕ → StepEvidence
unfolding lookup new_evidence
evidence_of m step_id plan_id seq = elim (lookup step_id m) [
  | none ↦ new_evidence step_id plan_id seq
  | some ev ↦ if plan_id == "" then ev else record ev { plan_id = plan_id }
]

-- The states that a revision does not open again.
unfoldable pub is_finished : String → Bool
is_finished state = state == "completed" || state == "idempotent" || state == "cancelled"

-- One turn of the loop of `_apply_blueprint`.
unfoldable pub blueprint_evidence : StepEvidence → Blueprint → StepEvidence
unfolding str_or is_finished
blueprint_evidence ev s =
    let new_tool = str_or s.tool_name ev.tool_name in
    let tool_changed =
      not (ev.tool_name == "")
      && not (new_tool == ev.tool_name)
      && not (ev.exec_state == "pending") in
    let updated = record ev { tool_name = new_tool; depends_on = s.depends_on; probe = s.probe } in
    if tool_changed && not (is_finished ev.exec_state)
    then record updated {
      exec_state = "pending";
      error = none;
      output_summary = "";
      tool_call_id = none;
    }
    else updated

unfoldable pub apply_blueprint : List Blueprint → String → ℕ → Evidence → Evidence
unfolding evidence_of blueprint_evidence
apply_blueprint [] plan_id seq m = m
apply_blueprint (s ∷ ss) plan_id seq m = apply_blueprint ss plan_id seq (
    if s.step_id == ""
    then m
    else insert s.step_id (blueprint_evidence (evidence_of m s.step_id plan_id seq) s) m)

-- `isinstance(p.output, dict) and p.output.get("ref") and p.output.get("sha256")`
blob_ref : (Value → String) → Value → Option String → Option String
unfolding get_or_null truthy py_str
blob_ref repr (obj fs) old =
    if truthy (get_or_null "ref" fs) && truthy (get_or_null "sha256" fs)
    then some (py_str repr (get_or_null "ref" fs))
    else old
blob_ref repr _ old = old

-- The output of a tool call that names its step.
unfoldable pub tool_evidence : (Value → String) → ToolCompleted → ℕ → Evidence → Evidence
unfolding evidence_of str_or blob_ref
tool_evidence repr p seq m = elim p.step_id [
  | none ↦ m
  | some sid ↦
      let ev = evidence_of m sid "" seq in
      let updated = record ev {
        output = p.output;
        tool_name = str_or p.tool_name ev.tool_name;
        tool_call_id = if p.tool_call_id == "" then ev.tool_call_id else some p.tool_call_id;
        output_ref = blob_ref repr p.output ev.output_ref;
      } in
      if sid == "" then m else insert sid updated m
]

or_list : List String → List String → List String
or_list [] old = old
or_list (d ∷ ds) old = d ∷ ds

unfoldable pub started_evidence : StepStarted → ℕ → StepEvidence → StepEvidence
unfolding str_or or_list
started_evidence p seq ev = record ev {
  exec_state =
      if ev.exec_state == "pending" || ev.exec_state == "" then "running" else ev.exec_state;
  tool_name = str_or p.tool_name ev.tool_name;
  depends_on = or_list p.depends_on ev.depends_on;
  updated_seq = seq;
}

unfoldable pub completed_evidence : StepCompleted → ℕ → StepEvidence → StepEvidence
unfolding str_or opt_str_or
completed_evidence p seq ev = record ev {
  exec_state = str_or p.status "completed";
  output_summary = str_or p.output_summary ev.output_summary;
  error = opt_str_or p.error ev.error;
  tool_call_id = opt_str_or p.tool_call_id ev.tool_call_id;
  updated_seq = seq;
}

unfoldable pub failed_evidence : StepFailed → ℕ → StepEvidence → StepEvidence
unfolding str_or opt_str_or
failed_evidence p seq ev = record ev {
  exec_state = "failed";
  error = some p.error;
  tool_name = str_or p.tool_name ev.tool_name;
  tool_call_id = opt_str_or p.tool_call_id ev.tool_call_id;
  updated_seq = seq;
}

unfoldable pub skipped_evidence : StepSkipped → ℕ → StepEvidence → StepEvidence
unfolding str_or
skipped_evidence p seq ev = record ev {
  exec_state = "skipped";
  skip_reason = some p.reason;
  tool_name = str_or p.tool_name ev.tool_name;
  updated_seq = seq;
}

unfoldable pub step_evidence : StepPayload → ℕ → Evidence → Evidence
unfolding evidence_of started_evidence completed_evidence failed_evidence skipped_evidence
step_evidence (StepPayload.started p) seq m =
    insert p.step_id (started_evidence p seq (evidence_of m p.step_id p.plan_id seq)) m
step_evidence (StepPayload.completed p) seq m =
    insert p.step_id (completed_evidence p seq (evidence_of m p.step_id p.plan_id seq)) m
step_evidence (StepPayload.failed p) seq m =
    insert p.step_id (failed_evidence p seq (evidence_of m p.step_id p.plan_id seq)) m
step_evidence (StepPayload.skipped p) seq m =
    insert p.step_id (skipped_evidence p seq (evidence_of m p.step_id p.plan_id seq)) m
