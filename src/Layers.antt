-- ===== src/Layers.antt =====
-- `_execute_layer` of harness/core/dag_executor.py: the gate, the events and the results of a layer.
-- The events are the payloads that it appends to the store, in order.
pub mod Agree
pub mod Sync
pub mod Inserts
pub mod Effects
use jagent.Base.{
  ℕ, String, Bool, true, false, not, ◌&&◌, ◌||◌, Option, none, some, List, [], ◌∷◌, ◌++◌, ◌==◌,
  elem, map, filter, if◌then◌else◌, Dict, lookup, insert, Result, ok, err,
}
use jagent.Steps.{ExecState, StepResult, new_result, is_completed, is_unsuccessful}
use jagent.Plan.{DagStep, DagPlan}
use jagent.Plan.Toposort.{step_map}
use jagent.Events.{StepPayload, StepStarted, StepCompleted, StepFailed, StepSkipped}
use jagent.Executor.{
  Environment, StepError, CallError, exception, base_exception, layer_raised, gate_skip_reason,
  execute_step,
}

pub record LayerState : Type 0 where
  pub results : Dict StepResult
  pub events : List StepPayload
  pub to_skip : List String
  pub any_failed : Bool
  pub pending_confirmations : List (String × String)
  -- the BaseException that stopped the recording, by its text
  pub propagated : Option String

-- A BaseException of a step is raised again, or `PlanSuspended` is raised, or the layer returns whether
-- all its steps ended without a failure.
pub data Outcome : Type 0 where
  raised : String → Outcome
  suspended : List (String × String) → Outcome
  finished : Bool → Outcome

module _ (env : Environment) (plan : DagPlan) (plan_id : String) where
  -- step_map.get(sid, DagStep(id=sid)).tool
  tool_of : String → String
  unfolding lookup step_map
  tool_of sid = elim (lookup sid (step_map plan.steps)) [ none ↦ "" | some s ↦ s.tool ]

  skipped_event : String → String → String → StepPayload
  skipped_event sid reason tool =
      StepPayload.skipped
        (record { plan_id = plan_id; step_id = sid; reason = reason; tool_name = tool })

  -- The result, and the event that records it.
  store_result : String → StepResult → StepPayload → LayerState → LayerState
  store_result sid r event s = record s {
    results = insert sid r s.results;
    events = s.events ++ event ∷ [];
  }

  gate_result : String → DagStep → String → StepResult
  gate_result sid step reason = record (new_result sid ExecState.skipped) {
    error = some reason;
    probe = step.probe;
  }

  -- Phase 1: the gate.
  unfoldable pub gate_one : String → LayerState → LayerState
  unfolding gate_skip_reason store_result gate_result skipped_event lookup step_map
  gate_one sid s = elim (lookup sid (step_map plan.steps)) [
    | none ↦ s
    | some step ↦ elim (gate_skip_reason env.setting.show step.depends_on s.results) [
      | none ↦ s
      | some reason ↦
          record (store_result sid (gate_result sid step reason)
            (skipped_event sid reason step.tool) s) { to_skip = sid ∷ s.to_skip }
    ]
  ]

  unfoldable pub gate_all : List String → LayerState → LayerState
  gate_all [] s = s
  gate_all (sid ∷ layer) s = gate_all layer (gate_one sid s)

  -- Phase 1.5: a started event for each step that will run.
  unfoldable pub start_one : String → LayerState → LayerState
  unfolding lookup step_map
  start_one sid s = elim (lookup sid (step_map plan.steps)) [
    | none ↦ s
    | some step ↦ record s {
      events =
          s.events
          ++ StepPayload.started (record {
            plan_id = plan_id;
            step_id = sid;
            tool_name = step.tool;
            depends_on = step.depends_on;
          })
            ∷ [];
    }
  ]

  unfoldable pub start_all : List String → LayerState → LayerState
  start_all [] s = s
  start_all (sid ∷ layer) s = start_all layer (start_one sid s)

  completed_event : String → StepResult → String → Option String → StepPayload
  completed_event sid r status error = StepPayload.completed (record {
    plan_id = plan_id;
    step_id = sid;
    output_summary = r.summary;
    status = status;
    error = error;
    tool_call_id = r.tool_call_id;
  })

  failed_event : String → StepResult → String → StepPayload
  unfolding tool_of
  failed_event sid r error = StepPayload.failed (record {
    plan_id = plan_id;
    step_id = sid;
    error = error;
    retryable = r.retryable;
    tool_name = tool_of sid;
    tool_call_id = r.tool_call_id;
  })

  -- `raw.error or default`
  error_or : StepResult → String → String
  error_or r default = elim r.error [ none ↦ default | some e ↦ if e == "" then default else e ]

  -- The last two branches: a late skip, and a failure.
  record_rest : String → StepResult → LayerState → LayerState
  unfolding store_result skipped_event tool_of failed_event error_or
  record_rest sid r s = elim r.exec_state [
    | ExecState.skipped ↦
        store_result sid r (skipped_event sid (error_or r "dep_not_normal") (tool_of sid)) s
    | _ ↦ record (store_result sid r (failed_event sid r (error_or r "unknown")) s) {
      any_failed = true;
    }
  ]

  -- A step that waits for a confirmation has a result and no event.
  record_waiting : String → StepResult → LayerState → LayerState
  unfolding record_rest
  record_waiting sid r s = elim r.confirmation_id [
    | none ↦ record_rest sid r s
    | some cid ↦ record s {
      results = insert sid r s.results;
      pending_confirmations = s.pending_confirmations ++ (sid, cid) ∷ [];
    }
  ]

  unfoldable pub record_result : String → StepResult → LayerState → LayerState
  unfolding store_result completed_event record_waiting
  record_result sid r s = elim r.exec_state [
    | ExecState.completed ↦ store_result sid r (completed_event sid r "completed" none) s
    | ExecState.idempotent ↦ store_result sid r (completed_event sid r "idempotent" none) s
    | ExecState.unsuccessful ↦ store_result sid r (completed_event sid r "unsuccessful" r.error) s
    | _ ↦ record_waiting sid r s
  ]

  -- Phase 3, one step: an Exception of the call is a failure of the step, and any other is to be raised
  -- again.
  unfoldable pub record_one : String → Result CallError StepResult → LayerState → LayerState
  unfolding record_result store_result failed_event
  record_one sid (ok r) s = record_result sid r s
  record_one sid (err (base_exception text)) s = record s { propagated = some text }
  record_one sid (err (exception text)) s =
      let error = env.setting.show (layer_raised text) in
      let r = record (new_result sid ExecState.failed) { error = some error } in
      record (store_result sid r (failed_event sid r error) s) { any_failed = true }

  -- All steps run on the results from before phase 3. What is raised again ends the loop.
  unfoldable pub record_all : Dict StepResult → List String → LayerState → LayerState
  unfolding execute_step
  record_all before [] s = s
  record_all before (sid ∷ layer) s =
      let next = record_one sid (execute_step env plan before sid) s in
      elim next.propagated [ none ↦ record_all before layer next | some text ↦ next ]

  unfoldable pub outcome_of : LayerState → Outcome
  outcome_of s = elim s.propagated [
    | some text ↦ raised text
    | none ↦ elim s.pending_confirmations [
      | [] ↦ finished (not s.any_failed)
      | c ∷ cs ↦ suspended (c ∷ cs)
    ]
  ]

  -- The state after the gate.
  abbrev pub gated : List String → Dict StepResult → LayerState
  gated layer results = gate_all layer (record {
    results = results;
    events = [];
    to_skip = [];
    any_failed = false;
    pending_confirmations = [];
    propagated = none;
  })

  -- [sid for sid in layer if sid not in to_skip]
  abbrev pub exec_layer_of : List String → Dict StepResult → List String
  exec_layer_of layer results = filter (λ sid. not (elem sid (gated layer results).to_skip)) layer

  -- The state after the three phases.
  unfoldable pub execute_layer : List String → Dict StepResult → LayerState
  unfolding gate_all start_all record_all
  execute_layer layer results =
      record_all (gated layer results).results (exec_layer_of layer results)
        (start_all (exec_layer_of layer results) (gated layer results))
