-- ===== src/Guardrails/Dependencies.antt =====
-- The prerequisites of a tool among the events of its run: event_matches of harness/models/events.py
-- and DependencyGuardrail.
use jagent.Base.{
  String, Bool, true, false, ◌&&◌, Option, none, some, List, [], ◌∷◌, ◌==◌, any, concat,
  if◌then◌else◌, Dict, lookup, Result, ok, err, ◌>>=◌,
}
use jagent.Values.{
  Value, Fields, field, end, arr, nil, str, get_or_null, get_or, eq, list_of, py_str, value_or,
  truthy,
}
use jagent.Events.{
  Event, Payload, RunPayload, PlanPayload, StepPayload, ToolPayload, ConfirmationPayload,
  ContextPayload,
}
use jagent.EventLog.{type_of, get_events}
use jagent.Tools.{DependencyConstraint, ToolDefinition}
use jagent.Retry.{Raised}
use jagent.Guardrails.{GuardrailResult, pass, fail, Checks}

-- payload.get("phase")
unfoldable pub run_phase : RunPayload → String
run_phase (RunPayload.started p) = "started"
run_phase (RunPayload.paused reason) = "paused"
run_phase (RunPayload.resumed seq) = "resumed"
run_phase (RunPayload.completed p) = "completed"
run_phase (RunPayload.failed p) = "failed"
run_phase (RunPayload.orphaned reason) = "orphaned"

unfoldable pub tool_phase : ToolPayload → String
tool_phase (ToolPayload.called p) = "called"
tool_phase (ToolPayload.completed p) = "completed"
tool_phase (ToolPayload.failed id name error) = "failed"
tool_phase (ToolPayload.timeout id name ms) = "timeout"
tool_phase (ToolPayload.blocked id name guardrail reason) = "blocked"
tool_phase (ToolPayload.output_stored ref sha256) = "output_stored"

unfoldable pub phase_of : Payload → Option String
unfolding run_phase tool_phase
phase_of (Payload.run p) = some (run_phase p)
phase_of (Payload.tool p) = some (tool_phase p)
phase_of (Payload.confirmation p) = some (elim p [
  | ConfirmationPayload.requested q ↦ "requested"
  | ConfirmationPayload.received id confirmed ↦ "received"
])
phase_of (Payload.context p) = some (elim p [
  | ContextPayload.checkpointed seq ↦ "checkpointed"
  | ContextPayload.archived episode keep refs ↦ "archived"
  | ContextPayload.pruned refs ↦ "pruned"
])
phase_of (Payload.plan p) = some (elim p [
  | PlanPayload.created q ↦ "created"
  | PlanPayload.revised q ↦ "revised"
  | PlanPayload.completed id summary ↦ "completed"
  | PlanPayload.failed id error ↦ "failed"
])
phase_of (Payload.step p) = some (elim p [
  | StepPayload.started q ↦ "started"
  | StepPayload.completed q ↦ "completed"
  | StepPayload.failed q ↦ "failed"
  | StepPayload.skipped q ↦ "skipped"
])
phase_of (Payload.step_repair phase) = some phase
phase_of (Payload.diagnostic phase) = some phase
phase_of (Payload.conversation phase) = some phase
phase_of (Payload.workspace phase) = some phase
phase_of _ = none

-- _LEGACY_PHASE_NAMES
abbrev legacy_phase_names : Dict (String × String)
legacy_phase_names =
    ("RunStarted", ("Run", "started"))
    ∷ ("RunPaused", ("Run", "paused"))
    ∷ ("RunResumed", ("Run", "resumed"))
    ∷ ("RunCompleted", ("Run", "completed"))
    ∷ ("RunFailed", ("Run", "failed"))
    ∷ ("RunOrphaned", ("Run", "orphaned"))
    ∷ ("PlanCreated", ("Plan", "created"))
    ∷ ("PlanRevised", ("Plan", "revised"))
    ∷ ("PlanCompleted", ("Plan", "completed"))
    ∷ ("PlanFailed", ("Plan", "failed"))
    ∷ ("DagStepStarted", ("Step", "started"))
    ∷ ("DagStepCompleted", ("Step", "completed"))
    ∷ ("DagStepFailed", ("Step", "failed"))
    ∷ ("DagStepSkipped", ("Step", "skipped"))
    ∷ ("StepLocalRepairStarted", ("StepRepair", "started"))
    ∷ ("StepLocalRepairCompleted", ("StepRepair", "completed"))
    ∷ ("ToolCalled", ("Tool", "called"))
    ∷ ("ToolCompleted", ("Tool", "completed"))
    ∷ ("ToolFailed", ("Tool", "failed"))
    ∷ ("ToolTimeout", ("Tool", "timeout"))
    ∷ ("GuardrailTriggered", ("Tool", "blocked"))
    ∷ ("OutputBlobStored", ("Tool", "output_stored"))
    ∷ ("ConfirmationRequested", ("Confirmation", "requested"))
    ∷ ("ConfirmationReceived", ("Confirmation", "received"))
    ∷ ("ContextCheckpointed", ("Context", "checkpointed"))
    ∷ ("EpisodeArchived", ("Context", "archived"))
    ∷ ("ContextPruned", ("Context", "pruned"))
    ∷ ("ConversationStarted", ("Conversation", "started"))
    ∷ ("ConversationMessage", ("Conversation", "message"))
    ∷ ("WorkspaceCreated", ("Workspace", "created"))
    ∷ ("WorkspaceUpdated", ("Workspace", "updated"))
    ∷ ("WorkspaceDeleted", ("Workspace", "deleted"))
    ∷ ("LateEventRejected", ("Diagnostic", "late_event_rejected"))
    ∷ ("PhaseTimedOut", ("Diagnostic", "phase_timeout"))
    ∷ ("TaskCleanupTimeout", ("Diagnostic", "cleanup_timeout"))
    ∷ []

-- event_matches
unfoldable pub event_matches : Payload → String → Bool
unfolding lookup phase_of type_of
event_matches payload spec =
    if type_of payload == spec then true else elim (lookup spec legacy_phase_names) [
      | none ↦ false
      | some (aggregate, phase) ↦
          type_of payload == aggregate
          && elim (phase_of payload) [ none ↦ false | some p ↦ p == phase ]
    ]

-- all(payload.get(k) == v for k, v in filter_.items())
unfoldable pub matches_payload : Fields → Fields → Bool
unfolding eq get_or_null
matches_payload payload end = true
matches_payload payload (field k v rest) =
    eq (get_or_null k payload) v && matches_payload payload rest

module _ (checks : Checks) where
  -- [DependencyConstraint(event_type=ev) for ev in required]
  unfoldable pub legacy_constraints : List Value → Result Raised (List DependencyConstraint)
  legacy_constraints [] = ok []
  legacy_constraints (v ∷ vs) = elim v [
    | str ev ↦ legacy_constraints vs >>= λ rest.
        ok (record { event_type = ev; payload_filter = end; message = "" } ∷ rest)
    | w ↦ err (checks.type_error w)
  ]

  -- DependencyGuardrail._resolve_constraints
  unfoldable pub resolve_constraints :
      ToolDefinition → Fields → Result Raised (List DependencyConstraint)
  unfolding legacy_constraints list_of get_or
  resolve_constraints tool config = elim tool.depends_on [
    | c ∷ cs ↦ ok (c ∷ cs)
    | [] ↦
        let required = get_or "required_events" (arr nil) config in
        elim (list_of required) [
          | none ↦ err (checks.type_error required)
          | some evs ↦ legacy_constraints evs
        ]
  ]

  unfoldable pub is_met : List Event → DependencyConstraint → Bool
  unfolding event_matches matches_payload
  is_met events c =
      any
        (λ e.
          event_matches e.payload c.event_type
          && matches_payload (checks.dump e.payload) c.payload_filter)
        events

  -- The loop over the constraints.
  unfoldable pub all_met : List Event → List DependencyConstraint → GuardrailResult
  unfolding is_met pass fail concat
  all_met events [] = pass "dependency"
  all_met events (c ∷ cs) =
      if is_met events c
      then all_met events cs
      else fail "dependency" (
          if c.message == ""
          then concat ("Prerequisite event '" ∷ c.event_type ∷ "' not found" ∷ [])
          else c.message)

  -- run_id or config.get("run_id", "")
  unfoldable pub run_of : String → Fields → Value
  unfolding value_or get_or
  run_of run_id config = value_or (str run_id) (get_or "run_id" (str "") config)

  -- DependencyGuardrail.check, with a store.
  unfoldable pub dependency_check :
      List Event → String → ToolDefinition → Fields → Result Raised GuardrailResult
  unfolding resolve_constraints all_met get_events run_of truthy py_str pass
  dependency_check rows run_id tool config = resolve_constraints tool config >>= λ constraints.
      let rid = run_of run_id config in
      if truthy rid
      then ok (all_met (get_events (py_str checks.repr rid) rows) constraints)
      else ok (pass "dependency")
