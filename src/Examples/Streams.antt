-- ===== src/Examples/Streams.antt =====
-- Event streams of a run, folded.
use jagent.Base.{
  ℕ, String, false, none, List, [], ◌∷◌, ◌≡◌, refl, In, here, there, Result, ok, err, insert,
  lookup,
}
use jagent.Values.{end}
use jagent.Events.{Event, Payload, Blueprint, StepPayload, ContextPayload, PlanPayload}
use jagent.Evidence.{evidence_of, step_evidence, apply_blueprint, is_finished}
use jagent.RunState.{RunState, new_state}
use jagent.Fold.{FoldError, apply, apply_plan, fold_from, fold_events}
use jagent.Fold.Compression.{without_context, is_context, fold_events-without_context}
use jagent.Fold.Finished.{HasState, IsAbout, finished_stays}
use jagent.Examples.Plans.{no_repr}

abbrev event : ℕ → Payload → Event
event seq p = record {
  run_id = "r1";
  seq = seq;
  payload = p;
  idempotency_key = none;
  tenant_id = "default";
  workspace_id = none;
}

abbrev blueprint : String → Blueprint
blueprint tool = record {
  step_id = "s1";
  tool_name = tool;
  input = end;
  depends_on = [];
  description = "";
  probe = false;
}

abbrev planned : Event
planned = event 1 (
    Payload.plan (
      PlanPayload.created (record {
        plan_id = "p1";
        intent = "";
        steps_summary = "";
        layer_count = 1;
        steps = blueprint "http_request" ∷ [];
      })))

abbrev finished : Event
finished = event 2 (
    Payload.step (
      StepPayload.completed (record {
        plan_id = "p1";
        step_id = "s1";
        output_summary = "ok";
        status = "completed";
        error = none;
        tool_call_id = none;
      })))

-- A revision that changes the tool of the finished step.
abbrev revised : Event
revised = event 3 (
    Payload.plan (
      PlanPayload.revised (record {
        plan_id = "p1";
        revision_reason = "";
        intent = "";
        remaining_steps_summary = "";
        steps = blueprint "browser" ∷ [];
        step_tasks = [];
      })))

abbrev pruned : Event
pruned = event 4 (Payload.context (ContextPayload.pruned (1 ∷ 2 ∷ [])))

abbrev stream : List Event
stream = planned ∷ finished ∷ revised ∷ pruned ∷ []

same_run : (d : Event) → In d stream → d.run_id ≡ "r1"
same_run d here = refl
same_run d (there here) = refl
same_run d (there (there here)) = refl
same_run d (there (there (there here))) = refl
same_run d (there (there (there (there i)))) = elim i [ ]

-- The state that a stream folds to.
abbrev state_of : Result FoldError RunState → RunState
state_of (ok s) = s
state_of (err e) = new_state ""

start : RunState
unfolding fold_events apply_plan step_evidence apply_blueprint insert lookup new_state
start = state_of (fold_events no_repr (planned ∷ finished ∷ []))

whole : RunState
unfolding start
whole = state_of (fold_events no_repr stream)

uncompressed : RunState
unfolding start is_context
uncompressed = state_of (fold_events no_repr (without_context stream))

whole_lem : fold_events no_repr stream ≡ ok whole
unfolding whole
whole_lem = refl

uncompressed_lem : fold_events no_repr (without_context stream) ≡ ok uncompressed
unfolding uncompressed
uncompressed_lem = refl

fold_events-without_context_example : uncompressed.step_evidence ≡ whole.step_evidence
fold_events-without_context_example =
    fold_events-without_context no_repr stream whole uncompressed whole_lem uncompressed_lem

start_finished : HasState "s1" "completed" start.step_evidence
unfolding start evidence_of
start_finished = (evidence_of start.step_evidence "s1" "" 0, refl, refl)

after : RunState
unfolding start
after = apply no_repr pruned (apply no_repr revised start)

after_lem : fold_from no_repr "r1" (revised ∷ pruned ∷ []) start ≡ ok after
unfolding after
after_lem = refl

not-IsAbout : (e : Event) → In e (revised ∷ pruned ∷ []) → ¬ (IsAbout "s1" e.payload)
not-IsAbout e here a = a
not-IsAbout e (there here) a = a
not-IsAbout e (there (there i)) a = elim i [ ]

-- The tool of the finished step changes, and its state stays.
finished_stays_example : HasState "s1" "completed" after.step_evidence
unfolding is_finished
finished_stays_example =
    finished_stays no_repr "s1" "completed" refl "r1" (revised ∷ pruned ∷ []) start after after_lem
      not-IsAbout start_finished
