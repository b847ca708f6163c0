-- ===== src/Executor/Service/Once.antt =====
-- A step that completed is not called again.
use jagent.Base.{
  String, true, false, some, List, Dict, ok, ok-injective, err≢ok, ◌≡◌, refl, sym, ap, ◌∙◌, arith,
  Result-cases, inl, inr, Bool-cases,
}
use mathlib.Core.Path.{subst}
use jagent.Values.{Value}
use jagent.Steps.{ExecState, StepResult}
use jagent.Plan.{DagPlan, DagStep}
use jagent.EventLog.{Store}
use jagent.EventLog.Rows.{WellFormed}
use jagent.Guardrails.{GuardrailResult}
use jagent.Guardrails.Runner.{run}
use jagent.Guardrails.Deletion.{all_passed}
use jagent.Calls.{Call, ToolExecutionResult, Execution, compute_key}
use jagent.Calls.{ExecutionStatus as CallStatus}
use jagent.Calls.Execute.{execute}
use jagent.Calls.Succeeds.{succeeded}
use jagent.Calls.Cache.{persisted, execute-again}
use jagent.Executor.{dispatch, conclude}
use jagent.Executor.Service.{
  Service, call_of, execute_step_on, after_call, read_answer, read_result, read_status,
}
use jagent.Executor.Service.Allowed.{IsReady, ready-execute_step_on}

-- A success is a completed call without a semantic error.
succeeded-completed :
    (t : ToolExecutionResult)
    → succeeded (ok t) ≡ true
    → (t.status ≡ CallStatus.completed) × (t.has_semantic_error ≡ false)
unfolding succeeded
succeeded-completed t h = go t.status refl
  where
    go :
        (c : CallStatus)
        → t.status ≡ c
        → (t.status ≡ CallStatus.completed) × (t.has_semantic_error ≡ false)
    go CallStatus.completed e = (e, ground arith)
    go c e = absurd (ground arith)

-- The cached result of a success.
abbrev cached_result : ToolExecutionResult → Value → ToolExecutionResult
cached_result t v = record t {
  status = CallStatus.idempotency_hit;
  output = v;
  cached = true;
  retry_attempts = 0;
}

module _ (sv : Service) where
  -- The first result of a step, as the second run has it.
  abbrev pub again_result : StepResult → Value → StepResult
  again_result r v = record r {
    exec_state = ExecState.idempotent;
    output = v;
    summary = sv.setting.truncate_output v;
  }

module _ (sv : Service) (plan : DagPlan) (step : DagStep) (sid : String) where
  -- A completed step comes from a result that counts as a success.
  dispatch-completed :
      (t : ToolExecutionResult)
      → (dispatch sv.setting step sid (read_result t)).exec_state ≡ ExecState.completed
      → succeeded (ok t) ≡ true
  unfolding dispatch read_result read_status succeeded
  dispatch-completed t h = go t.status refl
    where
      go : (c : CallStatus) → t.status ≡ c → succeeded (ok t) ≡ true
      go CallStatus.completed e = elim (Bool-cases t.has_semantic_error) [
        | inl bad ↦ absurd (ground arith)
        | inr good ↦ ground arith
      ]
      go c e = absurd (ground arith)

  dispatch-again :
      (t : ToolExecutionResult) (v : Value)
      → succeeded (ok t) ≡ true
      → (dispatch sv.setting step sid (read_result (cached_result t v))
          ≡ again_result sv (dispatch sv.setting step sid (read_result t)) v)
        × ((dispatch sv.setting step sid (read_result t)).output ≡ t.output)
  unfolding dispatch read_result read_status
  dispatch-again t v h =
      let (completed, good) = succeeded-completed t h in
      (rw (completed, good, dispatch) refl, rw (completed, good, dispatch) refl)

  after_call-completed :
      (x : Execution) (r : StepResult)
      → (after_call sv step sid x).answer ≡ ok r
      → r.exec_state ≡ ExecState.completed
      → (t : ToolExecutionResult) × (x.answer ≡ ok t)
        × (succeeded (ok t) ≡ true)
        × (r ≡ dispatch sv.setting step sid (read_result t))
  unfolding after_call read_answer conclude
  after_call-completed x r same completed = elim (Result-cases x.answer) [
    | inr (e, raised) ↦ absurd (err≢ok (rw (raised, after_call) at same))
    | inl (t, answered) ↦
        let is_r = ok-injective (rw (answered, after_call) at same) in
        (t, answered, dispatch-completed t (ap (λ x. x.exec_state) is_r ∙ completed), sym is_r)
  ]

module _ (sv : Service) (plan : DagPlan) (results : Dict StepResult) (sid : String) where
  -- The call of a step that is ready.
  abbrev pub ready_call : IsReady sv plan results sid → Call
  ready_call ready = call_of sv sid ready.step ready.input ready.def ready.fn

  -- The store after the step.
  abbrev pub store_after : Store → Store
  store_after s = (execute_step_on sv plan results sid s).store

-- If a step whose tool has an idempotency key completed on a well-formed store, then the same step run
-- again on the store that it left, as after a crash that lost its result, calls no function when its
-- guardrails pass: it ends as idempotent, with the value that was written for the output of the first
-- run, under the identifier of the first call, and leaves the store as it is.
pub execute_step_on-again :
    (sv : Service) (plan : DagPlan) (results : Dict StepResult) (sid : String) (s : Store)
    (r : StepResult) (k : String) (ready : IsReady sv plan results sid)
    (passes : List GuardrailResult)
    → WellFormed s.rows
    → compute_key sv.harness (ready_call sv plan results sid ready) ≡ some k
    → (execute_step_on sv plan results sid s).answer ≡ ok r
    → r.exec_state ≡ ExecState.completed
    → run sv.harness.checks
        (store_after sv plan results sid s).rows
        sv.run_id
        sv.allowed_tools
        ready.def
        ready.input
      ≡ ok passes
    → all_passed passes ≡ true
    → execute_step_on sv plan results sid (store_after sv plan results sid s) ≡ record {
      answer = ok (
          again_result sv r
            (persisted sv.harness (ready_call sv plan results sid ready) r.output s));
      store = store_after sv plan results sid s;
      calls = 0;
    }
unfolding after_call call_of
execute_step_on-again sv plan results sid s r k ready passes w keyed answered completed ran passed =
    let after = store_after sv plan results sid s in
    let call = ready_call sv plan results sid ready in
    let first_run = ready-execute_step_on sv plan results sid s ready in
    let x = execute sv.harness call s in
    let (t, is_t, good, is_r) =
      after_call-completed sv plan ready.step sid x r
        (ap (λ y. y.answer) (sym first_run) ∙ answered) completed in
    let stays : (execute_step_on sv plan results sid s).store ≡ x.store =
      ap (λ y. y.store) first_run in
    let (first, is_first, second) =
      execute-again sv.harness call s k passes w keyed (ap succeeded is_t ∙ good)
        (subst
          (λ y.
            run sv.harness.checks y.rows sv.run_id sv.allowed_tools ready.def ready.input
            ≡ ok passes)
          stays ran)
        passed in
    let v = persisted sv.harness call in
    let (again, output) = dispatch-again sv plan ready.step sid t (v t.output s) good in
    ready-execute_step_on sv plan results sid after ready
    ∙ ap (after_call sv ready.step sid) (
        ap (execute sv.harness call) stays
        ∙ second
        ∙ ap
            (λ f. record {
              answer = ok (cached_result f (v f.output s));
              store = x.store;
              calls = 0;
            })
            (ok-injective (sym is_first ∙ is_t)))
    ∙ ap (λ q. record { answer = ok q; store = x.store; calls = 0 })
        (again
          ∙ ap (λ o. again_result sv (dispatch sv.setting ready.step sid (read_result t)) (v o s))
              (sym output)
          ∙ ap (λ q. again_result sv q (v q.output s)) (sym is_r))
    ∙ ap (λ st. record { answer = ok (again_result sv r (v r.output s)); store = st; calls = 0 })
        (sym stays)
