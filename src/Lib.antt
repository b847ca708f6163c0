-- ===== src/Lib.antt =====
-- JAgent: a harness that runs plans of tool calls for a language model and trusts only its own
-- mechanical part: the plan order, the gate before each step, the event log and its fold, and the
-- completion gate. This library models that part.
--
-- A plan is a list of steps with dependencies. DagPlan.topological_sort turns it into layers. The
-- executor runs a layer at a time: it skips the steps whose dependencies did not end normally, runs
-- the others at once, and appends one event for what became of each. fold_events rebuilds the state
-- of the run, the trusted step evidence among it, from the log. When no layer is left, the
-- completion gate compares the plan and the delivery contracts with the results.
--
--   - Base and its children: lists, dicts with text keys, results, Boolean tests.
--   - Values: the JSON-like values of tool inputs and outputs, with Python's `==` and truth.
--   - Steps: harness/core/dag_types.py, ExecState, StepResult and its properties.
--   - Plan: harness/models/plan.py, the records and RequiredOperation.step_satisfies.
--   - Plan/Toposort: DagPlan.topological_sort. Its children prove that the layers are an order
--     (Order), on the graph (Edges), the sweeps of the while loop (Sweeps, Rounds) and their start
--     (Start), and when it returns (Total).
--   - Plan/Structure: validate_dag_structure. Structure/Colors and Structure/Acyclic are about its search
--     for a cycle, Structure/Levels about the levels of the steps, Structure/Clean about the ids and the
--     dependencies, Structure/Accepted about plans that it accepts, Structure/Verdict about what it reports.
--   - Contracts, Completion: harness/models/intent.py and harness/core/scheduler/completion.py,
--     CompletionVerdict.compute; Completion/Verdicts says what its verdicts mean.
--   - Events, RunState, Evidence, Fold: harness/models/events.py and harness/core/fold.py. Evidence
--     has the writes to step_evidence, Fold the dispatch of fold_events. Fold/Replay is about when a
--     stream folds, Fold/Compression about archiving and pruning, Fold/Finished about finished steps.
--   - EventLog: harness/storage/event_store.py, append_event and get_events. EventLog/Rows is about
--     the table, EventLog/Commits about what the write lock covers, EventLog/Appends and EventLog/Later about
--     the order of events and repeated appends.
--   - Lifecycle: harness/core/lifecycle.py, mark_orphans; Lifecycle/Orphans is about the runs that the
--     scan ends.
--   - Tools: harness/models/tools.py and harness/tools/registry.py.
--   - Executor, Layers: harness/core/dag_executor.py, _execute_step and _execute_layer.
--     Executor/Gate is about skipped steps, Layers/Inserts and Layers/Effects about the results of a
--     layer, and Layers/Agree and Layers/Sync about its events and its results.
--   - Executor/Service: _execute_step with the tool executor in place of the parameter, on the store.
--     Service/Allowed is about when a function is called,
--     Service/Once about a step that is run again. Guardrails/Registry is ToolRegistry.
--   - Retry, Semantic, Outputs: harness/tools/retry.py, semantic.py and output_store.py. Retry/Bounds is
--     about the calls that a retry makes.
--   - Guardrails: harness/tools/guardrails.py, with its children for the prerequisites of a tool
--     (Dependencies), GuardrailRunner (Runner) and validate_registration_safety (Registration).
--     Guardrails/Deletion is about tools that delete.
--   - Calls: harness/tools/executor.py, ToolExecutor.execute, and harness/tools/idempotency.py.
--     Calls/Execute has the steps up to the call, Calls/Invoke the call and what is written of it.
--     Calls/Gates is about when a function is called, Calls/Succeeds and Calls/Cache about repeated calls,
--     Calls/Keyed about the keys in the event log. EventLog/Keyed has the lemmas on keys.
--   - Recovery: harness/core/recovery.py. Recovery/Rebuild is about restarts, Recovery/Repair about what
--     is repaired.
--   - LocalRepair: harness/core/scheduler/local_repair.py. LocalRepair/Candidates has the steps that may be
--     repaired, LocalRepair/Eligible is about them, LocalRepair/Rounds about the budget of rounds and
--     LocalRepair/Sound about the patched plan.
--   - Revision: harness/core/planner/revision_invariants.py; Revision/Invariants says what an accepted
--     revision keeps.
--   - RevisionGuard: harness/core/scheduler/revision_guard.py, with its children for the merge of a
--     revision (Merge) and the attempts of the guard (Attempts). RevisionGuard/Closure and
--     RevisionGuard/Degenerate are about revisions that repeat a failed action, RevisionGuard/Guarded
--     about accepted revisions. Of the merge, RevisionGuard/Bound, Apart and Aliases are about the
--     aliases, Restore about the steps that it restores, Kept about what it keeps.
--   - Examples: small plans, event streams and layers, and the theorems at them.
--
-- How the model is written. A dict is the list of its items in insertion order. The mutable objects
-- of the source are records that each operation takes and returns. A ValueError is a value of an
-- error type, with the parts of its text. The texts of step errors are data that a parameter `show`
-- prints. `repr` is Python's str() on values that are not texts. latest_plan and the last entry of
-- plan_history are one object in the source: the history is held newest first, and its head is the
-- latest plan. The while loop of topological_sort runs on fuel, one unit per round. Its bound is the
-- number of steps, enough since a round that is not the last visits a step.
--
-- The attempts of append_event under the write lock run on fuel 4, its _max_retries + 1. The retry
-- loop of a call runs once for each number in its range, max_retries + 1 times. The search for a cycle
-- and the levels recurse on fuel one above the number of ids: each nested call of the search has a white
-- step less. The worklist of the revision guard has one unit for its start and one for each dependency.
--
-- Not modelled: timestamps and durations in floating point, the parser of event payloads, the
-- other tables of the store, the language model, the tools, and the web service. The resolution of
-- references in a step's input is a parameter of the executor; the JSON printer, the search of a
-- regular expression and sorted() are parameters of the recovery, and the planner is one of the local
-- repair. The tool executor takes the function of the tool, the scope, egress and rate-limit guardrails, the validation of a
-- JSON schema, uuid4, the hash and the backend as parameters, and an append of it succeeds, as it does
-- on a well-formed store. Layers has the tool layer as a parameter, which Executor/Service fills for one
-- step: two steps of a layer that run at the same time are not interleaved inside a call. A call in Layers
-- may raise an Exception, which is recorded, or another BaseException, which breaks the layer off. A
-- cancellation of the layer while it waits for its steps is left out, and so is one of the tool executor
-- itself. Payloads are parsed ones: the errors of the parser on a malformed event, and a plan step without
-- an id, are left out of the fold. The runner of the guardrails is the one that the tool executor builds,
-- where no custom guardrail takes the place of `destructive` or `dependency`.
pub mod Base
pub mod Values
pub mod Steps
pub mod Plan
pub mod Contracts
pub mod Completion
pub mod Events
pub mod Evidence
pub mod RunState
pub mod Fold
pub mod EventLog
pub mod Lifecycle
pub mod LocalRepair
pub mod Tools
pub mod Retry
pub mod Semantic
pub mod Guardrails
pub mod Outputs
pub mod Calls
pub mod Recovery
pub mod Revision
pub mod RevisionGuard
pub mod Executor
pub mod Layers
pub mod Examples
