-- ===== src/EventLog.antt =====
-- harness/storage/event_store.py: append_event and the queries that it and the fold rest on. The
-- table is the list of its rows in the order of insertion, and each SQL statement is written out as
-- what it does to the list. The lookup of an idempotency key stands outside the write lock, so
-- `commit`, the part under the lock, is a definition of its own. The columns that no event carries
-- (created_at, conversation_id, is_audit) and the callbacks after an append are left out.
pub mod Rows
pub mod Commits
pub mod Appends
pub mod Later
pub mod Keyed
use jagent.Base.{
  ℕ, zero, suc, ◌+◌, String, Bool, true, false, not, ◌&&◌, Option, none, some, List, [], ◌∷◌, ◌++◌,
  ◌==◌, any, filter, if◌then◌else◌, leb, nat_eq, Dict, lookup, insert, has_key, Result, ok, err,
}
use jagent.Events.{Event, Payload}

-- EventType(...).value
unfoldable pub type_of : Payload → String
type_of (Payload.run p) = "Run"
type_of (Payload.delivery_contracts_resolved cs) = "DeliveryContractsResolved"
type_of (Payload.agent_thought t c) = "AgentThought"
type_of (Payload.tool p) = "Tool"
type_of (Payload.confirmation p) = "Confirmation"
type_of (Payload.context p) = "Context"
type_of (Payload.feedback_injected p) = "FeedbackInjected"
type_of (Payload.plan p) = "Plan"
type_of (Payload.step p) = "Step"
type_of (Payload.step_repair phase) = "StepRepair"
type_of (Payload.diagnostic phase) = "Diagnostic"
type_of (Payload.conversation phase) = "Conversation"
type_of (Payload.workspace phase) = "Workspace"

-- WHERE run_id = ?
unfoldable pub of_run : String → List Event → List Event
of_run run_id rows = filter (λ e. e.run_id == run_id) rows

-- MAX(seq), 0 on no row
unfoldable pub max_seq : List Event → ℕ
max_seq [] = 0
max_seq (e ∷ es) = let rest = max_seq es in if leb e.seq rest then rest else e.seq

-- SELECT COALESCE(MAX(seq), 0) + 1 FROM events WHERE run_id = ?
unfoldable pub next_seq : String → List Event → ℕ
unfolding of_run max_seq
next_seq run_id rows = max_seq (of_run run_id rows) + 1

unfoldable pub key_is : String → Option String → Bool
key_is key none = false
key_is key (some k) = k == key

-- WHERE run_id = ? AND event_type = ? AND idempotency_key = ?
unfoldable pub matches : String → String → String → Event → Bool
unfolding key_is type_of
matches run_id event_type key e =
    (e.run_id == run_id && type_of e.payload == event_type) && key_is key e.idempotency_key

unfoldable pub find_by_idempotency_key : String → String → String → List Event → Option Event
unfolding matches
find_by_idempotency_key run_id event_type key [] = none
find_by_idempotency_key run_id event_type key (e ∷ es) =
    let rest = find_by_idempotency_key run_id event_type key es in
    if matches run_id event_type key e then some e else rest

-- ORDER BY seq ASC
unfoldable pub place : Event → List Event → List Event
place e [] = e ∷ []
place e (d ∷ ds) = let rest = place e ds in if leb e.seq d.seq then e ∷ d ∷ ds else d ∷ rest

unfoldable pub order_by_seq : List Event → List Event
unfolding place
order_by_seq [] = []
order_by_seq (e ∷ es) = place e (order_by_seq es)

unfoldable pub get_events : String → List Event → List Event
unfolding of_run order_by_seq
get_events run_id rows = order_by_seq (of_run run_id rows)

-- The arguments of `append_event`.
pub record Request : Type 0 where
  pub run_id : String
  pub payload : Payload
  pub tenant_id : String
  pub workspace_id : Option String
  pub idempotency_key : Option String

pub record Store : Type 0 where
  pub rows : List Event
  pub run_to_workspace : Dict String

pub data AppendError : Type 0 where
  sequence_conflict : (run_id : String) → AppendError
  duplicate_idempotency_key : (key run_id : String) → AppendError

-- The index idx_idem has the key already.
unfoldable pub duplicates : Request → List Event → Bool
unfolding matches type_of
duplicates r rows = elim r.idempotency_key [
  | none ↦ false
  | some k ↦ any (matches r.run_id (type_of r.payload) k) rows
]

-- PRIMARY KEY (run_id, seq)
unfoldable pub is_taken : String → ℕ → List Event → Bool
is_taken run_id seq rows = any (λ e. e.run_id == run_id && nat_eq e.seq seq) rows

unfoldable pub event_of : Request → ℕ → Event
event_of r seq = record {
  run_id = r.run_id;
  seq = seq;
  payload = r.payload;
  idempotency_key = r.idempotency_key;
  tenant_id = r.tenant_id;
  workspace_id = r.workspace_id;
}

-- The answer to a duplicate key that the index reports.
unfoldable pub existing : Request → List Event → Result AppendError Event
unfolding find_by_idempotency_key type_of
existing r rows = elim r.idempotency_key [
  | none ↦ err (duplicate_idempotency_key "" r.run_id)
  | some k ↦ elim (find_by_idempotency_key r.run_id (type_of r.payload) k rows) [
    | none ↦ err (duplicate_idempotency_key k r.run_id)
    | some old ↦ ok old
  ]
]

-- The attempts under the write lock. A conflict on (run_id, seq) starts the next one.
unfoldable pub commit : ℕ → Request → List Event → Result AppendError Event × List Event
unfolding next_seq duplicates existing is_taken event_of
commit zero r rows = (err (sequence_conflict r.run_id), rows)
commit (suc attempts) r rows =
    let seq = next_seq r.run_id rows in
    let retried = commit attempts r rows in
    if duplicates r rows
    then (existing r rows, rows)
    else if is_taken r.run_id seq rows
    then retried
    else (ok (event_of r seq), rows ++ event_of r seq ∷ [])

-- The workspace of the request, or the one that the run is known to have.
unfoldable pub with_workspace : Request → Dict String → Request
unfolding lookup
with_workspace r cache = elim r.workspace_id [
  | none ↦ record r { workspace_id = lookup r.run_id cache }
  | some w ↦ r
]

unfoldable pub remember : Request → Dict String → Dict String
unfolding has_key lookup insert
remember r cache = elim r.workspace_id [
  | none ↦ cache
  | some w ↦ if has_key r.run_id cache then cache else insert r.run_id w cache
]

unfoldable pub write : Request → Store → Result AppendError Event × Store
unfolding commit with_workspace remember
write r s =
    let (answer, rows) = commit 4 (with_workspace r s.run_to_workspace) s.rows in
    (answer, record { rows = rows; run_to_workspace = remember r s.run_to_workspace })

-- The test before the write lock.
unfoldable pub lookup_key : Request → List Event → Option Event
unfolding find_by_idempotency_key type_of
lookup_key r rows = elim r.idempotency_key [
  | none ↦ none
  | some k ↦ find_by_idempotency_key r.run_id (type_of r.payload) k rows
]

-- The rest, on what the test found.
unfoldable pub after_lookup : Option Event → Request → Store → Result AppendError Event × Store
unfolding write
after_lookup none r s = write r s
after_lookup (some old) r s = (ok old, s)

unfoldable pub append_event : Request → Store → Result AppendError Event × Store
unfolding lookup_key after_lookup
append_event r s = after_lookup (lookup_key r s.rows) r s
