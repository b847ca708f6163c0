-- ===== src/Examples/Appending.antt =====
-- Appends to an empty event log.
use jagent.Base.{
  suc, String, Option, none, some, [], ◌∷◌, ◌++◌, ◌==◌, ◌≡◌, refl, length, if◌then◌else◌, ok,
  lookup,
}
use jagent.Events.{Event, Payload}
use jagent.EventLog.{
  Request, Store, event_of, get_events, commit, append_event, find_by_idempotency_key, next_seq,
  max_seq, of_run, duplicates, is_taken, lookup_key, with_workspace,
}
use jagent.EventLog.Rows.{WellFormed, empty-WellFormed}
use jagent.EventLog.Commits.{commit-returns, append_event-returns}
use jagent.EventLog.Appends.{append_event-again, append_event-get_events}

abbrev pub request : Option String → Request
request key = record {
  run_id = "r1";
  payload = Payload.agent_thought "look" none;
  tenant_id = "default";
  workspace_id = none;
  idempotency_key = key;
}

abbrev pub empty_store : Store
empty_store = record { rows = []; run_to_workspace = [] }

commit-returns_example :
    ((e : Event) × ((commit 4 (request (some "k")) []).0 ≡ ok e))
    × WellFormed (commit 4 (request (some "k")) []).1
commit-returns_example = commit-returns 3 (request (some "k")) [] empty-WellFormed

append_event-returns_example :
    ((e : Event) × ((append_event (request none) empty_store).0 ≡ ok e))
    × WellFormed (append_event (request none) empty_store).1.rows
append_event-returns_example = append_event-returns (request none) empty_store empty-WellFormed

append_event-again_example :
    append_event (request (some "k")) (append_event (request (some "k")) empty_store).1
    ≡ (ok (event_of (request (some "k")) 1), (append_event (request (some "k")) empty_store).1)
unfolding append_event lookup_key find_by_idempotency_key commit with_workspace lookup duplicates
    is_taken next_seq of_run max_seq
append_event-again_example =
    append_event-again (request (some "k")) empty_store "k" (event_of (request (some "k")) 1)
      empty-WellFormed refl refl

append_event-get_events_example :
    (e : Event) × ((append_event (request none) empty_store).0 ≡ ok e)
    × (e.run_id ≡ "r1")
    × (e.payload ≡ Payload.agent_thought "look" none)
    × (e.seq ≡ suc (length (get_events "r1" [])))
    × (get_events "r1" (append_event (request none) empty_store).1.rows
        ≡ get_events "r1" [] ++ (if "r1" == "r1" then e ∷ [] else []))
unfolding lookup_key
append_event-get_events_example =
    append_event-get_events (request none) empty_store "r1" empty-WellFormed refl
