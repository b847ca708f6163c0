-- ===== src/Examples/Restarting.antt =====
-- A restart while a run is active.
use jagent.Base.{ℕ, true, false, none, [], ◌∷◌, ◌≡◌, refl, ok}
use jagent.Events.{Event}
use jagent.RunState.{RunState, RunStatus, new_state}
use jagent.Fold.{apply, fold_events}
use jagent.EventLog.{
  Store, append_event, get_events, event_of, lookup_key, find_by_idempotency_key, commit,
  with_workspace, duplicates, is_taken, next_seq, of_run, max_seq, order_by_seq, matches,
}
use jagent.EventLog.Rows.{WellFormed, empty-WellFormed}
use jagent.EventLog.Commits.{append_event-returns}
use jagent.Lifecycle.{mark_run, mark_orphans, is_active, failed_request}
use jagent.Lifecycle.Orphans.{mark_orphans-returns, mark_run-terminates}
use jagent.Examples.Plans.{no_repr}
use jagent.Examples.Appending.{request, empty_store}

-- One thought of the run "r1".
abbrev thought : Event
thought = event_of (request none) 1

active_store : Store
active_store = (append_event (request none) empty_store).1

active_store-WellFormed : WellFormed active_store.rows
unfolding active_store
active_store-WellFormed = (append_event-returns (request none) empty_store empty-WellFormed).1

active : RunState
active = apply no_repr thought (new_state "r1")

mark_orphans-returns_example :
    (t : Store) × (n : ℕ) × (mark_orphans no_repr ("r1" ∷ "r2" ∷ []) active_store ≡ ok (t, n))
    × WellFormed t.rows
mark_orphans-returns_example =
    mark_orphans-returns no_repr ("r1" ∷ "r2" ∷ []) active_store active_store-WellFormed

mark_run-terminates_example :
    (t : Store) × (final : RunState) × (mark_run no_repr "r1" active_store ≡ ok (t, true))
    × (fold_events no_repr (get_events "r1" t.rows) ≡ ok final)
    × (final.status ≡ RunStatus.failed)
    × (mark_run no_repr "r1" t ≡ ok (t, false))
unfolding active active_store append_event lookup_key find_by_idempotency_key commit with_workspace
    duplicates is_taken next_seq of_run max_seq get_events order_by_seq fold_events is_active apply
    new_state matches failed_request event_of
mark_run-terminates_example =
    mark_run-terminates no_repr "r1" active_store thought [] active active_store-WellFormed refl
      refl refl refl
