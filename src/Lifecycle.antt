-- ===== src/Lifecycle.antt =====
-- harness/core/lifecycle.py: the scan at the start of the server that ends the runs which the process
-- before it left running. The ids that list_all_run_ids reads are an argument.
pub mod Orphans
use jagent.Base.{
  ℕ, suc, ◌+◌, String, Bool, true, false, Option, none, some, List, [], ◌∷◌, ◌==◌, if◌then◌else◌,
  length, leb, Dict, lookup_or, insert, Result, ok, err, ◌>>=◌,
}
use jagent.Values.{Value}
use jagent.Events.{Event, Payload, RunPayload}
use jagent.RunState.{RunStatus}
use jagent.Fold.{FoldError, fold_events}
use jagent.EventLog.{Request, Store, AppendError, get_events, append_event}

-- An exception of the fold or of the store.
pub data ScanError : Type 0 where
  of_fold : FoldError → ScanError
  of_store : AppendError → ScanError

-- The two texts, one after the other.
concat : String → String → String
concat String.[] t = t
concat (String.◌∷◌ c s) t = String.◌∷◌ c (concat s t)

-- counts[t] = counts.get(t, 0) + 1, for each tenant that is not empty
tenant_counts : Dict ℕ → List Event → Dict ℕ
unfolding lookup_or insert
tenant_counts counts [] = counts
tenant_counts counts (e ∷ es) =
    tenant_counts
      (if e.tenant_id == ""
        then counts
        else insert e.tenant_id (lookup_or e.tenant_id 0 counts + 1) counts)
      es

-- max(counts, key=counts.get): the first of the largest.
largest : String → ℕ → Dict ℕ → String
largest best n [] = best
largest best n ((t, k) ∷ m) = if leb k n then largest best n m else largest t k m

unfoldable pub derive_run_tenant : List Event → String
unfolding tenant_counts largest
derive_run_tenant events = elim (tenant_counts [] events) [
  | [] ↦ "default"
  | (t, n) ∷ m ↦ largest t n m
]

-- next((e.workspace_id for e in events if e.workspace_id), None)
workspace_of : List Event → Option String
workspace_of [] = none
workspace_of (e ∷ es) =
    let rest = workspace_of es in
    elim e.workspace_id [ none ↦ rest | some w ↦ if w == "" then rest else some w ]

unfoldable pub terminal_request : String → String → RunPayload → List Event → Request
unfolding derive_run_tenant workspace_of concat
terminal_request prefix run_id payload events = record {
  run_id = run_id;
  payload = Payload.run payload;
  tenant_id = derive_run_tenant events;
  workspace_id = workspace_of events;
  idempotency_key = some (concat prefix run_id);
}

unfoldable pub orphaned_request : String → List Event → Request
unfolding terminal_request
orphaned_request run_id events =
    terminal_request "orphan_detect_" run_id (RunPayload.orphaned "server_restart") events

unfoldable pub failed_request : String → List Event → Request
unfolding terminal_request
failed_request run_id events =
    terminal_request "orphan_fail_" run_id
      (RunPayload.failed (record {
        final_error =
            "Run was terminated because the server process restarted while it was active (orphaned run). Automatic crash recovery is not performed; please re-submit the task — completed steps are not repeated (event sourcing + idempotency).";
        event_count = length events + 2;
        result_summary = some "任务因服务重启而中断（孤儿 run），请重新发起任务。";
        user_facing_message = "任务因服务重启而中断，请重新发起该任务；已完成的步骤不会重复执行。";
      }))
      events

-- state.status in (RunStatus.RUNNING, RunStatus.PAUSED)
unfoldable pub is_active : RunStatus → Bool
is_active RunStatus.running = true
is_active RunStatus.paused = true
is_active _ = false

-- `await store.append_event(...)`, whose event is not used.
unfoldable pub append : Request → Store → Result ScanError Store
append r s = elim (append_event r s).0 [
  | err e ↦ err (of_store e)
  | ok event ↦ ok (append_event r s).1
]

unfoldable pub terminate : String → List Event → Store → Result ScanError Store
unfolding append orphaned_request failed_request
terminate run_id events s =
    append (orphaned_request run_id events) s >>= λ t. append (failed_request run_id events) t

module _ (repr : Value → String) where
  -- One turn of the loop, with whether the run was terminated.
  unfoldable pub mark_run : String → Store → Result ScanError (Store × Bool)
  unfolding terminate is_active
  mark_run run_id s = elim (get_events run_id s.rows) [
    | [] ↦ ok (s, false)
    | e ∷ es ↦ elim (fold_events repr (e ∷ es)) [
      | err f ↦ err (of_fold f)
      | ok state ↦
          if is_active state.status
          then (terminate run_id (e ∷ es) s >>= λ t. ok (t, true))
          else ok (s, false)
    ]
  ]

  unfoldable pub mark_orphans : List String → Store → Result ScanError (Store × ℕ)
  unfolding mark_run
  mark_orphans [] s = ok (s, 0)
  mark_orphans (run_id ∷ run_ids) s = mark_run run_id s >>= λ (t, terminated).
      mark_orphans run_ids t >>= λ (u, marked). ok (u, if terminated then suc marked else marked)
