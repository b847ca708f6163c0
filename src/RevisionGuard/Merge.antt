-- ===== src/RevisionGuard/Merge.antt =====
-- merge_revised_plan and merge_step_tasks. A set is a list without repetitions; the code reads its size
-- and the only element of one of size 1. A dict that the source changes in place is returned.
use jagent.Base.{
  ℕ, suc, String, Bool, true, false, not, ◌&&◌, ◌||◌, Option, none, some, List, [], ◌∷◌, ◌++◌, ◌==◌,
  elem, filter, map, if◌then◌else◌, Dict, lookup, lookup_or, has_key, insert, remove, keys,
}
use jagent.Values.{Fields}
use jagent.Steps.{ExecState, TaskState, StepResult, step_normal, is_failed, is_unsuccessful}
use jagent.Plan.{DagStep, DagPlan}
use jagent.Plan.Toposort.{step_map}
use jagent.RevisionGuard.{sig_eq, step_signature}

-- step_aliases.get(sid, sid)
unfoldable pub canonical : Dict String → String → String
unfolding lookup_or
canonical aliases sid = lookup_or sid sid aliases

-- isinstance(r, StepResult) and r.step_normal
unfoldable pub is_done : Option StepResult → Bool
unfolding step_normal
is_done none = false
is_done (some r) = step_normal r

is_skipped : StepResult → Bool
is_skipped r = elim r.exec_state [ ExecState.skipped ↦ true | _ ↦ false ]

unfoldable pub unresolved_ids : Dict String → Dict StepResult → List DagStep → List String
unfolding is_done canonical lookup
unresolved_ids aliases results [] = []
unresolved_ids aliases results (s ∷ ss) =
    let rest = unresolved_ids aliases results ss in
    if is_done (lookup (canonical aliases s.id) results) then rest else s.id ∷ rest

-- The local variables of the loop over the unresolved steps.
pub record Binding : Type 0 where
  pub aliases : Dict String
  pub replacements : List String
  pub originals : List String

module _ (dumps : Fields → String) (root revised : Dict DagStep) (results : Dict StepResult) where
  -- The replacements that do what the original step does.
  unfoldable pub matching : DagStep → List String → List String
  unfolding lookup sig_eq step_signature
  matching original [] = []
  matching original (sid ∷ sids) =
      let rest = matching original sids in
      elim (lookup sid revised) [
        | none ↦ rest
        | some s ↦
            if sig_eq (step_signature dumps s) (step_signature dumps original)
            then sid ∷ rest
            else rest
      ]

  -- A replacement is bound if it is the only one that matches.
  unfoldable pub bind_match : String → List String → Binding → Binding
  unfolding insert
  bind_match oid (sid ∷ []) b = record {
    aliases = insert oid sid b.aliases;
    replacements = filter (λ k. not (k == sid)) b.replacements;
    originals = b.originals;
  }
  bind_match oid sids b = record b { originals = b.originals ++ oid ∷ [] }

  unfoldable pub ended_badly : StepResult → Bool
  unfolding is_failed is_unsuccessful is_skipped
  ended_badly r = is_failed r || is_unsuccessful r || is_skipped r

  -- One turn of the loop.
  unfoldable pub bind_one : String → Binding → Binding
  unfolding canonical lookup ended_badly matching bind_match
  bind_one oid b = elim (lookup (canonical b.aliases oid) results) [
    | none ↦ b
    | some prior ↦ elim (lookup oid root) [
      | none ↦ b
      | some original ↦
          if ended_badly prior then bind_match oid (matching original b.replacements) b else b
    ]
  ]

  unfoldable pub bind_all : List String → Binding → Binding
  unfolding bind_one
  bind_all [] b = b
  bind_all (oid ∷ oids) b = bind_all oids (bind_one oid b)

  -- FAILED or UNSUCCESSFUL under the alias that the loop left
  unfoldable pub ran_and_failed : Dict String → List String → List String
  unfolding canonical lookup is_failed is_unsuccessful
  ran_and_failed aliases [] = []
  ran_and_failed aliases (sid ∷ sids) =
      let rest = ran_and_failed aliases sids in
      elim (lookup (canonical aliases sid) results) [
        | none ↦ rest
        | some r ↦ if is_failed r || is_unsuccessful r then sid ∷ rest else rest
      ]

  -- The last two that remain belong together.
  unfoldable pub bind_last : List String → List String → Dict String → Dict String
  unfolding insert
  bind_last (rid ∷ []) (oid ∷ []) aliases = insert oid rid aliases
  bind_last rids oids aliases = aliases

  unfoldable pub new_aliases : List String → List String → Dict String → Dict String
  unfolding bind_all bind_last ran_and_failed
  new_aliases unresolved replacements aliases =
      let b =
        bind_all unresolved
          (record { aliases = aliases; replacements = replacements; originals = [] }) in
      bind_last b.replacements (ran_and_failed b.aliases b.originals) b.aliases

  -- The original step with its dependencies under their aliases.
  unfoldable pub rewritten : Dict String → DagStep → DagStep
  unfolding canonical
  rewritten aliases s = record s { depends_on = map (canonical aliases) s.depends_on }

  -- for original_id, original_step in root_steps.items()
  unfoldable pub restore : Dict String → Dict DagStep → Dict DagStep → Dict DagStep
  unfolding canonical has_key is_done lookup insert rewritten
  restore aliases [] merged = merged
  restore aliases ((oid, s) ∷ m) merged =
      let skip = restore aliases m merged in
      let put = restore aliases m (insert oid (rewritten aliases s) merged) in
      if not (canonical aliases oid == oid) || has_key oid revised
      then skip
      else if is_done (lookup oid results)
      then skip
      else put

-- results.pop(sid, None) for the merged steps that did not end normally
unfoldable pub drop_stale : List String → Dict StepResult → Dict StepResult
unfolding lookup remove is_done
drop_stale [] results = results
drop_stale (sid ∷ sids) results =
    let kept = drop_stale sids results in
    let dropped = drop_stale sids (remove sid results) in
    elim (lookup sid results) [
      | none ↦ kept
      | some prior ↦ if step_normal prior then kept else dropped
    ]

-- results.pop(original_id, None) for the originals that have another alias
unfoldable pub drop_aliased : Dict String → Dict StepResult → Dict StepResult
unfolding remove
drop_aliased [] results = results
drop_aliased ((oid, alias) ∷ m) results =
    let kept = drop_aliased m results in
    let dropped = drop_aliased m (remove oid results) in if alias == oid then kept else dropped

unfoldable pub values : Dict DagStep → List DagStep
values [] = []
values ((sid, s) ∷ m) = s ∷ values m

-- What the merge leaves: the plan, the aliases and the results.
pub record Merged : Type 0 where
  pub plan : DagPlan
  pub aliases : Dict String
  pub results : Dict StepResult

module _ (dumps : Fields → String) where
  -- [sid for sid in revised_steps if sid not in root_steps and sid not in current_ids]
  unfoldable pub replacement_ids : Dict DagStep → List DagStep → Dict DagStep → List String
  unfolding has_key elem keys
  replacement_ids root current revised =
      filter (λ sid. not (has_key sid root) && not (elem sid (map (λ s. s.id) current)))
        (keys revised)

  unfoldable pub merged_aliases :
      DagPlan → DagPlan → DagPlan → Dict StepResult → Dict String → Dict String
  unfolding new_aliases unresolved_ids replacement_ids step_map
  merged_aliases root_plan current_plan revised results aliases =
      new_aliases dumps (step_map root_plan.steps) (step_map revised.steps) results
        (unresolved_ids aliases results root_plan.steps)
        (replacement_ids (step_map root_plan.steps) current_plan.steps (step_map revised.steps))
        aliases

  unfoldable pub merged_steps : DagPlan → DagPlan → Dict StepResult → Dict String → Dict DagStep
  unfolding restore step_map
  merged_steps root_plan revised results aliases =
      restore dumps (step_map root_plan.steps) (step_map revised.steps) results aliases
        (step_map root_plan.steps) (step_map revised.steps)

  unfoldable pub merge_revised_plan :
      DagPlan → DagPlan → DagPlan → Dict StepResult → Dict String → Merged
  unfolding merged_aliases merged_steps drop_stale drop_aliased values keys
  merge_revised_plan root_plan current_plan revised results step_aliases =
      let aliases = merged_aliases root_plan current_plan revised results step_aliases in
      let merged = merged_steps root_plan revised results aliases in
      record {
        plan = record revised { steps = values merged };
        aliases = aliases;
        results = drop_aliased aliases (drop_stale (keys merged) results);
      }

-- TaskState(ts_str), none where it raises a ValueError
unfoldable pub task_state_of : String → Option TaskState
task_state_of t =
    if t == "unknown"
    then some TaskState.unknown
    else if t == "achieved"
    then some TaskState.achieved
    else if t == "partial"
    then some TaskState.partial
    else if t == "not_achieved"
    then some TaskState.not_achieved
    else if t == "waived"
    then some TaskState.waived
    else none

-- merge_step_tasks: the results with the notes, and how many notes there were.
unfoldable pub merge_step_tasks : Dict String → Dict StepResult → Dict StepResult × ℕ
unfolding lookup insert task_state_of
merge_step_tasks [] results = (results, 0)
merge_step_tasks ((sid, text) ∷ tasks) results =
    let skip = merge_step_tasks tasks results in
    elim (lookup sid results) [
      | none ↦ skip
      | some r ↦ elim (task_state_of text) [
        | none ↦ skip
        | some state ↦
            let rest =
              merge_step_tasks tasks (insert sid (record r { task_state = state }) results) in
            (rest.0, suc rest.1)
      ]
    ]
