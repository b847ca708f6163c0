-- ===== src/Plan/Structure.antt =====
-- validate_dag_structure of harness/models/plan.py, the check of a plan before it runs. The sets of ids
-- are lists in the order of the steps: the source walks them in an order of Python's choosing. The
-- recursion of the depth-first search and of the levels is on fuel. That the input of a step is a dict
-- holds by its type.
pub mod Colors
pub mod Acyclic
pub mod Levels
pub mod Clean
pub mod Accepted
pub mod Verdict
use jagent.Base.{
  ℕ, zero, suc, ◌+◌, String, Bool, not, ◌&&◌, ◌||◌, Option, none, some, List, [], ◌∷◌, ◌++◌, ◌==◌,
  elem, filter, max, leb, length, if◌then◌else◌, Dict, lookup, lookup_or, insert,
}
use jagent.Plan.{DagStep, DagPlan}
use jagent.Plan.Toposort.{step_map}

-- The errors, with the parts of their texts; `out_of_fuel` is none of the source's.
pub data PlanError : Type 0 where
  missing_id : (index : ℕ) → PlanError
  duplicate_id self_dependency : (step_id : String) → PlanError
  unknown_step : (step_id dep : String) → PlanError
  cycle : (path : List String) → PlanError
  too_early : (step_id dep : String) → PlanError
  out_of_fuel : PlanError

-- The first loop: the errors, and the set of ids.
unfoldable pub scan_ids : ℕ → List String → List DagStep → List PlanError × List String
unfolding elem
scan_ids i ids [] = ([], ids)
scan_ids i ids (s ∷ ss) =
    let skipped = scan_ids (suc i) ids ss in
    let added = scan_ids (suc i) (ids ++ s.id ∷ []) ss in
    if s.id == ""
    then (missing_id i ∷ skipped.0, skipped.1)
    else if elem s.id ids
    then (duplicate_id s.id ∷ skipped.0, skipped.1)
    else added

module _ (ids external : List String) where
  unfoldable pub dep_errors : String → List String → List PlanError
  unfolding elem
  dep_errors sid [] = []
  dep_errors sid (dep ∷ deps) =
      let rest = dep_errors sid deps in
      if dep == sid
      then self_dependency sid ∷ rest
      else if not (elem dep ids) && not (elem dep external)
      then unknown_step sid dep ∷ rest
      else rest

  -- The second loop.
  unfoldable pub all_dep_errors : List DagStep → List PlanError
  unfolding dep_errors
  all_dep_errors [] = []
  all_dep_errors (s ∷ ss) =
      if s.id == "" then all_dep_errors ss else dep_errors s.id s.depends_on ++ all_dep_errors ss

pub data Color : Type 0 where
  white gray black : Color

pub record Dfs : Type 0 where
  pub color : Dict Color
  pub stack : List String

-- What `_dfs` returns or leaves.
pub data Search : Type 0 where
  found : (path : List String) → Search
  clear : Dfs → Search
  exhausted : Search

-- stack[stack.index(sid):]
unfoldable pub suffix_from : String → List String → List String
suffix_from sid [] = []
suffix_from sid (x ∷ xs) = let rest = suffix_from sid xs in if x == sid then x ∷ xs else rest

drop_last : List String → List String
drop_last [] = []
drop_last (x ∷ []) = []
drop_last (x ∷ y ∷ xs) = x ∷ drop_last (y ∷ xs)

-- The loop over the dependencies of a step. Every id has a color.
unfoldable pub walk : (String → Dfs → Search) → List String → Dfs → Search
unfolding lookup_or suffix_from
walk visit [] d = clear d
walk visit (n ∷ ns) d = elim (lookup_or n white d.color) [
  | gray ↦ found (suffix_from n d.stack ++ n ∷ [])
  | black ↦ walk visit ns d
  | white ↦ elim (visit n d) [
    | clear d' ↦ walk visit ns d'
    | found path ↦ found path
    | exhausted ↦ exhausted
  ]
]

unfoldable pub enter : String → Dfs → Dfs
unfolding insert
enter sid d = record { color = insert sid gray d.color; stack = d.stack ++ sid ∷ [] }

unfoldable pub leave : String → Search → Search
unfolding insert drop_last
leave sid (clear d) = clear (record { color = insert sid black d.color; stack = drop_last d.stack })
leave sid (found path) = found path
leave sid exhausted = exhausted

module _ (adjacency : Dict (List String)) where
  -- `_dfs`
  unfoldable pub dfs : ℕ → String → Dfs → Search
  unfolding walk enter leave lookup_or
  dfs zero sid d = exhausted
  dfs (suc fuel) sid d = leave sid (walk (dfs fuel) (lookup_or sid [] adjacency) (enter sid d))

  -- for sid in step_ids
  unfoldable pub search : ℕ → List String → Dfs → Search
  unfolding dfs lookup_or
  search fuel [] d = clear d
  search fuel (sid ∷ ids) d = elim (lookup_or sid white d.color) [
    | white ↦ elim (dfs fuel sid d) [
      | clear d' ↦ search fuel ids d'
      | found path ↦ found path
      | exhausted ↦ exhausted
    ]
    | _ ↦ search fuel ids d
  ]

-- [d for d in step.depends_on if d in step_ids]
unfoldable pub inner_deps : List String → DagStep → List String
unfolding elem
inner_deps ids s = filter (λ d. elem d ids) s.depends_on

unfoldable pub adjacency_from : Dict (List String) → List String → List DagStep → Dict (List String)
unfolding inner_deps insert
adjacency_from m ids [] = m
adjacency_from m ids (s ∷ ss) = adjacency_from (insert s.id (inner_deps ids s) m) ids ss

-- {sid: white for sid in step_ids}
unfoldable pub all_white : List String → Dict Color
all_white [] = []
all_white (sid ∷ ids) = (sid, white) ∷ all_white ids

unfoldable pub find_cycle : List DagStep → List String → Search
unfolding search adjacency_from all_white
find_cycle steps ids =
    search (adjacency_from [] ids steps) (suc (length ids)) ids
      (record { color = all_white ids; stack = [] })

-- The levels of the steps of a list, and the table of levels that they leave.
unfoldable pub levels_of :
    (String → Dict ℕ → Option (ℕ × Dict ℕ)) → List String → Dict ℕ → Option (List ℕ × Dict ℕ)
levels_of level [] levels = some ([], levels)
levels_of level (d ∷ ds) levels = elim (level d levels) [
  | none ↦ none
  | some (l, levels') ↦ elim (levels_of level ds levels') [
    | none ↦ none
    | some (ls, levels'') ↦ some (l ∷ ls, levels'')
  ]
]

-- (max(dep_levels) + 1) if dep_levels else 0
unfoldable pub above : List ℕ → ℕ
above [] = 0
above (l ∷ ls) = max (l + 1) (above ls)

module _ (steps : Dict DagStep) (ids : List String) where
  -- `_level`
  unfoldable pub level : ℕ → String → Dict ℕ → Option (ℕ × Dict ℕ)
  unfolding levels_of above lookup insert inner_deps
  level zero sid levels = none
  level (suc fuel) sid levels = elim (lookup sid levels) [
    | some l ↦ some (l, levels)
    | none ↦ elim (lookup sid steps) [
      | none ↦ some (0, levels)
      | some step ↦ elim (levels_of (level fuel) (inner_deps ids step) levels) [
        | none ↦ none
        | some (ls, levels') ↦ some (above ls, insert sid (above ls) levels')
      ]
    ]
  ]

  -- for dep in in_plan_deps
  unfoldable pub too_early_errors : String → ℕ → Dict ℕ → List String → List PlanError
  unfolding lookup_or
  too_early_errors sid l levels [] = []
  too_early_errors sid l levels (dep ∷ deps) =
      let rest = too_early_errors sid l levels deps in
      if leb l (lookup_or dep 0 levels) then too_early sid dep ∷ rest else rest

  -- `_hierarchy_errors`, from a table of levels on
  unfoldable pub hierarchy_errors : ℕ → List DagStep → Dict ℕ → List PlanError
  unfolding level too_early_errors inner_deps
  hierarchy_errors fuel [] levels = []
  hierarchy_errors fuel (s ∷ ss) levels = elim (level fuel s.id levels) [
    | none ↦ out_of_fuel ∷ []
    | some (l, levels') ↦
        too_early_errors s.id l levels' (inner_deps ids s) ++ hierarchy_errors fuel ss levels'
  ]

-- The checks of the graph, made if the ids and the dependencies have no error.
unfoldable pub graph_errors : List DagStep → List String → List PlanError
unfolding find_cycle hierarchy_errors step_map
graph_errors steps ids = elim (find_cycle steps ids) [
  | found path ↦ cycle path ∷ []
  | exhausted ↦ out_of_fuel ∷ []
  | clear d ↦ hierarchy_errors (step_map steps) ids (suc (length ids)) steps []
]

unfoldable pub ids_and_deps : List DagStep → List String → List PlanError
unfolding scan_ids all_dep_errors
ids_and_deps steps external =
    (scan_ids 0 [] steps).0 ++ all_dep_errors (scan_ids 0 [] steps).1 external steps

-- `external` is completed | available.
unfoldable pub validate_dag_structure : DagPlan → List String → List String → List PlanError
unfolding ids_and_deps graph_errors scan_ids
validate_dag_structure plan completed available =
    elim (ids_and_deps plan.steps (completed ++ available)) [
      | [] ↦ graph_errors plan.steps (scan_ids 0 [] plan.steps).1
      | e ∷ es ↦ e ∷ es
    ]
