-- ===== src/Plan/Toposort.antt =====
-- DagPlan.topological_sort of harness/models/plan.py: Kahn's algorithm, one layer per round.
pub mod Edges
pub mod Sweeps
pub mod Rounds
pub mod Start
pub mod Order
pub mod Total
use jagent.Base.{
  ℕ, zero, suc, ◌+◌, ◌-◌, String, not, ◌&&◌, ◌||◌, Option, none, some, List, [], ◌∷◌, ◌++◌, nat_eq,
  if◌then◌else◌, length, elem, Dict, lookup_or, insert, keys, Result, ok, err, ◌>>=◌,
}
use jagent.Plan.{DagStep, DagPlan}

-- The two `ValueError`s, and the end of the model's fuel, which is never reached.
pub data SortError : Type 0 where
  unknown_dependency : (step dep : String) → SortError
  cycle_detected : SortError
  out_of_fuel : SortError

-- {s.id: s for s in self.steps}
unfoldable pub step_map_from : Dict DagStep → List DagStep → Dict DagStep
step_map_from m [] = m
step_map_from m (s ∷ ss) = step_map_from (insert s.id s m) ss

unfoldable pub step_map : List DagStep → Dict DagStep
unfolding step_map_from
step_map = step_map_from []

pub record Graph : Type 0 where
  pub degrees : Dict ℕ
  pub adjacency : Dict (List String)

-- for s in self.steps: in_degree[s.id] = 0; adjacency[s.id] = []
unfoldable pub init_graph : Graph → List DagStep → Graph
init_graph g [] = g
init_graph g (s ∷ ss) =
    init_graph
      (record { degrees = insert s.id 0 g.degrees; adjacency = insert s.id [] g.adjacency }) ss

unfoldable pub add_edge : String → String → Graph → Graph
add_edge dep sid g = record {
  degrees = insert sid (lookup_or sid 0 g.degrees + 1) g.degrees;
  adjacency = insert dep (lookup_or dep [] g.adjacency ++ sid ∷ []) g.adjacency;
}

module _ (ids completed external : List String) where
  -- The loop over one step's `depends_on`.
  unfoldable pub scan_deps : String → List String → Graph → Result SortError Graph
  unfolding add_edge
  scan_deps sid [] g = ok g
  scan_deps sid (dep ∷ deps) g =
      let next =
        scan_deps sid deps
          (if not (elem dep ids) || elem dep completed then g else add_edge dep sid g) in
      if not (elem dep ids || elem dep completed || elem dep external)
      then err (unknown_dependency sid dep)
      else next

  unfoldable pub scan_steps : List DagStep → Graph → Result SortError Graph
  unfolding scan_deps
  scan_steps [] g = ok g
  scan_steps (s ∷ ss) g = scan_deps s.id s.depends_on g >>= λ g'. scan_steps ss g'

-- The local variables of the `while` loop.
pub record Sweep : Type 0 where
  pub degrees : Dict ℕ
  pub visited : ℕ
  pub layer : List String
  pub queue : List String

module _ (completed : List String) where
  -- [sid for sid, deg in in_degree.items() if deg == 0 and sid not in completed]
  unfoldable pub ready : Dict ℕ → List String
  ready [] = []
  ready ((sid, deg) ∷ m) =
      let rest = ready m in if nat_eq deg 0 && not (elem sid completed) then sid ∷ rest else rest

  -- One turn of the loop over `adjacency.get(sid, [])`. The degree is positive there.
  unfoldable pub relax : String → Sweep → Sweep
  relax neighbor s =
      let deg = lookup_or neighbor 0 s.degrees - 1 in
      record s {
        degrees = insert neighbor deg s.degrees;
        queue =
            if nat_eq deg 0 && not (elem neighbor completed)
            then s.queue ++ neighbor ∷ []
            else s.queue;
      }

  unfoldable pub relax_all : List String → Sweep → Sweep
  relax_all [] s = s
  relax_all (n ∷ ns) s = relax_all ns (relax n s)

  module _ (adjacency : Dict (List String)) where
    -- The body of `for _ in range(len(queue))`.
    unfoldable pub visit : String → Sweep → Sweep
    unfolding relax_all
    visit sid s =
        if elem sid completed
        then s
        else relax_all (lookup_or sid [] adjacency)
            (record s { layer = s.layer ++ sid ∷ []; visited = s.visited + 1 })

    unfoldable pub visit_all : List String → Sweep → Sweep
    visit_all [] s = s
    visit_all (sid ∷ todo) s = visit_all todo (visit sid s)

    -- `while queue:`, with the layers that follow and the final `visited`.
    unfoldable pub rounds : ℕ → List String → Dict ℕ → ℕ → Option (List (List String) × ℕ)
    rounds fuel [] degrees visited = some ([], visited)
    rounds zero (q ∷ queue) degrees visited = none
    rounds (suc fuel) (q ∷ queue) degrees visited =
        let s =
          visit_all (q ∷ queue)
            (record { degrees = degrees; visited = visited; layer = []; queue = [] }) in
        elim (rounds fuel s.queue s.degrees s.visited) [
          | none ↦ none
          | some (layers, total) ↦ some (s.layer ∷ layers, total)
        ]

  -- len(completed & set(steps.keys()))
  unfoldable pub completed_among : List String → ℕ
  completed_among [] = 0
  completed_among (i ∷ ids) = (if elem i completed then 1 else 0) + completed_among ids

abbrev empty_graph : Graph
empty_graph = record { degrees = []; adjacency = [] }

finish : ℕ → Option (List (List String) × ℕ) → Result SortError (List (List String))
finish total none = err out_of_fuel
finish total (some (layers, visited)) =
    if nat_eq visited total then ok layers else err cycle_detected

-- set(steps.keys())
unfoldable pub step_ids : List DagStep → List String
unfolding step_map
step_ids steps = keys (step_map steps)

unfoldable pub layers_of :
    List DagStep → List String → Graph → Result SortError (List (List String))
unfolding finish rounds ready completed_among
layers_of steps completed g = finish (length steps) (
    rounds completed g.adjacency (length steps) (ready completed g.degrees) g.degrees
      (completed_among completed (step_ids steps)))

-- `completed` and `external` are sets; their order and repetitions are never read.
unfoldable pub topological_sort :
    DagPlan → List String → List String → Result SortError (List (List String))
unfolding layers_of scan_steps init_graph step_ids
topological_sort plan completed external =
    scan_steps (step_ids plan.steps) completed external plan.steps
      (init_graph empty_graph plan.steps)
    >>= λ g. layers_of plan.steps completed g
