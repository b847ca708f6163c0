-- ===== src/Plan/Structure/Accepted.antt =====
-- A plan without structure errors can be sorted.
use jagent.Base.{
  ℕ, suc, ◌≤◌, ◌<◌, String, true, ◌&&◌, List, [], ◌∷◌, ◌++◌, elem, elem-count, elem-append, count,
  length, filter, Dict, lookup, lookup_or, lookup_or-insert, insert, In, here, there, ok, ◌≡◌, refl,
  sym, ap, ◌∙◌, arith, eq_iff,
}
use mathlib.Core.Path.{subst}
use jagent.Plan.{DagStep, DagPlan}
use jagent.Plan.Toposort.{step_ids, topological_sort}
use jagent.Plan.Toposort.Start.{ids_of, count-step_ids}
use jagent.Plan.Toposort.Total.{IsKnown, IsRanked, topological_sort-returns}
use jagent.Plan.Structure.{
  PlanError, scan_ids, ids_and_deps, Search, found, clear, exhausted, Dfs, white, inner_deps,
  adjacency_from, find_cycle, graph_errors, all_white, validate_dag_structure,
}
use jagent.Plan.Structure.Clean.{IsClean, ids_and_deps-IsClean}
use jagent.Plan.Structure.Colors.{color_of, adj, Settled, whites-length}
use jagent.Plan.Structure.Acyclic.{
  IsDone, HasNoGray, search-IsDone, position, position-le, position-Settled,
}

-- The table of the search has, for each step, its dependencies among the ids.
adjacency_from-lookup :
    (ids : List String) (n : String) (m : Dict (List String)) (ss : List DagStep)
    → count n (ids_of ss) ≡ 0
    → lookup_or n [] (adjacency_from m ids ss) ≡ lookup_or n [] m
unfolding adjacency_from count
adjacency_from-lookup ids n m [] h = refl
adjacency_from-lookup ids n m (s ∷ ss) h =
    adjacency_from-lookup ids n (insert s.id (inner_deps ids s) m) ss (omega arith)
    ∙ lookup_or-insert s.id n (inner_deps ids s) [] m
    ∙ ground (arith, eq_iff n s.id, eq_iff s.id n)

adjacency_from-In :
    (ids : List String) (m : Dict (List String)) (ss : List DagStep) (s : DagStep)
    → ((n : String) → count n (ids_of ss) ≤ 1)
    → In s ss
    → lookup_or s.id [] (adjacency_from m ids ss) ≡ inner_deps ids s
unfolding adjacency_from count
adjacency_from-In ids m [] s once i = elim i [ ]
adjacency_from-In ids m (t ∷ ss) s once here =
    adjacency_from-lookup ids s.id (insert s.id (inner_deps ids s) m) ss
      (ground (arith, once s.id, eq_iff s.id s.id))
    ∙ lookup_or-insert s.id s.id (inner_deps ids s) [] m
    ∙ ground (arith, eq_iff s.id s.id)
adjacency_from-In ids m (t ∷ ss) s once (there i) =
    adjacency_from-In ids (insert t.id (inner_deps ids t) m) ss s (λ n. omega (arith, once n)) i

pub elem-filter :
    (ids deps : List String) (d : String)
    → elem d (filter (λ x. elem x ids) deps) ≡ (elem d deps && elem d ids)
unfolding elem
elem-filter ids [] d = refl
elem-filter ids (x ∷ deps) d = ground (arith, elem-filter ids deps d, eq_iff d x)

-- Every dependency in the table is an id.
adjacency_from-inner :
    (ids : List String) (m : Dict (List String)) (ss : List DagStep)
    → ((n d : String) → elem d (lookup_or n [] m) ≡ true → elem d ids ≡ true)
    → (n d : String) → elem d (lookup_or n [] (adjacency_from m ids ss)) ≡ true
    → elem d ids ≡ true
unfolding adjacency_from inner_deps
adjacency_from-inner ids m [] h n d e = h n d e
adjacency_from-inner ids m (s ∷ ss) h n d e =
    adjacency_from-inner ids (insert s.id (inner_deps ids s) m) ss
      (λ k x f. ground (
        arith,
        lookup_or-insert s.id k (inner_deps ids s) [] m,
        elem-filter ids s.depends_on x,
        h k x,
      ))
      n d e

-- The state in which the search starts.
unfoldable pub start : List String → Dfs
unfolding all_white
start ids = record { color = all_white ids; stack = [] }

start-white : (ids : List String) (n : String) → color_of (start ids) n ≡ white
unfolding start all_white color_of lookup_or lookup
start-white [] n = refl
start-white (i ∷ ids) n = ground (arith, start-white ids n)

-- The search ends, with a cycle or with all ids finished.
pub find_cycle-IsDone :
    (steps : List DagStep) (ids : List String)
    → IsDone (adjacency_from [] ids steps) ids (start ids) [] ids (find_cycle steps ids)
unfolding find_cycle start adj HasNoGray Settled elem lookup_or lookup
find_cycle-IsDone steps ids =
    search-IsDone (adjacency_from [] ids steps) ids
      (λ n m e. adjacency_from-inner ids [] steps (λ k x f. cc) n m e) (suc (length ids)) ids
      (start ids) [] (λ m h. h) (λ n g. ground (arith, start-white ids n))
      (record {
        settled = tt;
        sound = λ n b. ground (arith, start-white ids n);
        complete = λ n b. cc;
      })
      (omega (arith, whites-length ids (start ids)))

pub elem-step_ids :
    (n : String) (steps : List DagStep) → elem n (step_ids steps) ≡ elem n (ids_of steps)
elem-step_ids n steps =
    ground
      (arith, elem-count n (step_ids steps), elem-count n (ids_of steps), count-step_ids n steps)

elem-ids_of : (s : DagStep) (steps : List DagStep) → In s steps → elem s.id (ids_of steps) ≡ true
unfolding elem
elem-ids_of s [] i = elim i [ ]
elem-ids_of s (t ∷ steps) here = ground (arith, eq_iff s.id s.id)
elem-ids_of s (t ∷ steps) (there i) = ground (arith, elem-ids_of s steps i)

-- A search that ended without a cycle ranks the steps, below the fuel.
pub clear-IsRanked :
    (plan : DagPlan) (external : List String) (d : Dfs)
    → (c : IsClean plan external (ids_of plan.steps))
    → IsDone
        (adjacency_from [] (ids_of plan.steps) plan.steps)
        (ids_of plan.steps)
        (start (ids_of plan.steps))
        []
        (ids_of plan.steps)
        (clear d)
    → (rank : String → ℕ) × IsRanked rank plan.steps
      × ((n : String) → rank n < suc (length (ids_of plan.steps)))
unfolding IsDone adj inner_deps
clear-IsRanked plan external d c (ms, b, later, all, keep, less) = (
  position ms,
  ranked,
  λ n. omega (
    arith,
    less,
    position-le ms n,
    whites-length (ids_of plan.steps) (start (ids_of plan.steps)),
  ),
)
  where
    ranked : IsRanked (position ms) plan.steps
    ranked s dep i e inside =
        let known : elem dep (ids_of plan.steps) ≡ true =
          sym (elem-step_ids dep plan.steps) ∙ inside in
        let listed =
          ap (elem dep) (adjacency_from-In (ids_of plan.steps) [] plan.steps s c.unique i)
          ∙ elem-filter (ids_of plan.steps) s.depends_on dep
          ∙ ground (arith, e, known) in
        (position-Settled (adjacency_from [] (ids_of plan.steps) plan.steps) ms s.id dep b.settled
          (all s.id (elem-ids_of s plan.steps i)) listed).1

graph_errors-sorts :
    (plan : DagPlan) (completed available : List String)
    → IsClean plan (completed ++ available) (ids_of plan.steps)
    → graph_errors plan.steps (ids_of plan.steps) ≡ []
    → (layers : List (List String)) × (topological_sort plan completed available ≡ ok layers)
unfolding graph_errors IsDone
graph_errors-sorts plan completed available c g =
    go (find_cycle plan.steps (ids_of plan.steps)) refl
      (find_cycle-IsDone plan.steps (ids_of plan.steps))
  where
    known : IsKnown plan.steps completed available
    known s dep i e = ground (
      arith,
      c.known s dep i e,
      elem-append dep completed available,
      elem-step_ids dep plan.steps,
    )

    go :
        (r : Search)
        → find_cycle plan.steps (ids_of plan.steps) ≡ r
        → IsDone
            (adjacency_from [] (ids_of plan.steps) plan.steps)
            (ids_of plan.steps)
            (start (ids_of plan.steps))
            []
            (ids_of plan.steps)
            r
        → (layers : List (List String)) × (topological_sort plan completed available ≡ ok layers)
    go (found path) e done = absurd (ground arith)
    go exhausted e done = absurd done
    go (clear d) e done =
        let (rank, ranked, low) = clear-IsRanked plan (completed ++ available) d c done in
        topological_sort-returns plan completed available rank known c.unique ranked

-- If validate_dag_structure finds no error in a plan, with the given completed and available steps, then
-- topological_sort returns layers for it: a plan that is accepted never fails in the executor for an
-- unknown dependency or for a cycle.
pub validate_dag_structure-sorts :
    (plan : DagPlan) (completed available : List String)
    → validate_dag_structure plan completed available ≡ []
    → (layers : List (List String)) × (topological_sort plan completed available ≡ ok layers)
unfolding validate_dag_structure
validate_dag_structure-sorts plan completed available h =
    go (ids_and_deps plan.steps (completed ++ available)) refl
  where
    sorted :
        IsClean plan (completed ++ available) (scan_ids 0 [] plan.steps).1
        → graph_errors plan.steps (scan_ids 0 [] plan.steps).1 ≡ []
        → (layers : List (List String)) × (topological_sort plan completed available ≡ ok layers)
    sorted c g =
        graph_errors-sorts plan completed available
          (subst (IsClean plan (completed ++ available)) c.all_ids c)
          (subst (λ ids. graph_errors plan.steps ids ≡ []) c.all_ids g)

    go :
        (es : List PlanError)
        → ids_and_deps plan.steps (completed ++ available) ≡ es
        → (layers : List (List String)) × (topological_sort plan completed available ≡ ok layers)
    go [] clean =
        sorted (ids_and_deps-IsClean plan (completed ++ available) clean)
          (rw (clean, validate_dag_structure) at h)
    go (e ∷ es) bad = absurd (ground arith)
