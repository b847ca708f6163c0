-- ===== src/Plan/Toposort/Order.antt =====
-- Properties of DagPlan.topological_sort: what the layers hold and in which order they stand.
use jagent.Base.{
  ℕ, ◌+◌, ◌≤◌, String, true, false, not, ◌&&◌, List, [], ◌∷◌, ◌++◌, nat_eq, if◌then◌else◌, length,
  elem, count, ok, err, >>=-eq-ok, ◌≡◌, refl, arith, eq_iff, elem-count, In, here, there, tally,
  tally-length, weigh, weigh-full,
}
use mathlib.Core.Path.{subst}
use jagent.Plan.{DagStep, DagPlan}
use jagent.Plan.Toposort.{
  Graph, cycle_detected, step_ids, init_graph, empty_graph, scan_steps, finish, layers_of,
  completed_among, ready, topological_sort,
}
use jagent.Plan.Toposort.Edges.{pending, pending-append, edges, edges_of_deps}
use jagent.Plan.Toposort.Rounds.{flat, IsLayered, Ran, rounds-Ran, unplaced-nil}
use jagent.Plan.Toposort.Start.{
  all_edges, count-step_ids, length-step_ids-le, AllNamed-step_ids, drawn, targets-named, start-Inv,
}

-- Each dependency of a step in a layer, if it is a step of the plan that is not completed, stands
-- in a layer before.
abbrev pub IsOrdered : List DagStep → List String → List String → List (List String) → Type 0
IsOrdered steps completed placed [] = Unit
IsOrdered steps completed placed (l ∷ ls) =
    ((s : DagStep) (dep : String)
      → In s steps
      → elem s.id l ≡ true
      → elem dep s.depends_on ≡ true
      → elem dep (step_ids steps) ≡ true
      → elem dep completed ≡ false
      → elem dep placed ≡ true)
    × IsOrdered steps completed (placed ++ l) ls

module _ (ids completed : List String) (dep : String) (named : elem dep ids ≡ true)
    (open_dep : elem dep completed ≡ false) where
  pending-edges_of_deps :
      (sid : String) (deps placed : List String)
      → elem dep deps ≡ true
      → pending (edges_of_deps ids completed sid deps) placed sid ≡ 0
      → elem dep placed ≡ true
  unfolding edges_of_deps pending elem
  pending-edges_of_deps sid [] placed h z = cc
  pending-edges_of_deps sid (d ∷ deps) placed h z =
      ground (arith, pending-edges_of_deps sid deps placed, eq_iff dep d, eq_iff sid sid)

  pending-edges :
      (ss : List DagStep) (s : DagStep) (placed : List String)
      → In s ss
      → elem dep s.depends_on ≡ true
      → pending (edges ids completed ss) placed s.id ≡ 0
      → elem dep placed ≡ true
  unfolding edges
  pending-edges [] s placed i h z = elim i [ ]
  pending-edges (t ∷ ss) s placed here h z = pending-edges_of_deps s.id s.depends_on placed h (
      omega (
        arith,
        pending-append (edges_of_deps ids completed s.id s.depends_on) (edges ids completed ss)
            placed s.id,
      ))
  pending-edges (t ∷ ss) s placed (there i) h z = pending-edges ss s placed i h (
      omega (
        arith,
        pending-append (edges_of_deps ids completed t.id t.depends_on) (edges ids completed ss)
            placed s.id,
      ))

module _ (steps : List DagStep) (completed external : List String) where
  abbrev pub ids : List String
  ids = step_ids steps

  IsLayered→IsOrdered :
      (placed : List String) (layers : List (List String))
      → IsLayered (edges ids completed steps) placed layers
      → IsOrdered steps completed placed layers
  IsLayered→IsOrdered placed [] h = tt
  IsLayered→IsOrdered placed (l ∷ ls) h = (
    λ s dep i m d k c.
        pending-edges ids completed dep k c steps s placed i d
          (h.0 s.id (ground (arith, elem-count s.id l))),
    IsLayered→IsOrdered (placed ++ l) ls h.1,
  )

  module _ (g : Graph)
      (scanned : scan_steps ids completed external steps (init_graph empty_graph steps)
        ≡ ok g) where
    pub ran :
        Ran
          (all_edges steps completed external)
          ids
          completed
          g.adjacency
          (drawn steps completed external g scanned)
          (λ d n. targets-named steps completed external d n steps (AllNamed-step_ids steps))
          (length steps)
          []
          (ready completed g.degrees)
          g.degrees
          (completed_among completed ids)
    ran =
        rounds-Ran (all_edges steps completed external) ids completed g.adjacency
          (drawn steps completed external g scanned)
          (λ d n. targets-named steps completed external d n steps (AllNamed-step_ids steps))
          (length steps) [] (ready completed g.degrees) g.degrees (completed_among completed ids)
          (start-Inv steps completed external g scanned)
          (omega (arith, unplaced-nil ids, length-step_ids-le steps))

    abbrev pub placed : List String
    placed = flat ran.layers

    pub layers_of_lem : layers_of steps completed g ≡ (
        if nat_eq (completed_among completed ids + length placed) (length steps)
        then ok ran.layers
        else err cycle_detected)
    unfolding layers_of
    layers_of_lem = rw (ran.returns, finish)

    abbrev pub weight : String → ℕ
    weight i = if elem i completed then 1 else 0

    pub completed_among-weigh :
        (is : List String) → completed_among completed is ≡ weigh weight placed is
    unfolding completed_among weigh
    completed_among-weigh [] = refl
    completed_among-weigh (i ∷ is) = omega (arith, completed_among-weigh is)

    pub small : (i : String) → weight i + count i placed ≤ 1
    unfolding count
    small i = ground (arith, ran.ends.once i, ran.ends.known i)

    pub visited-tally : tally ids placed ≡ length placed
    unfolding count
    visited-tally = tally-length ids placed (λ n k.
        ground (arith, ran.ends.known n (omega arith), elem-count n ids, count-step_ids n steps))

    -- All steps that are not completed have been placed if the count agrees.
    covers :
        completed_among completed ids + length placed ≡ length steps
        → (n : String) → count n placed ≡ (if elem n ids && not (elem n completed) then 1 else 0)
    unfolding count
    covers e n = ground (
      arith,
      weigh-full weight placed small ids
          (omega (arith, completed_among-weigh ids, visited-tally, length-step_ids-le steps)) n,
      elem-count n ids,
      ran.ends.known n,
      ran.ends.once n,
    )

    sorts :
        (layers : List (List String))
        → layers_of steps completed g ≡ ok layers
        → (ran.layers ≡ layers) × (completed_among completed ids + length placed ≡ length steps)
    sorts layers h = ground (arith, layers_of_lem)

-- If `topological_sort` returns layers, every dependency of a scheduled step that is itself a step
-- of the plan and not completed stands in an earlier layer.
pub topological_sort-IsOrdered :
    (plan : DagPlan) (completed external : List String) (layers : List (List String))
    → topological_sort plan completed external ≡ ok layers
    → IsOrdered plan.steps completed [] layers
unfolding topological_sort
topological_sort-IsOrdered plan completed external layers h =
    let (g, scanned, sorted) =
      >>=-eq-ok
        (scan_steps (step_ids plan.steps) completed external plan.steps
          (init_graph empty_graph plan.steps))
        (λ k. layers_of plan.steps completed k) h in
    subst (IsOrdered plan.steps completed [])
      (sorts plan.steps completed external g scanned layers sorted).0
      (IsLayered→IsOrdered plan.steps completed external [] _
        (ran plan.steps completed external g scanned).layered)

-- If `topological_sort` returns layers, they hold each step id of the plan that is not completed
-- exactly once, and nothing else.
pub topological_sort-count :
    (plan : DagPlan) (completed external : List String) (layers : List (List String)) (n : String)
    → topological_sort plan completed external ≡ ok layers
    → count n (flat layers)
      ≡ (if elem n (step_ids plan.steps) && not (elem n completed) then 1 else 0)
unfolding topological_sort
topological_sort-count plan completed external layers n h =
    let (g, scanned, sorted) =
      >>=-eq-ok
        (scan_steps (step_ids plan.steps) completed external plan.steps
          (init_graph empty_graph plan.steps))
        (λ k. layers_of plan.steps completed k) h in
    let (same, full) = sorts plan.steps completed external g scanned layers sorted in
    subst
      (λ ls.
        count n (flat ls)
        ≡ (if elem n (step_ids plan.steps) && not (elem n completed) then 1 else 0))
      same (covers plan.steps completed external g scanned full n)
