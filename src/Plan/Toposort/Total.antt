-- ===== src/Plan/Toposort/Total.antt =====
-- Properties of DagPlan.topological_sort: on which plans it returns, and what it raises on others.
use jagent.Base.{
  ℕ, zero, suc, ◌≤◌, ◌<◌, String, true, false, ◌||◌, List, [], ◌∷◌, elem, count, ok, err, >>=-eq-ok,
  err≢ok, Result-cases, ◌≡◌, ◌⊎◌, refl, arith, eq_iff, elem-count, In, here, there, Bool-cases, inl,
  inr, weigh-exact,
}
use jagent.Plan.{DagStep, DagPlan}
use jagent.Plan.Toposort.{
  Graph, SortError, cycle_detected, unknown_dependency, step_ids, init_graph, empty_graph,
  scan_deps, scan_steps, layers_of, topological_sort,
}
use jagent.Plan.Toposort.Edges.{pending, pending-append, edges, edges_of_deps}
use jagent.Plan.Toposort.Start.{ids_of, length-step_ids}
use jagent.Plan.Toposort.Order.{
  ran, placed, layers_of_lem, completed_among-weigh, weight, visited-tally,
}

-- Each dependency is a step of the plan, completed, or available from outside.
abbrev pub IsKnown : List DagStep → List String → List String → Type 0
IsKnown steps completed external =
    (s : DagStep) (dep : String)
    → In s steps
    → elem dep s.depends_on ≡ true
    → (elem dep (step_ids steps) || elem dep completed || elem dep external) ≡ true

-- Each dependency within the plan ranks below the step: the dependency graph has no cycle.
abbrev pub IsRanked : (String → ℕ) → List DagStep → Type 0
IsRanked rank steps =
    (s : DagStep) (dep : String)
    → In s steps
    → elem dep s.depends_on ≡ true
    → elem dep (step_ids steps) ≡ true
    → rank dep < rank s.id

-- No two steps have the same id.
abbrev pub HasUniqueIds : List DagStep → Type 0
HasUniqueIds steps = (n : String) → count n (ids_of steps) ≤ 1

module _ (ids completed external : List String) where
  scan_deps-returns :
      (sid : String) (deps : List String) (g : Graph)
      → ((dep : String)
          → elem dep deps ≡ true
          → (elem dep ids || elem dep completed || elem dep external) ≡ true)
      → (g' : Graph) × (scan_deps ids completed external sid deps g ≡ ok g')
  unfolding scan_deps elem
  scan_deps-returns sid [] g h = (g, refl)
  scan_deps-returns sid (d ∷ deps) g h =
      rw (h d (ground (arith, eq_iff d d)))
        (scan_deps-returns sid deps _ (λ e k. h e (ground arith)))

  scan_steps-returns :
      (ss : List DagStep) (g : Graph)
      → ((s : DagStep) (dep : String)
          → In s ss
          → elem dep s.depends_on ≡ true
          → (elem dep ids || elem dep completed || elem dep external) ≡ true)
      → (g' : Graph) × (scan_steps ids completed external ss g ≡ ok g')
  unfolding scan_steps
  scan_steps-returns [] g h = (g, refl)
  scan_steps-returns (s ∷ ss) g h =
      let (m, first) = scan_deps-returns s.id s.depends_on g (λ d k. h s d here k) in
      let (g', rest) = scan_steps-returns ss m (λ t d i k. h t d (there i) k) in (g', rw first rest)

  scan_deps-raises :
      (sid : String) (deps : List String) (g : Graph) (e : SortError)
      → scan_deps ids completed external sid deps g ≡ err e
      → (dep : String) × (e ≡ unknown_dependency sid dep)
        × (elem dep deps ≡ true)
        × ((elem dep ids || elem dep completed || elem dep external) ≡ false)
  unfolding scan_deps elem
  scan_deps-raises sid [] g e h = cc
  scan_deps-raises sid (d ∷ deps) g e h =
      elim (Bool-cases (elem d ids || elem d completed || elem d external)) [
        | inl found ↦
            let (dep, same, listed, lost) = scan_deps-raises sid deps _ e (rw found at h) in
            (dep, same, ground arith, lost)
        | inr lost ↦ (d, ground arith, ground (arith, eq_iff d d), lost)
      ]

  scan_steps-raises :
      (ss : List DagStep) (g : Graph) (e : SortError)
      → scan_steps ids completed external ss g ≡ err e
      → (s : DagStep) × (dep : String) × (e ≡ unknown_dependency s.id dep)
        × In s ss
        × (elem dep s.depends_on ≡ true)
        × ((elem dep ids || elem dep completed || elem dep external) ≡ false)
  unfolding scan_steps
  scan_steps-raises [] g e h = cc
  scan_steps-raises (s ∷ ss) g e h =
      elim (Result-cases (scan_deps ids completed external s.id s.depends_on g)) [
        | inl (m, first) ↦
            let (t, dep, same, i, listed, lost) = scan_steps-raises ss m e (rw first at h) in
            (t, dep, same, there i, listed, lost)
        | inr (e', first) ↦
            let (dep, same, listed, lost) =
              scan_deps-raises s.id s.depends_on g e (cc (first, rw first at h)) in
            (s, dep, same, here, listed, lost)
      ]

  scan_deps-known :
      (sid : String) (deps : List String) (g g' : Graph)
      → scan_deps ids completed external sid deps g ≡ ok g'
      → (dep : String) → elem dep deps ≡ true
      → (elem dep ids || elem dep completed || elem dep external) ≡ true
  unfolding scan_deps elem
  scan_deps-known sid [] g g' h dep k = cc
  scan_deps-known sid (d ∷ deps) g g' h dep k =
      elim (Bool-cases (elem d ids || elem d completed || elem d external)) [
        | inl found ↦
            ground (arith, scan_deps-known sid deps _ g' (rw found at h) dep, found, eq_iff dep d)
        | inr lost ↦ absurd (err≢ok (rw lost at h))
      ]

  scan_steps-known :
      (ss : List DagStep) (g g' : Graph)
      → scan_steps ids completed external ss g ≡ ok g'
      → (s : DagStep) (dep : String) → In s ss
      → elem dep s.depends_on ≡ true
      → (elem dep ids || elem dep completed || elem dep external) ≡ true
  unfolding scan_steps
  scan_steps-known [] g g' h s dep i k = elim i [ ]
  scan_steps-known (t ∷ ss) g g' h s dep here k =
      scan_deps-known s.id s.depends_on g _
        (>>=-eq-ok (scan_deps ids completed external s.id s.depends_on g)
          (λ f. scan_steps ids completed external ss f) h).1
        dep k
  scan_steps-known (t ∷ ss) g g' h s dep (there i) k =
      let (m, first, rest) =
        >>=-eq-ok (scan_deps ids completed external t.id t.depends_on g)
          (λ f. scan_steps ids completed external ss f) h in
      scan_steps-known ss m g' rest s dep i k

module _ (ids completed : List String) (placed : List String) (n : String) where
  pending-edges_of_deps-zero :
      (sid : String) (deps : List String)
      → (sid ≡ n
          → (d : String) → elem d deps ≡ true
          → elem d ids ≡ true
          → elem d completed ≡ false
          → elem d placed ≡ true)
      → pending (edges_of_deps ids completed sid deps) placed n ≡ 0
  unfolding pending edges_of_deps elem
  pending-edges_of_deps-zero sid [] h = refl
  pending-edges_of_deps-zero sid (d ∷ deps) h = ground (
    arith,
    pending-edges_of_deps-zero sid deps (λ e c k. h e c (ground arith)),
    λ (e : sid ≡ n). h e d,
    eq_iff d d,
    eq_iff sid n,
  )

  pending-edges-zero :
      (ss : List DagStep)
      → ((s : DagStep)
          → In s ss
          → s.id ≡ n
          → (d : String) → elem d s.depends_on ≡ true
          → elem d ids ≡ true
          → elem d completed ≡ false
          → elem d placed ≡ true)
      → pending (edges ids completed ss) placed n ≡ 0
  unfolding pending edges
  pending-edges-zero [] h = refl
  pending-edges-zero (s ∷ ss) h = omega (
    arith,
    pending-append (edges_of_deps ids completed s.id s.depends_on) (edges ids completed ss) placed
        n,
    pending-edges_of_deps-zero s.id s.depends_on (h s here),
    pending-edges-zero ss (λ t i. h t (there i)),
  )

module _ (steps : List DagStep) (completed external : List String) (g : Graph)
    (scanned : scan_steps (step_ids steps) completed external steps (init_graph empty_graph steps)
      ≡ ok g) where
  abbrev done : List String
  done = placed steps completed external g scanned

  -- By induction on the rank, every step that is not completed gets placed.
  all_placed :
      (rank : String → ℕ)
      → IsRanked rank steps
      → (k : ℕ) (n : String) → rank n < k
      → elem n (step_ids steps) ≡ true
      → elem n completed ≡ false
      → 1 ≤ count n done
  unfolding count
  all_placed rank ranked zero n lt i c = absurd (omega arith)
  all_placed rank ranked (suc k) n lt i c =
      let ends = (ran steps completed external g scanned).ends in
      let free : pending (edges (step_ids steps) completed steps) done n ≡ 0 =
        pending-edges-zero (step_ids steps) completed done n steps (λ s m e d listed named open_dep.
          ground (
            arith,
            elem-count d done,
            all_placed rank ranked k d (ground (arith, ranked s d m listed named)) named open_dep,
          )) in
      omega (arith, ends.found n i c (omega (arith, ends.degree n, free)))

  layers_of-returns :
      (rank : String → ℕ)
      → IsRanked rank steps
      → HasUniqueIds steps
      → layers_of steps completed g ≡ ok (ran steps completed external g scanned).layers
  unfolding count
  layers_of-returns rank ranked unique = ground (
    arith,
    layers_of_lem steps completed external g scanned,
    weigh-exact (weight steps completed external g scanned) done (step_ids steps) (λ n k. ground (
      arith,
      all_placed rank ranked (suc (rank n)) n (omega arith),
      elem-count n (step_ids steps),
      (ran steps completed external g scanned).ends.once n,
      (ran steps completed external g scanned).ends.known n,
    )),
    completed_among-weigh steps completed external g scanned (step_ids steps),
    visited-tally steps completed external g scanned,
    length-step_ids steps unique,
  )

-- If all dependencies of the plan are known, its step ids are unique and its dependency graph has
-- no cycle, `topological_sort` returns layers.
pub topological_sort-returns :
    (plan : DagPlan) (completed external : List String) (rank : String → ℕ)
    → IsKnown plan.steps completed external
    → HasUniqueIds plan.steps
    → IsRanked rank plan.steps
    → (layers : List (List String)) × (topological_sort plan completed external ≡ ok layers)
unfolding topological_sort
topological_sort-returns plan completed external rank known unique ranked =
    let (g, scanned) =
      scan_steps-returns (step_ids plan.steps) completed external plan.steps
        (init_graph empty_graph plan.steps) known in
    (
      (ran plan.steps completed external g scanned).layers,
      rw scanned (layers_of-returns plan.steps completed external g scanned rank ranked unique),
    )

-- The only exceptions of `topological_sort` are an unknown dependency of a step, which is then one
-- that is neither in the plan nor completed nor external, and a cycle.
pub topological_sort_errors :
    (plan : DagPlan) (completed external : List String) (e : SortError)
    → topological_sort plan completed external ≡ err e
    → ((s : DagStep) × (dep : String) × (e ≡ unknown_dependency s.id dep)
        × In s plan.steps
        × (elem dep s.depends_on ≡ true)
        × ((elem dep (step_ids plan.steps) || elem dep completed || elem dep external) ≡ false))
      ⊎ (e ≡ cycle_detected) × IsKnown plan.steps completed external
unfolding topological_sort
topological_sort_errors plan completed external e h =
    elim (Result-cases (
      scan_steps (step_ids plan.steps) completed external plan.steps
        (init_graph empty_graph plan.steps))) [
          | inl (g, scanned) ↦ inr (
            ground (arith, layers_of_lem plan.steps completed external g scanned, rw scanned at h),
            scan_steps-known (step_ids plan.steps) completed external plan.steps _ g scanned,
          )
          | inr (e', raised) ↦ inl (
              scan_steps-raises (step_ids plan.steps) completed external plan.steps
                (init_graph empty_graph plan.steps) e (cc (raised, rw raised at h)))
        ]
