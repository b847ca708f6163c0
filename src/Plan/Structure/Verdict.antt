-- ===== src/Plan/Structure/Verdict.antt =====
-- A plan whose ids and dependencies are right has a cycle or no error.
use jagent.Base.{
  ℕ, suc, ◌≤◌, ◌<◌, ◌&&◌, String, true, List, [], ◌∷◌, ◌++◌, ◌==◌, elem, count, length, Dict,
  lookup, lookup-insert, insert, some, In, here, there, ◌≡◌, ◌⊎◌, refl, sym, ap, ◌∙◌, arith, eq_iff,
  inl, inr, Bool-cases,
}
use mathlib.Core.Path.{subst}
use jagent.Plan.{DagStep, DagPlan}
use jagent.Plan.Toposort.{step_map_from, step_map}
use jagent.Plan.Toposort.Start.{ids_of}
use jagent.Plan.Toposort.Total.{IsRanked, HasUniqueIds}
use jagent.Plan.Structure.{
  cycle, scan_ids, ids_and_deps, Search, found, clear, exhausted, inner_deps, adjacency_from,
  find_cycle, graph_errors, validate_dag_structure,
}
use jagent.Plan.Structure.Acyclic.{IsDone}
use jagent.Plan.Structure.Clean.{IsClean, ids_and_deps-IsClean}
use jagent.Plan.Structure.Accepted.{
  start, find_cycle-IsDone, clear-IsRanked, elem-step_ids, elem-filter,
}
use jagent.Plan.Structure.Levels.{IsTabled, IsRankedMap, hierarchy_errors-nil}

-- What the step map holds is a step of the plan, under its id.
step_map_from-In :
    (n : String) (t : DagStep) (m : Dict DagStep) (ss : List DagStep)
    → lookup n (step_map_from m ss) ≡ some t
    → (lookup n m ≡ some t) ⊎ (In t ss × (t.id ≡ n))
unfolding step_map_from
step_map_from-In n t m [] h = inl h
step_map_from-In n t m (s ∷ ss) h = elim (step_map_from-In n t (insert s.id s m) ss h) [
  | inr (i, e) ↦ inr (there i, e)
  | inl old ↦ elim (Bool-cases (s.id == n)) [
    | inl same ↦
        let is_t : s ≡ t = ground (arith, lookup-insert s.id n s m) in
        let is_n : s.id ≡ n = ground (arith, eq_iff s.id n) in
        inr (subst (λ x. In x (s ∷ ss) × (x.id ≡ n)) is_t (here, is_n))
    | inr other ↦ inl (ground (arith, lookup-insert s.id n s m))
  ]
]

step_map-In :
    (n : String) (t : DagStep) (ss : List DagStep)
    → lookup n (step_map ss) ≡ some t
    → In t ss × (t.id ≡ n)
unfolding step_map lookup
step_map-In n t ss h = elim (step_map_from-In n t [] ss h) [ inl old ↦ cc | inr new ↦ new ]

step_map_from-keeps :
    (n : String) (m : Dict DagStep) (ss : List DagStep)
    → count n (ids_of ss) ≡ 0
    → lookup n (step_map_from m ss) ≡ lookup n m
unfolding step_map_from count
step_map_from-keeps n m [] h = refl
step_map_from-keeps n m (s ∷ ss) h =
    step_map_from-keeps n (insert s.id s m) ss (omega arith)
    ∙ lookup-insert s.id n s m
    ∙ ground (arith, eq_iff n s.id, eq_iff s.id n)

-- A step with an id of its own is what the step map holds.
step_map_from-lookup :
    (m : Dict DagStep) (ss : List DagStep) (s : DagStep)
    → ((n : String) → count n (ids_of ss) ≤ 1)
    → In s ss
    → lookup s.id (step_map_from m ss) ≡ some s
unfolding step_map_from count
step_map_from-lookup m [] s once i = elim i [ ]
step_map_from-lookup m (t ∷ ss) s once here =
    step_map_from-keeps s.id (insert s.id s m) ss (ground (arith, once s.id, eq_iff s.id s.id))
    ∙ lookup-insert s.id s.id s m
    ∙ ground (arith, eq_iff s.id s.id)
step_map_from-lookup m (t ∷ ss) s once (there i) =
    step_map_from-lookup (insert t.id t m) ss s (λ n. omega (arith, once n)) i

-- An id is the id of a step.
elem-ids_of-In :
    (n : String) (ss : List DagStep)
    → elem n (ids_of ss) ≡ true
    → (t : DagStep) × In t ss × (t.id ≡ n)
unfolding elem
elem-ids_of-In n [] h = cc
elem-ids_of-In n (s ∷ ss) h = elim (Bool-cases (n == s.id)) [
  | inl same ↦ (s, here, ground (arith, eq_iff n s.id))
  | inr other ↦ let (t, i, e) = elem-ids_of-In n ss (ground arith) in (t, there i, e)
]

-- The rank of the steps serves for their map.
ranked_map :
    (steps : List DagStep) (rank : String → ℕ)
    → HasUniqueIds steps
    → IsRanked rank steps
    → IsRankedMap (step_map steps) (ids_of steps) rank
unfolding inner_deps step_map
ranked_map steps rank unique ranked = record {
  below = λ sid dep s h e.
      let (i, is_sid) = step_map-In sid s steps h in
      let both : (elem dep s.depends_on && elem dep (ids_of steps)) ≡ true =
        sym (elem-filter (ids_of steps) s.depends_on dep) ∙ e in
      subst (λ n. rank dep < rank n) is_sid
        (ranked s dep i (ground arith) (elem-step_ids dep steps ∙ ground arith));
  known = λ sid dep s h e.
      let both : (elem dep s.depends_on && elem dep (ids_of steps)) ≡ true =
        sym (elem-filter (ids_of steps) s.depends_on dep) ∙ e in
      let (t, i, is_dep) = elem-ids_of-In dep steps (ground arith) in
      (
        t,
        ap (λ n. lookup n (step_map steps)) (sym is_dep) ∙ step_map_from-lookup [] steps t unique i,
      );
}

graph_errors-verdict :
    (plan : DagPlan) (external : List String)
    → IsClean plan external (ids_of plan.steps)
    → (graph_errors plan.steps (ids_of plan.steps) ≡ [])
      ⊎ ((path : List String) × (graph_errors plan.steps (ids_of plan.steps) ≡ cycle path ∷ []))
unfolding graph_errors IsDone IsTabled lookup step_map
graph_errors-verdict plan external c =
    go (find_cycle plan.steps (ids_of plan.steps)) refl
      (find_cycle-IsDone plan.steps (ids_of plan.steps))
  where
    go :
        (r : Search)
        → find_cycle plan.steps (ids_of plan.steps) ≡ r
        → IsDone
            (adjacency_from [] (ids_of plan.steps) plan.steps)
            (ids_of plan.steps)
            (start (ids_of plan.steps))
            []
            (ids_of plan.steps)
            r
        → (graph_errors plan.steps (ids_of plan.steps) ≡ [])
          ⊎ ((path : List String) × (graph_errors plan.steps (ids_of plan.steps) ≡ cycle path ∷ []))
    go (found path) e done = inr (path, rw (e, graph_errors) refl)
    go exhausted e done = absurd done
    go (clear d) e done =
        let (rank, ranked, low) = clear-IsRanked plan external d c done in
        inl (
          rw (e, graph_errors)
            (hierarchy_errors-nil (step_map plan.steps) (ids_of plan.steps) rank
              (suc (length (ids_of plan.steps))) plan.steps []
              (ranked_map plan.steps rank c.unique ranked) (λ n l s h k. cc)
              (λ s i. (step_map_from-lookup [] plan.steps s c.unique i, low s.id))))

-- If the first two loops of validate_dag_structure find no error, with the completed and the available
-- steps as the external ones, then the function returns no error at all, or exactly one, a cycle with
-- its path. The search and the levels do not run out of fuel, and on a plan without a cycle the check of
-- the hierarchy reports nothing.
pub validate_dag_structure-verdict :
    (plan : DagPlan) (completed available : List String)
    → ids_and_deps plan.steps (completed ++ available) ≡ []
    → (validate_dag_structure plan completed available ≡ [])
      ⊎ ((path : List String) × (validate_dag_structure plan completed available ≡ cycle path ∷ []))
unfolding validate_dag_structure
validate_dag_structure-verdict plan completed available clean =
    rw (clean, validate_dag_structure)
      (rw c.all_ids (
        graph_errors-verdict plan (completed ++ available)
          (subst (IsClean plan (completed ++ available)) c.all_ids c)))
  where
    c : IsClean plan (completed ++ available) (scan_ids 0 [] plan.steps).1
    c = ids_and_deps-IsClean plan (completed ++ available) clean
