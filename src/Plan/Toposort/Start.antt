-- ===== src/Plan/Toposort/Start.antt =====
-- What `topological_sort` starts its loop with: the graph of all edges, and the steps without one.
use jagent.Base.{
  ℕ, ◌+◌, ◌≤◌, String, true, not, ◌&&◌, List, [], ◌∷◌, map, nat_eq, if◌then◌else◌, length, elem,
  count, Dict, lookup, lookup_or, insert, keys, ok, >>=-eq-ok, ◌≡◌, refl, ◌∙◌, arith, eq_iff,
  count-append, elem-count, lookup_or-insert, Bool-cases, inl, inr, All, count-keys-insert,
  length-keys-insert,
}
use jagent.Plan.{DagStep}
use jagent.Plan.Toposort.{
  Graph, step_map_from, step_map, step_ids, init_graph, empty_graph, add_edge, scan_deps,
  scan_steps, ready,
}
use jagent.Plan.Toposort.Edges.{
  Edges, pending, targets, targets-append, edges, edges_of_deps, Extends, scan_steps-Extends, skips,
  scan_deps-cons,
}
use jagent.Plan.Toposort.Sweeps.{Inv}

-- Every step has one of the ids.
abbrev pub AllNamed : List String → List DagStep → Type 0
AllNamed ids = All (λ s. 1 ≤ count s.id ids)

-- The ids of the steps in order, repetitions kept.
abbrev pub ids_of : List DagStep → List String
ids_of steps = map (λ s. s.id) steps

count-step_map_from :
    (n : String) (m : Dict DagStep) (ss : List DagStep)
    → count n (keys (step_map_from m ss)) ≡ (
        if nat_eq (count n (keys m)) 0
        then (if nat_eq (count n (ids_of ss)) 0 then 0 else 1)
        else count n (keys m))
unfolding step_map_from count
count-step_map_from n m [] = ground arith
count-step_map_from n m (s ∷ ss) = ground (
  arith,
  count-step_map_from n (insert s.id s m) ss,
  count-keys-insert s.id n s m,
  eq_iff s.id n,
  eq_iff n s.id,
)

-- The keys of the step map are the ids of the steps, each once.
pub count-step_ids :
    (n : String) (steps : List DagStep)
    → count n (step_ids steps) ≡ (if nat_eq (count n (ids_of steps)) 0 then 0 else 1)
unfolding step_ids keys count
count-step_ids n steps = count-step_map_from n [] steps

pub AllNamed-step_ids : (steps : List DagStep) → AllNamed (step_ids steps) steps
unfolding count
AllNamed-step_ids steps = named steps (λ n h. ground (arith, count-step_ids n steps))
  where
    named :
        (after : List DagStep)
        → ((n : String) → 1 ≤ count n (ids_of after) → 1 ≤ count n (step_ids steps))
        → AllNamed (step_ids steps) after
    named [] h = tt
    named (s ∷ ss) h =
        (h s.id (ground (arith, eq_iff s.id s.id)), named ss (λ n k. h n (omega arith)))

length-step_map_from :
    (m : Dict DagStep) (ss : List DagStep)
    → (length (keys (step_map_from m ss)) ≤ length (keys m) + length ss)
      × (((n : String) → count n (keys m) + count n (ids_of ss) ≤ 1)
          → length (keys (step_map_from m ss)) ≡ length (keys m) + length ss)
unfolding step_map_from count
length-step_map_from m [] = (omega arith, λ h. omega arith)
length-step_map_from m (s ∷ ss) =
    let (bound, exact) = length-step_map_from (insert s.id s m) ss in
    (
      ground (arith, bound, length-keys-insert s.id s m),
      λ h. ground (
        arith,
        exact
            (λ n. ground (arith, h n, count-keys-insert s.id n s m, eq_iff s.id n, eq_iff n s.id)),
        length-keys-insert s.id s m,
        h s.id,
        eq_iff s.id s.id,
      ),
    )

pub length-step_ids-le : (steps : List DagStep) → length (step_ids steps) ≤ length steps
unfolding step_ids keys
length-step_ids-le steps = omega (arith, (length-step_map_from [] steps).0)

pub length-step_ids :
    (steps : List DagStep)
    → ((n : String) → count n (ids_of steps) ≤ 1)
    → length (step_ids steps) ≡ length steps
unfolding step_ids keys count
length-step_ids steps h = omega (arith, (length-step_map_from [] steps).1 (λ n. omega (arith, h n)))

-- A graph with a zero degree and no target for each step, over the keys of `m`.
pub record IsBlank (m : List String) (g : Graph) : Type 0 where
  pub same_keys : (n : String) → count n (keys g.degrees) ≡ count n m
  pub no_degree : (n : String) → lookup_or n 0 g.degrees ≡ 0
  pub no_target : (d : String) → lookup_or d [] g.adjacency ≡ []

init_graph-IsBlank :
    (m : Dict DagStep) (g : Graph) (ss : List DagStep)
    → IsBlank (keys m) g
    → IsBlank (keys (step_map_from m ss)) (init_graph g ss)
unfolding init_graph step_map_from
init_graph-IsBlank m g [] b = b
init_graph-IsBlank m g (s ∷ ss) b = init_graph-IsBlank (insert s.id s m) _ ss (record {
  same_keys = λ n.
      ground
        (arith, b.same_keys n, count-keys-insert s.id n s m, count-keys-insert s.id n 0 g.degrees);
  no_degree = λ n. ground (arith, b.no_degree n, lookup_or-insert s.id n 0 0 g.degrees);
  no_target = λ d. ground (arith, b.no_target d, lookup_or-insert s.id d [] [] g.adjacency);
})

pub blank : (steps : List DagStep) → IsBlank (step_ids steps) (init_graph empty_graph steps)
unfolding step_ids step_map keys count lookup_or lookup
blank steps =
    init_graph-IsBlank [] empty_graph steps
      (record { same_keys = λ n. refl; no_degree = λ n. refl; no_target = λ d. refl })

AllNamed-same :
    (xs ys : List String) (ss : List DagStep)
    → ((n : String) → count n ys ≡ count n xs)
    → AllNamed xs ss
    → AllNamed ys ss
AllNamed-same xs ys [] e h = tt
AllNamed-same xs ys (s ∷ ss) e h = (omega (arith, e s.id), AllNamed-same xs ys ss e h.1)

add_edge-keys :
    (dep sid : String) (g : Graph)
    → 1 ≤ count sid (keys g.degrees)
    → (n : String) → count n (keys (add_edge dep sid g).degrees) ≡ count n (keys g.degrees)
unfolding add_edge
add_edge-keys dep sid g k n =
    ground (arith, count-keys-insert sid n (lookup_or sid 0 g.degrees + 1) g.degrees, eq_iff sid n)

module _ (ids completed external : List String) where
  -- Drawing edges adds no key.
  scan_deps-keys :
      (sid : String) (deps : List String) (g g' : Graph)
      → scan_deps ids completed external sid deps g ≡ ok g'
      → 1 ≤ count sid (keys g.degrees)
      → (n : String) → count n (keys g'.degrees) ≡ count n (keys g.degrees)
  unfolding scan_deps
  scan_deps-keys sid [] g g' h k n = ground arith
  scan_deps-keys sid (dep ∷ deps) g g' h k n =
      let rest = scan_deps-cons ids completed external sid dep deps g g' h in
      elim (Bool-cases (skips ids completed external dep)) [
        | inl skipped ↦ scan_deps-keys sid deps g g' (rw skipped at rest) k n
        | inr drawn ↦
            scan_deps-keys sid deps (add_edge dep sid g) g' (rw drawn at rest)
              (omega (arith, add_edge-keys dep sid g k sid)) n
            ∙ add_edge-keys dep sid g k n
      ]

  pub scan_steps-keys :
      (ss : List DagStep) (g g' : Graph)
      → scan_steps ids completed external ss g ≡ ok g'
      → AllNamed (keys g.degrees) ss
      → (n : String) → count n (keys g'.degrees) ≡ count n (keys g.degrees)
  unfolding scan_steps
  scan_steps-keys [] g g' h k n = ground arith
  scan_steps-keys (s ∷ ss) g g' h k n =
      let (m, first, rest) =
        >>=-eq-ok (scan_deps ids completed external s.id s.depends_on g)
          (λ f. scan_steps ids completed external ss f) h in
      let same = scan_deps-keys s.id s.depends_on g m first k.0 in
      scan_steps-keys ss m g' rest (AllNamed-same _ _ ss same k.1) n ∙ same n

module _ (completed : List String) where
  -- A key is ready if its degree is zero and it is not completed.
  count-ready :
      (n : String) (m : Dict ℕ)
      → ((k : String) → count k (keys m) ≤ 1)
      → count n (ready completed m) ≡ (
          if nat_eq (count n (keys m)) 1 && (nat_eq (lookup_or n 0 m) 0 && not (elem n completed))
          then 1
          else 0)
  unfolding ready keys count lookup_or lookup
  count-ready n [] h = refl
  count-ready n ((j, w) ∷ m) h =
      ground (arith, count-ready n m (λ k. omega (arith, h k)), h n, eq_iff n j, eq_iff j n)

targets-edges_of_deps :
    (ids completed : List String) (sid : String) (deps : List String) (d n : String)
    → 1 ≤ count n (targets (edges_of_deps ids completed sid deps) d)
    → n ≡ sid
unfolding edges_of_deps targets count
targets-edges_of_deps ids completed sid [] d n h = absurd (omega arith)
targets-edges_of_deps ids completed sid (dep ∷ deps) d n h =
    ground (arith, targets-edges_of_deps ids completed sid deps d n, eq_iff n sid)

module _ (steps : List DagStep) (completed external : List String) where
  abbrev pub ids : List String
  ids = step_ids steps

  abbrev pub all_edges : Edges
  all_edges = edges ids completed steps

  -- An edge leads to a step of the plan.
  pub targets-named :
      (d n : String) (ss : List DagStep)
      → AllNamed ids ss
      → 1 ≤ count n (targets (edges ids completed ss) d)
      → elem n ids ≡ true
  unfolding edges targets count
  targets-named d n [] a h = absurd (omega arith)
  targets-named d n (s ∷ ss) a h = ground (
    arith,
    a.0,
    targets-edges_of_deps ids completed s.id s.depends_on d n,
    targets-named d n ss a.1,
    targets-append (edges_of_deps ids completed s.id s.depends_on) (edges ids completed ss) d,
    count-append n (targets (edges_of_deps ids completed s.id s.depends_on) d)
        (targets (edges ids completed ss) d),
    elem-count n ids,
  )

  -- The graph after the two loops over the steps.
  module _ (g : Graph)
      (scanned : scan_steps ids completed external steps (init_graph empty_graph steps)
        ≡ ok g) where
    extended : Extends (init_graph empty_graph steps) g all_edges
    extended = scan_steps-Extends ids completed external steps _ g scanned

    pub drawn : (d : String) → lookup_or d [] g.adjacency ≡ targets all_edges d
    drawn d = ground (arith, extended.targeted d, (blank steps).no_target d)

    degree : (n : String) → lookup_or n 0 g.degrees ≡ pending all_edges [] n
    degree n = omega (arith, extended.degree n, (blank steps).no_degree n)

    same_keys : (n : String) → count n (keys g.degrees) ≡ count n ids
    same_keys n =
        scan_steps-keys ids completed external steps _ g scanned
          (AllNamed-same _ _ steps (blank steps).same_keys (AllNamed-step_ids steps)) n
        ∙ (blank steps).same_keys n

    ready_lem :
        (n : String)
        → count n (ready completed g.degrees) ≡ (
            if nat_eq (count n ids) 1
              && (nat_eq (lookup_or n 0 g.degrees) 0 && not (elem n completed))
            then 1
            else 0)
    ready_lem n = rw (← same_keys n) (
        count-ready completed n g.degrees
          (λ k. ground (arith, same_keys k, count-step_ids k steps)))

    pub start-Inv : Inv all_edges ids completed [] (ready completed g.degrees) g.degrees []
    unfolding count
    start-Inv = record {
      degree = λ n. omega (arith, degree n);
      free = λ n h. ground (arith, ready_lem n);
      once = λ n. ground (arith, ready_lem n);
      known = λ n h. ground (arith, ready_lem n, elem-count n ids);
      found = λ n i c z. ground (arith, ready_lem n, elem-count n ids, count-step_ids n steps);
    }
