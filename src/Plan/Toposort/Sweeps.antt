-- ===== src/Plan/Toposort/Sweeps.antt =====
-- The invariant of the `while` loop of `topological_sort`, over one layer.
use jagent.Base.{
  ℕ, ◌+◌, ◌-◌, ◌≤◌, String, true, false, not, ◌&&◌, List, [], ◌∷◌, ◌++◌, nat_eq, if◌then◌else◌,
  length, elem, count, Dict, lookup_or, ◌≡◌, refl, sym, arith, ◌==◌, eq_iff, count-append,
  elem-append, elem-count, lookup_or-insert,
}
use mathlib.Core.List.{append_assoc, append-nil}
use jagent.Plan.Toposort.{Sweep, relax, relax_all, visit, visit_all}
use jagent.Plan.Toposort.Edges.{Edges, pending, targets}

-- What `done` already holds, plus the edges that one more source accounts for.
pub pending-snoc :
    (es : Edges) (done : List String) (d n : String)
    → elem d done ≡ false
    → pending es done n ≡ pending es (done ++ d ∷ []) n + count n (targets es d)
unfolding pending targets count elem
pending-snoc [] done d n h = refl
pending-snoc ((e, m) ∷ es) done d n h = ground (
  arith,
  pending-snoc es done d n,
  elem-append e done (d ∷ []),
  eq_iff e d,
  eq_iff m n,
  eq_iff n m,
)

module _ (es : Edges) (ids completed : List String) where
  -- `placed` is dequeued, `queue` is waiting, and the edges to `open_targets` are still counted.
  pub record Inv (placed queue : List String) (degrees : Dict ℕ) (open_targets : List String)
      : Type 0 where
    pub degree : (n : String) → lookup_or n 0 degrees ≡ pending es placed n + count n open_targets
    pub free : (n : String) → 1 ≤ count n placed + count n queue → lookup_or n 0 degrees ≡ 0
    pub once : (n : String) → count n placed + count n queue ≤ 1
    pub known :
        (n : String)
        → 1 ≤ count n placed + count n queue
        → (elem n ids ≡ true) × (elem n completed ≡ false)
    pub found :
        (n : String)
        → elem n ids ≡ true
        → elem n completed ≡ false
        → lookup_or n 0 degrees ≡ 0
        → 1 ≤ count n placed + count n queue

  module _ (placed todo : List String) (m : String) (ns : List String) (s : Sweep)
      (inv : Inv placed (todo ++ s.queue) s.degrees (m ∷ ns)) (m_known : elem m ids ≡ true) where
    abbrev next : Sweep
    next = relax completed m s

    relax-degree : (n : String) → lookup_or n 0 next.degrees ≡ pending es placed n + count n ns
    unfolding relax count
    relax-degree n = ground (
      arith,
      inv.degree n,
      inv.degree m,
      lookup_or-insert m n (lookup_or m 0 s.degrees - 1) 0 s.degrees,
      eq_iff m n,
      eq_iff n m,
    )

    positive : 1 ≤ lookup_or m 0 s.degrees
    unfolding count
    positive = ground (arith, inv.degree m, eq_iff m m)

    absent : count m placed + count m (todo ++ s.queue) ≡ 0
    absent = ground (arith, positive, inv.free m)

    count-queue :
        (n : String)
        → count n (todo ++ next.queue)
          ≡ count n (todo ++ s.queue)
            + (if m == n && (nat_eq (lookup_or m 0 next.degrees) 0 && not (elem m completed))
                then 1
                else 0)
    unfolding relax count
    count-queue n = ground (
      arith,
      count-append n todo s.queue,
      count-append n todo (s.queue ++ m ∷ []),
      count-append n s.queue (m ∷ []),
      lookup_or-insert m m (lookup_or m 0 s.degrees - 1) 0 s.degrees,
      eq_iff m n,
      eq_iff n m,
      eq_iff m m,
    )

    relax-Inv : Inv placed (todo ++ next.queue) next.degrees ns
    unfolding relax
    relax-Inv = record {
      degree = relax-degree;
      free = λ n h. ground (
        arith,
        inv.free n,
        count-queue n,
        lookup_or-insert m n (lookup_or m 0 s.degrees - 1) 0 s.degrees,
        eq_iff m n,
        absent,
        inv.degree n,
      );
      once = λ n. ground (arith, inv.once n, count-queue n, absent, eq_iff m n);
      known = λ n h. ground (arith, inv.known n, count-queue n, m_known, eq_iff m n);
      found = λ n i c z. ground (
        arith,
        inv.found n,
        count-queue n,
        eq_iff m n,
        lookup_or-insert m n (lookup_or m 0 s.degrees - 1) 0 s.degrees,
      );
    }

  relax_all-Inv :
      (placed todo ns : List String) (s : Sweep)
      → ((n : String) → 1 ≤ count n ns → elem n ids ≡ true)
      → Inv placed (todo ++ s.queue) s.degrees ns
      → Inv placed (todo ++ (relax_all completed ns s).queue) (relax_all completed ns s).degrees []
  unfolding relax_all count
  relax_all-Inv placed todo [] s k inv = inv
  relax_all-Inv placed todo (m ∷ ns) s k inv =
      relax_all-Inv placed todo ns (relax completed m s) (λ n h. k n (omega arith))
        (relax-Inv placed todo m ns s inv (k m (ground (arith, eq_iff m m))))

  relax_all-layer : (ns : List String) (s : Sweep) → (relax_all completed ns s).layer ≡ s.layer
  unfolding relax_all relax
  relax_all-layer [] s = refl
  relax_all-layer (m ∷ ns) s = relax_all-layer ns (relax completed m s)

  relax_all-visited :
      (ns : List String) (s : Sweep) → (relax_all completed ns s).visited ≡ s.visited
  unfolding relax_all relax
  relax_all-visited [] s = refl
  relax_all-visited (m ∷ ns) s = relax_all-visited ns (relax completed m s)

  module _ (adjacency : Dict (List String))
      (drawn : (d : String) → lookup_or d [] adjacency ≡ targets es d)
      (inside : (d n : String) → 1 ≤ count n (targets es d) → elem n ids ≡ true) where
    dequeue-Inv :
        (placed todo : List String) (sid : String) (s : Sweep)
        → Inv placed ((sid ∷ todo) ++ s.queue) s.degrees []
        → Inv (placed ++ sid ∷ []) (todo ++ s.queue) s.degrees (lookup_or sid [] adjacency)
    unfolding count
    dequeue-Inv placed todo sid s inv =
        let new : elem sid placed ≡ false =
          ground (arith, inv.once sid, elem-count sid placed, eq_iff sid sid) in
        record {
          degree = λ n. rw drawn (ground (arith, inv.degree n, pending-snoc es placed sid n new));
          free = λ n h. inv.free n (ground (arith, count-append n placed (sid ∷ [])));
          once = λ n. ground (arith, inv.once n, count-append n placed (sid ∷ []));
          known = λ n h. inv.known n (ground (arith, count-append n placed (sid ∷ [])));
          found = λ n i c z. ground (arith, inv.found n i c z, count-append n placed (sid ∷ []));
        }

    module _ (sid : String) (s : Sweep) (runs : elem sid completed ≡ false) where
      abbrev dequeued : Sweep
      dequeued = record s { layer = s.layer ++ sid ∷ []; visited = s.visited + 1 }

      visit_lem :
          visit completed adjacency sid s
          ≡ relax_all completed (lookup_or sid [] adjacency) dequeued
      unfolding visit
      visit_lem = rw runs

      visit-layer : (visit completed adjacency sid s).layer ≡ s.layer ++ sid ∷ []
      visit-layer = rw visit_lem (relax_all-layer (lookup_or sid [] adjacency) dequeued)

      visit-visited : (visit completed adjacency sid s).visited ≡ s.visited + 1
      visit-visited = rw visit_lem (relax_all-visited (lookup_or sid [] adjacency) dequeued)

      visit-Inv :
          (placed todo : List String)
          → Inv (placed ++ s.layer) ((sid ∷ todo) ++ s.queue) s.degrees []
          → Inv
              (placed ++ (visit completed adjacency sid s).layer)
              (todo ++ (visit completed adjacency sid s).queue)
              (visit completed adjacency sid s).degrees
              []
      visit-Inv placed todo inv = rw visit-layer (
          rw visit_lem (
            rw (← append_assoc) (
              relax_all-Inv _ todo (lookup_or sid [] adjacency) dequeued
                (λ n h. inside sid n (rw drawn at h))
                (dequeue-Inv (placed ++ s.layer) todo sid s inv))))

    pub visit_all-Inv :
        (placed todo : List String) (s : Sweep)
        → Inv (placed ++ s.layer) (todo ++ s.queue) s.degrees []
        → Inv
            (placed ++ (visit_all completed adjacency todo s).layer)
            (visit_all completed adjacency todo s).queue
            (visit_all completed adjacency todo s).degrees
            []
    unfolding visit_all count
    visit_all-Inv placed [] s inv = inv
    visit_all-Inv placed (sid ∷ todo) s inv =
        visit_all-Inv placed todo (visit completed adjacency sid s)
          (visit-Inv sid s (inv.known sid (ground (arith, eq_iff sid sid))).1 placed todo inv)

    -- Every queued step is visited: the layer is the queue.
    pub visit_all-layer :
        (todo : List String) (s : Sweep)
        → ((n : String) → 1 ≤ count n todo → elem n completed ≡ false)
        → ((visit_all completed adjacency todo s).layer ≡ s.layer ++ todo)
          × ((visit_all completed adjacency todo s).visited ≡ s.visited + length todo)
    unfolding visit_all count
    visit_all-layer [] s k = (sym (append-nil s.layer), omega arith)
    visit_all-layer (sid ∷ todo) s k =
        let runs = k sid (ground (arith, eq_iff sid sid)) in
        let rest =
          visit_all-layer todo (visit completed adjacency sid s) (λ n h. k n (omega arith)) in
        (
          cc (rest.0, visit-layer sid s runs, append_assoc s.layer (sid ∷ []) todo),
          ground (arith, rest.1, visit-visited sid s runs),
        )
