-- ===== src/Plan/Toposort/Edges.antt =====
-- The edges that `topological_sort` draws, as a list, and the graph that they make.
use jagent.Base.{
  ℕ, ◌+◌, String, Bool, not, ◌&&◌, ◌||◌, List, [], ◌∷◌, ◌++◌, if◌then◌else◌, elem, lookup_or, ok,
  >>=-eq-ok, ok-injective, err≢ok, ◌≡◌, refl, sym, arith, ◌==◌, eq_iff, lookup_or-insert,
  Bool-cases, inl, inr,
}
use mathlib.Core.Path.{subst}
use mathlib.Core.List.{append_assoc, append-nil}
use jagent.Plan.{DagStep}
use jagent.Plan.Toposort.{Graph, add_edge, scan_deps, scan_steps}

abbrev pub Edges : Type 0
Edges = List (String × String)

-- How many edges lead into `n` from a source that is not in `done`.
unfoldable pub pending : Edges → List String → String → ℕ
pending [] done n = 0
pending ((d, m) ∷ es) done n = (if m == n && not (elem d done) then 1 else 0) + pending es done n

-- The targets of the edges from `d`.
unfoldable pub targets : Edges → String → List String
targets [] d = []
targets ((e, m) ∷ es) d = let rest = targets es d in if e == d then m ∷ rest else rest

module _ (ids completed : List String) where
  unfoldable pub edges_of_deps : String → List String → Edges
  edges_of_deps sid [] = []
  edges_of_deps sid (dep ∷ deps) =
      let rest = edges_of_deps sid deps in
      if not (elem dep ids) || elem dep completed then rest else (dep, sid) ∷ rest

  unfoldable pub edges : List DagStep → Edges
  unfolding edges_of_deps
  edges [] = []
  edges (s ∷ ss) = edges_of_deps s.id s.depends_on ++ edges ss

pub pending-append :
    (xs ys : Edges) (done : List String) (n : String)
    → pending (xs ++ ys) done n ≡ pending xs done n + pending ys done n
unfolding pending
pending-append [] ys done n = omega arith
pending-append ((d, m) ∷ xs) ys done n = omega (arith, pending-append xs ys done n)

pub targets-append :
    (xs ys : Edges) (d : String) → targets (xs ++ ys) d ≡ targets xs d ++ targets ys d
unfolding targets
targets-append [] ys d = refl
targets-append ((e, m) ∷ xs) ys d = ground (arith, targets-append xs ys d)

-- The graph `g'` is `g` with the edges `es` added.
pub record Extends (g g' : Graph) (es : Edges) : Type 0 where
  pub degree : (n : String) → lookup_or n 0 g'.degrees ≡ lookup_or n 0 g.degrees + pending es [] n
  pub targeted :
      (d : String) → lookup_or d [] g'.adjacency ≡ lookup_or d [] g.adjacency ++ targets es d

Extends-nil : (g : Graph) → Extends g g []
unfolding pending targets
Extends-nil g = record { degree = λ n. omega arith; targeted = λ d. sym (append-nil _) }

Extends-append :
    {f g h : Graph} (xs ys : Edges) → Extends f g xs → Extends g h ys → Extends f h (xs ++ ys)
Extends-append {f} {g} {h} xs ys a b = record {
  degree = λ n. omega (arith, a.degree n, b.degree n, pending-append xs ys [] n);
  targeted = λ d. cc (
    a.targeted d,
    b.targeted d,
    targets-append xs ys d,
    append_assoc (lookup_or d [] f.adjacency) (targets xs d) (targets ys d),
  );
}

Extends-add_edge : (g : Graph) (dep sid : String) → Extends g (add_edge dep sid g) ((dep, sid) ∷ [])
unfolding pending targets add_edge elem
Extends-add_edge g dep sid = record {
  degree = λ n.
      ground
        (arith, lookup_or-insert sid n (lookup_or sid 0 g.degrees + 1) 0 g.degrees, eq_iff sid n);
  targeted = λ d. ground (
    arith,
    lookup_or-insert dep d (lookup_or dep [] g.adjacency ++ sid ∷ []) [] g.adjacency,
    eq_iff dep d,
    append-nil (lookup_or d [] g.adjacency),
  );
}

module _ (ids completed external : List String) where
  abbrev pub skips : String → Bool
  skips dep = not (elem dep ids) || elem dep completed

  pub scan_deps-cons :
      (sid dep : String) (deps : List String) (g g' : Graph)
      → scan_deps ids completed external sid (dep ∷ deps) g ≡ ok g'
      → scan_deps ids completed external sid deps (if skips dep then g else add_edge dep sid g)
        ≡ ok g'
  unfolding scan_deps
  scan_deps-cons sid dep deps g g' h =
      elim (Bool-cases (elem dep ids || elem dep completed || elem dep external)) [
        | inl known ↦ rw known at h
        | inr unknown ↦ absurd (err≢ok (rw unknown at h))
      ]

  -- A scan that ends without an exception has added the edges of the step.
  scan_deps-Extends :
      (sid : String) (deps : List String) (g g' : Graph)
      → scan_deps ids completed external sid deps g ≡ ok g'
      → Extends g g' (edges_of_deps ids completed sid deps)
  unfolding edges_of_deps scan_deps
  scan_deps-Extends sid [] g g' h = subst (λ k. Extends g k []) (ok-injective h) (Extends-nil g)
  scan_deps-Extends sid (dep ∷ deps) g g' h =
      let rest = scan_deps-Extends sid deps _ g' (scan_deps-cons sid dep deps g g' h) in
      elim (Bool-cases (skips dep)) [
        | inl skipped ↦ rw skipped (rw skipped at rest)
        | inr drawn ↦
            rw drawn
              (Extends-append ((dep, sid) ∷ []) _ (Extends-add_edge g dep sid) (rw drawn at rest))
      ]

  pub scan_steps-Extends :
      (ss : List DagStep) (g g' : Graph)
      → scan_steps ids completed external ss g ≡ ok g'
      → Extends g g' (edges ids completed ss)
  unfolding scan_steps edges
  scan_steps-Extends [] g g' h = subst (λ k. Extends g k []) (ok-injective h) (Extends-nil g)
  scan_steps-Extends (s ∷ ss) g g' h =
      let (m, first, rest) =
        >>=-eq-ok (scan_deps ids completed external s.id s.depends_on g)
          (λ k. scan_steps ids completed external ss k) h in
      Extends-append _ _ (scan_deps-Extends s.id s.depends_on g m first)
        (scan_steps-Extends ss m g' rest)
