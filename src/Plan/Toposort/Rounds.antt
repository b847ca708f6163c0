-- ===== src/Plan/Toposort/Rounds.antt =====
-- The `while` loop of `topological_sort`: it ends within its fuel, and its layers respect the edges.
use jagent.Base.{
  ℕ, zero, suc, ◌+◌, ◌≤◌, ◌<◌, String, true, false, some, List, [], ◌∷◌, ◌++◌, if◌then◌else◌,
  length, elem, count, Dict, lookup_or, ◌≡◌, refl, arith, eq_iff, elem-append, elem-count,
  length-append, ap,
}
use mathlib.Core.List.{append_assoc, append-nil}
use jagent.Plan.Toposort.{Sweep, rounds, visit_all}
use jagent.Plan.Toposort.Edges.{Edges, pending, targets}
use jagent.Plan.Toposort.Sweeps.{Inv, visit_all-Inv, visit_all-layer}

-- How many of `ids` are not placed.
pub unplaced : List String → List String → ℕ
unplaced placed [] = 0
unplaced placed (i ∷ ids) = (if elem i placed then 0 else 1) + unplaced placed ids

unplaced-append-le : (p q ids : List String) → unplaced (p ++ q) ids ≤ unplaced p ids
unfolding unplaced
unplaced-append-le p q [] = omega arith
unplaced-append-le p q (i ∷ ids) = ground (arith, unplaced-append-le p q ids, elem-append i p q)

unplaced-append-lt :
    (x : String) (p q ids : List String)
    → elem x ids ≡ true
    → elem x p ≡ false
    → elem x q ≡ true
    → unplaced (p ++ q) ids < unplaced p ids
unfolding unplaced elem
unplaced-append-lt x p q [] h a b = cc
unplaced-append-lt x p q (i ∷ ids) h a b =
    ground (
      arith,
      unplaced-append-lt x p q ids,
      unplaced-append-le p q ids,
      elem-append i p q,
      eq_iff x i,
    )

pub unplaced-nil : (ids : List String) → unplaced [] ids ≡ length ids
unfolding unplaced elem
unplaced-nil [] = refl
unplaced-nil (i ∷ ids) = omega (arith, unplaced-nil ids)

-- The elements of all layers, in order.
pub flat : List (List String) → List String
flat [] = []
flat (l ∷ ls) = l ++ flat ls

module _ (es : Edges) where
  -- No edge leads into a layer from outside of what the layers before it have placed.
  abbrev pub IsLayered : List String → List (List String) → Type 0
  IsLayered placed [] = Unit
  IsLayered placed (l ∷ ls) =
      ((n : String) → 1 ≤ count n l → pending es placed n ≡ 0) × IsLayered (placed ++ l) ls

  module _ (ids completed : List String) (adjacency : Dict (List String))
      (drawn : (d : String) → lookup_or d [] adjacency ≡ targets es d)
      (inside : (d n : String) → 1 ≤ count n (targets es d) → elem n ids ≡ true) where
    -- What the loop returns from `queue` on, after `placed`.
    pub record Ran (fuel : ℕ) (placed queue : List String) (degrees : Dict ℕ) (visited : ℕ)
        : Type 0 where
      pub layers : List (List String)
      pub final : Dict ℕ
      pub returns :
          rounds completed adjacency fuel queue degrees visited
          ≡ some (layers, visited + length (flat layers))
      pub layered : IsLayered placed layers
      pub ends : Inv es ids completed (placed ++ flat layers) [] final []

    round_progress :
        (placed : List String) (q : String) (queue : List String) {degrees : Dict ℕ}
        → Inv es ids completed placed (q ∷ queue) degrees []
        → unplaced (placed ++ q ∷ queue) ids < unplaced placed ids
    unfolding count elem
    round_progress placed q queue inv =
        unplaced-append-lt q placed (q ∷ queue) ids (inv.known q (ground (arith, eq_iff q q))).0
          (ground (arith, inv.once q, elem-count q placed, eq_iff q q)) (ground (arith, eq_iff q q))

    module _ (placed todo : List String) (degrees : Dict ℕ) (visited : ℕ)
        (inv : Inv es ids completed placed todo degrees []) where
      abbrev swept : Sweep
      swept =
          visit_all completed adjacency todo
            (record { degrees = degrees; visited = visited; layer = []; queue = [] })

      swept-layer : (swept.layer ≡ todo) × (swept.visited ≡ visited + length todo)
      swept-layer =
          visit_all-layer es ids completed adjacency drawn inside todo
            (record { degrees = degrees; visited = visited; layer = []; queue = [] })
            (λ n h. (inv.known n (omega arith)).1)

      swept-Inv : Inv es ids completed (placed ++ swept.layer) swept.queue swept.degrees []
      swept-Inv =
          visit_all-Inv es ids completed adjacency drawn inside placed todo
            (record { degrees = degrees; visited = visited; layer = []; queue = [] })
            (rw append-nil (rw append-nil inv))

      layer_free : (n : String) → 1 ≤ count n swept.layer → pending es placed n ≡ 0
      unfolding count
      layer_free n h = ground (arith, inv.free n, inv.degree n, swept-layer.0)

      swept_progress :
          {fuel : ℕ}
          → unplaced placed ids ≤ suc fuel
          → unplaced (placed ++ todo) ids < unplaced placed ids
          → unplaced (placed ++ swept.layer) ids ≤ fuel
      swept_progress h p = rw (swept-layer.0) (omega arith)

    pub rounds-Ran :
        (fuel : ℕ) (placed queue : List String) (degrees : Dict ℕ) (visited : ℕ)
        → Inv es ids completed placed queue degrees []
        → unplaced placed ids ≤ fuel
        → Ran fuel placed queue degrees visited
    unfolding rounds flat
    rounds-Ran fuel placed [] degrees visited inv h = record {
      layers = [];
      final = degrees;
      returns = ap (λ v. some ([], v)) (omega arith);
      layered = tt;
      ends = rw append-nil inv;
    }
    rounds-Ran zero placed (q ∷ queue) degrees visited inv h =
        absurd (omega (arith, round_progress placed q queue inv))
    rounds-Ran (suc fuel) placed (q ∷ queue) degrees visited inv h =
        let s = swept placed (q ∷ queue) degrees visited inv in
        let ran =
          rounds-Ran fuel (placed ++ s.layer) s.queue s.degrees s.visited
            (swept-Inv placed (q ∷ queue) degrees visited inv)
            (swept_progress placed (q ∷ queue) degrees visited inv h
              (round_progress placed q queue inv)) in
        record {
          layers = s.layer ∷ ran.layers;
          final = ran.final;
          returns =
              rw (ran.returns, rounds)
                (ap (λ v. some (s.layer ∷ ran.layers, v))
                  (ground (
                    arith,
                    length-append s.layer (flat ran.layers),
                    swept-layer placed (q ∷ queue) degrees visited inv,
                  )));
          layered = (layer_free placed (q ∷ queue) degrees visited inv, ran.layered);
          ends = rw (← append_assoc) ran.ends;
        }
