-- ===== src/Plan/Structure/Acyclic.antt =====
-- The depth-first search does not run out of fuel, and if it finds no cycle, the steps have a rank.
use jagent.Base.{
  ℕ, zero, suc, ◌+◌, ◌≤◌, ◌<◌, ◌≢◌, String, true, List, [], ◌∷◌, ◌==◌, elem, length, if◌then◌else◌,
  Dict, ◌≡◌, refl, arith, eq_iff, inl, inr, Bool-cases,
}
use mathlib.Core.Path.{subst}
use jagent.Plan.Structure.{
  Color, white, gray, black, Dfs, Search, found, clear, exhausted, walk, enter, leave, dfs, search,
}
use jagent.Plan.Structure.Colors.{
  color_of, adj, Settled, Blackened, Blackened-enter, Blackened-leave, Later, Later-refl,
  Later-trans, enter-gray, leave-white, Later-leave, whites, whites-le, whites-enter,
}

module _ (adjacency : Dict (List String)) (ids : List String) where
  -- What a search from a state of which `ns` are finished may give: a cycle, or a later state in which
  -- all of `deps` are finished. The finished and the white steps together do not grow.
  unfoldable pub IsDone : Dfs → List String → List String → Search → Type 0
  IsDone d ns deps (found path) = Unit
  IsDone d ns deps exhausted = ⊥
  IsDone d ns deps (clear e) =
      (ms : List String) × Blackened adjacency e ms
      × Later d e
      × ((m : String) → elem m deps ≡ true → elem m ms ≡ true)
      × ((m : String) → elem m ns ≡ true → elem m ms ≡ true)
      × (length ms + whites ids e ≤ length ns + whites ids d)

  -- A visit with fuel for the white steps.
  IsVisit : (String → Dfs → Search) → ℕ → Type 0
  IsVisit visit fuel =
      (sid : String) (d : Dfs) (ns : List String)
      → elem sid ids ≡ true
      → color_of d sid ≡ white
      → Blackened adjacency d ns
      → whites ids d ≤ fuel
      → IsDone d ns (sid ∷ []) (visit sid d)

  -- After one dependency is finished, the others follow.
  IsDone-cons :
      (d e : Dfs) (ns ms : List String) (n : String) (deps : List String) (r : Search)
      → Later d e
      → ((m : String) → elem m ns ≡ true → elem m ms ≡ true)
      → elem n ms ≡ true
      → length ms + whites ids e ≤ length ns + whites ids d
      → IsDone e ms deps r
      → IsDone d ns (n ∷ deps) r
  unfolding IsDone elem
  IsDone-cons d e ns ms n deps (found path) l keep has less done = tt
  IsDone-cons d e ns ms n deps exhausted l keep has less done = done
  IsDone-cons d e ns ms n deps (clear f) l keep has less (ks, b, l', all, keep', less') = (
    ks,
    b,
    Later-trans d e f l l',
    λ m h. elim (Bool-cases (m == n)) [
      | inl same ↦ ground (arith, eq_iff m n, keep' n has)
      | inr other ↦ all m (ground arith)
    ],
    λ m h. keep' m (keep m h),
    omega arith,
  )

  walk-step :
      (visit : String → Dfs → Search) (fuel : ℕ) (n : String) (deps : List String) (d : Dfs)
      (ns : List String)
      → IsVisit visit fuel
      → elem n ids ≡ true
      → Blackened adjacency d ns
      → whites ids d ≤ fuel
      → ((e : Dfs) (ms : List String)
          → Blackened adjacency e ms
          → whites ids e ≤ fuel
          → IsDone e ms deps (walk visit deps e))
      → IsDone d ns (n ∷ deps) (walk visit (n ∷ deps) d)
  unfolding walk IsDone elem color_of IsVisit
  walk-step visit fuel n deps d ns v known b few rest = go (color_of d n) refl
    where
      visited :
          (r : Search)
          → IsDone d ns (n ∷ []) r
          → IsDone d ns (n ∷ deps) (elim r [
            | clear e ↦ walk visit deps e
            | found path ↦ found path
            | exhausted ↦ exhausted
          ])
      visited (found path) done = tt
      visited exhausted done = done
      visited (clear e) (ms, b', l, all, keep, less) =
          IsDone-cons d e ns ms n deps (walk visit deps e) l keep
            (all n (ground (arith, eq_iff n n))) less
            (rest e ms b' (omega (arith, whites-le ids d e l.white_was)))

      go : (c : Color) → color_of d n ≡ c → IsDone d ns (n ∷ deps) (walk visit (n ∷ deps) d)
      go gray e = rw (e, walk) tt
      go black e =
          rw (e, walk)
            (IsDone-cons d d ns ns n deps (walk visit deps d) (Later-refl d) (λ m h. h)
              (b.sound n e) (omega arith) (rest d ns b few))
      go white e = rw (e, walk) (visited (visit n d) (v n d ns known e b few))

  walk-IsDone :
      (visit : String → Dfs → Search) (fuel : ℕ) (deps : List String) (d : Dfs) (ns : List String)
      → IsVisit visit fuel
      → ((m : String) → elem m deps ≡ true → elem m ids ≡ true)
      → Blackened adjacency d ns
      → whites ids d ≤ fuel
      → IsDone d ns deps (walk visit deps d)
  unfolding walk IsDone elem
  walk-IsDone visit fuel [] d ns v known b few =
      (ns, b, Later-refl d, λ m h. cc, λ m h. h, omega arith)
  walk-IsDone visit fuel (n ∷ deps) d ns v known b few =
      walk-step visit fuel n deps d ns v (known n (ground (arith, eq_iff n n))) b few
        (λ e ms b' few'. walk-IsDone visit fuel deps e ms v (λ m h. known m (ground arith)) b' few')

  -- The dependencies in the table are ids of the plan.
  module _ (inner : (n m : String) → elem m (adj adjacency n) ≡ true → elem m ids ≡ true) where
    leave-IsDone :
        (sid : String) (d : Dfs) (ns : List String) (r : Search)
        → color_of d sid ≡ white
        → elem sid ids ≡ true
        → IsDone (enter sid d) ns (adj adjacency sid) r
        → IsDone d ns (sid ∷ []) (leave sid r)
    unfolding IsDone leave elem
    leave-IsDone sid d ns (found path) w known done = tt
    leave-IsDone sid d ns exhausted w known done = done
    leave-IsDone sid d ns (clear e) w known (ms, b, l, all, keep, less) = (
      sid ∷ ms,
      Blackened-leave adjacency sid _ e ms (l.gray_stays sid (enter-gray sid d)) all b,
      Later-leave sid _ d e w l,
      λ m h. ground arith,
      λ m h. ground (arith, keep m h),
      omega (arith, whites-enter ids sid d w known, whites-le ids e _ (leave-white sid _ e)),
    )

    dfs-IsVisit : (fuel : ℕ) → IsVisit (dfs adjacency fuel) fuel
    unfolding dfs IsVisit IsDone adj
    dfs-IsVisit zero sid d ns known w b few = absurd (omega (arith, whites-enter ids sid d w known))
    dfs-IsVisit (suc fuel) sid d ns known w b few = leave-IsDone sid d ns _ w known (
        walk-IsDone (dfs adjacency fuel) fuel (adj adjacency sid) (enter sid d) ns
          (dfs-IsVisit fuel) (inner sid) (Blackened-enter adjacency sid d ns w b)
          (omega (arith, whites-enter ids sid d w known)))

    -- No step is gray between the visits of the outer loop.
    unfoldable pub HasNoGray : Dfs → Type 0
    HasNoGray d = (n : String) → color_of d n ≢ gray

    search-step :
        (fuel : ℕ) (n : String) (todo : List String) (d : Dfs) (ns : List String)
        → elem n ids ≡ true
        → HasNoGray d
        → Blackened adjacency d ns
        → whites ids d ≤ fuel
        → ((e : Dfs) (ms : List String)
            → HasNoGray e
            → Blackened adjacency e ms
            → whites ids e ≤ fuel
            → IsDone e ms todo (search adjacency fuel todo e))
        → IsDone d ns (n ∷ todo) (search adjacency fuel (n ∷ todo) d)
    unfolding search IsDone elem color_of IsVisit HasNoGray
    search-step fuel n todo d ns known none_gray b few rest = go (color_of d n) refl
      where
        visited :
            (r : Search)
            → IsDone d ns (n ∷ []) r
            → IsDone d ns (n ∷ todo) (elim r [
              | clear e ↦ search adjacency fuel todo e
              | found path ↦ found path
              | exhausted ↦ exhausted
            ])
        visited (found path) done = tt
        visited exhausted done = done
        visited (clear e) (ms, b', l, all, keep, less) =
            IsDone-cons d e ns ms n todo (search adjacency fuel todo e) l keep
              (all n (ground (arith, eq_iff n n))) less
              (rest e ms (λ m g. none_gray m (l.gray_was m g)) b'
                (omega (arith, whites-le ids d e l.white_was)))

        go :
            (c : Color)
            → color_of d n ≡ c
            → IsDone d ns (n ∷ todo) (search adjacency fuel (n ∷ todo) d)
        go gray e = absurd (none_gray n e)
        go black e =
            rw (e, search)
              (IsDone-cons d d ns ns n todo (search adjacency fuel todo d) (Later-refl d) (λ m h. h)
                (b.sound n e) (omega arith) (rest d ns none_gray b few))
        go white e =
            rw (e, search)
              (visited (dfs adjacency fuel n d) (dfs-IsVisit fuel n d ns known e b few))

    pub search-IsDone :
        (fuel : ℕ) (todo : List String) (d : Dfs) (ns : List String)
        → ((m : String) → elem m todo ≡ true → elem m ids ≡ true)
        → HasNoGray d
        → Blackened adjacency d ns
        → whites ids d ≤ fuel
        → IsDone d ns todo (search adjacency fuel todo d)
    unfolding search IsDone elem
    search-IsDone fuel [] d ns known none_gray b few =
        (ns, b, Later-refl d, λ m h. cc, λ m h. h, omega arith)
    search-IsDone fuel (n ∷ todo) d ns known none_gray b few =
        search-step fuel n todo d ns (known n (ground (arith, eq_iff n n))) none_gray b few
          (λ e ms g b' few'. search-IsDone fuel todo e ms (λ m h. known m (ground arith)) g b' few')

-- The place of a step in the list, counted from its end.
pub position : List String → String → ℕ
position [] n = 0
position (x ∷ xs) n = let rest = position xs n in if x == n then suc (length xs) else rest

pub position-le : (ns : List String) (n : String) → position ns n ≤ length ns
unfolding position
position-le [] n = omega arith
position-le (x ∷ ns) n = ground (arith, position-le ns n)

-- A dependency of a finished step is finished and has a lower place.
pub position-Settled :
    (adjacency : Dict (List String)) (ns : List String) (n m : String)
    → Settled adjacency ns
    → elem n ns ≡ true
    → elem m (adj adjacency n) ≡ true
    → (elem m ns ≡ true) × (position ns m < position ns n)
unfolding Settled elem position
position-Settled adjacency [] n m s h d = cc
position-Settled adjacency (x ∷ ns) n m (deps, new, s) h d = elim (Bool-cases (n == x)) [
  | inl same ↦
      let is_x : n ≡ x = ground (arith, eq_iff n x) in
      let behind = deps m (subst (λ k. elem m (adj adjacency k) ≡ true) is_x d) in
      (
        ground (arith, behind),
        ground (arith, behind, new, position-le ns m, eq_iff n x, eq_iff x n, eq_iff x m),
      )
  | inr other ↦
      let (inside, below) = position-Settled adjacency ns n m s (ground arith) d in
      (
        ground (arith, inside),
        ground (arith, inside, below, new, eq_iff x m, eq_iff x n, eq_iff n x),
      )
]
