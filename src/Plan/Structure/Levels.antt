-- ===== src/Plan/Structure/Levels.antt =====
-- The levels of the steps of a plan without a cycle: they are found within the fuel, and a step stands
-- above its dependencies.
use jagent.Base.{
  ℕ, zero, suc, ◌≤◌, ◌<◌, String, true, Option, none, some, List, [], ◌∷◌, ◌==◌, elem, Dict, lookup,
  lookup_or, lookup-insert, insert, In, here, there, ◌≡◌, refl, sym, ap, ◌∙◌, arith, eq_iff, ◌⊎◌,
  inl, inr, Bool-cases, Option-cases,
}
use mathlib.Core.Path.{subst}
use jagent.Plan.{DagStep}
use jagent.Plan.Structure.{inner_deps, levels_of, above, level, too_early_errors, hierarchy_errors}

-- The dependencies of a step have levels, all below the given one.
unfoldable pub IsAbove : Dict ℕ → List String → ℕ → Type 0
IsAbove levels deps l =
    (d : String) → elem d deps ≡ true → (k : ℕ) × (lookup d levels ≡ some k) × (k < l)

module _ (steps : Dict DagStep) (ids : List String) (rank : String → ℕ) where
  -- Each step of the table has its dependencies below it in the table.
  unfoldable pub IsTabled : Dict ℕ → Type 0
  IsTabled levels =
      (n : String) (l : ℕ) (s : DagStep)
      → lookup n levels ≡ some l
      → lookup n steps ≡ some s
      → IsAbove levels (inner_deps ids s) l

  -- A table that has grown by steps below the bound.
  record Grown (levels levels' : Dict ℕ) (bound : ℕ) : Type 0 where
    stays : (n : String) (l : ℕ) → lookup n levels ≡ some l → lookup n levels' ≡ some l
    low :
        (n : String) (l : ℕ)
        → lookup n levels' ≡ some l
        → (lookup n levels ≡ some l) ⊎ (rank n < bound)
    tabled : IsTabled levels'

  -- What the levels need: the dependencies of a step are steps and rank below it.
  pub record IsRankedMap : Type 0 where
    pub below :
        (sid dep : String) (s : DagStep)
        → lookup sid steps ≡ some s
        → elem dep (inner_deps ids s) ≡ true
        → rank dep < rank sid
    pub known :
        (sid dep : String) (s : DagStep)
        → lookup sid steps ≡ some s
        → elem dep (inner_deps ids s) ≡ true
        → (t : DagStep) × (lookup dep steps ≡ some t)

  -- A function that finds the level of each step that ranks below the fuel.
  IsLeveller : (String → Dict ℕ → Option (ℕ × Dict ℕ)) → ℕ → Type 0
  IsLeveller find fuel =
      (sid : String) (s : DagStep) (levels : Dict ℕ)
      → rank sid < fuel
      → IsTabled levels
      → lookup sid steps ≡ some s
      → (l : ℕ) × (levels' : Dict ℕ) × (find sid levels ≡ some (l, levels'))
        × Grown levels levels' (suc (rank sid))
        × (lookup sid levels' ≡ some l)

  Grown-refl : (levels : Dict ℕ) (bound : ℕ) → IsTabled levels → Grown levels levels bound
  Grown-refl levels bound t = record { stays = λ n l h. h; low = λ n l h. inl h; tabled = t }

  Grown-trans :
      (a b c : Dict ℕ) (bound k : ℕ) → k ≤ bound → Grown a b k → Grown b c bound → Grown a c bound
  Grown-trans a b c bound k le p q = record {
    stays = λ n l h. q.stays n l (p.stays n l h);
    low = λ n l h. elim (q.low n l h) [
      | inr small ↦ inr small
      | inl old ↦ elim (p.low n l old) [ inr small ↦ inr (omega arith) | inl older ↦ inl older ]
    ];
    tabled = q.tabled;
  }

  levels_of-Grown :
      (find : String → Dict ℕ → Option (ℕ × Dict ℕ)) (bound : ℕ) (deps : List String)
      (levels : Dict ℕ)
      → IsLeveller find bound
      → ((d : String)
          → elem d deps ≡ true
          → (rank d < bound) × ((t : DagStep) × (lookup d steps ≡ some t)))
      → IsTabled levels
      → (ls : List ℕ) × (levels' : Dict ℕ) × (levels_of find deps levels ≡ some (ls, levels'))
        × Grown levels levels' bound
        × IsAbove levels' deps (above ls)
  unfolding levels_of elem IsAbove IsLeveller above
  levels_of-Grown find bound [] levels leveller h t =
      ([], levels, refl, Grown-refl levels bound t, λ d e. cc)
  levels_of-Grown find bound (d ∷ deps) levels leveller h t =
      let (small, (s, there_is)) = h d (ground (arith, eq_iff d d)) in
      let (l, levels1, found, grown, at_d) = leveller d s levels small t there_is in
      let (ls, levels2, rest, grown', above_rest) =
        levels_of-Grown find bound deps levels1 leveller (λ x e. h x (ground arith)) grown.tabled in
      (
        l ∷ ls,
        levels2,
        ground (arith, found, rest),
        Grown-trans levels levels1 levels2 bound (suc (rank d)) (omega arith) grown grown',
        λ x e. elim (Bool-cases (x == d)) [
          | inl same ↦
              let is_d : x ≡ d = ground (arith, eq_iff x d) in
              (l, ap (λ y. lookup y levels2) is_d ∙ grown'.stays d l at_d, ground arith)
          | inr other ↦
              let (k, found_x, less) = above_rest x (ground arith) in (k, found_x, ground arith)
        ],
      )

  -- A step that is new in the table is put above its dependencies.
  Grown-insert :
      (r : IsRankedMap) (sid : String) (s : DagStep) (levels levels' : Dict ℕ) (l : ℕ)
      → lookup sid steps ≡ some s
      → lookup sid levels ≡ none
      → Grown levels levels' (rank sid)
      → IsAbove levels' (inner_deps ids s) l
      → Grown levels (insert sid l levels') (suc (rank sid))
  unfolding IsTabled IsAbove
  Grown-insert r sid s levels levels' l is_s new g up = record {
    stays = λ n k h. ground (arith, lookup-insert sid n l levels', g.stays n k h, eq_iff sid n);
    low = λ n k h. elim (Bool-cases (sid == n)) [
      | inl same ↦
          let is_n : sid ≡ n = ground (arith, eq_iff sid n) in
          let equal : rank sid ≡ rank n = ap rank is_n in inr (omega arith)
      | inr other ↦ elim (g.low n k (ground (arith, lookup-insert sid n l levels'))) [
        | inl old ↦ inl old
        | inr small ↦ inr (omega arith)
      ]
    ];
    tabled = λ n k t h is_t d e. elim (Bool-cases (sid == n)) [
      | inl same ↦
          let is_n : sid ≡ n = ground (arith, eq_iff sid n) in
          let is_l : l ≡ k = ground (arith, lookup-insert sid n l levels') in
          let one : some t ≡ some s = sym is_t ∙ ap (λ x. lookup x steps) (sym is_n) ∙ is_s in
          let is_t' : t ≡ s = cc in
          let e' : elem d (inner_deps ids s) ≡ true =
            subst (λ x. elem d (inner_deps ids x) ≡ true) is_t' e in
          let (j, at_d, less) = up d e' in (j, kept d j at_d, omega arith)
      | inr other ↦
          let (j, at_d, less) =
            g.tabled n k t (ground (arith, lookup-insert sid n l levels')) is_t d e in
          (j, kept d j at_d, less)
    ];
  }
    where
      absent : (j : ℕ) → lookup sid levels' ≡ some j → ⊥
      absent j h = elim (g.low sid j h) [ inl old ↦ ground arith | inr small ↦ omega arith ]

      kept :
          (d : String) (j : ℕ)
          → lookup d levels' ≡ some j
          → lookup d (insert sid l levels') ≡ some j
      kept d j h = elim (Bool-cases (sid == d)) [
        | inl same ↦
            let is_d : sid ≡ d = ground (arith, eq_iff sid d) in
            absurd (absent j (ap (λ x. lookup x levels') is_d ∙ h))
        | inr other ↦ ground (arith, lookup-insert sid d l levels')
      ]

  level-IsLeveller : IsRankedMap → (fuel : ℕ) → IsLeveller (level steps ids fuel) fuel
  unfolding level IsLeveller
  level-IsLeveller r zero sid s levels small t is_s = absurd (omega arith)
  level-IsLeveller r (suc fuel) sid s levels small t is_s =
      elim (Option-cases (lookup sid levels)) [
        | inr (l, old) ↦
            (l, levels, rw (old, level) refl, Grown-refl levels (suc (rank sid)) t, old)
        | inl new ↦
            let (ls, levels', found, grown, up) =
              levels_of-Grown (level steps ids fuel) (rank sid) (inner_deps ids s) levels
                (λ d u ls' less. level-IsLeveller r fuel d u ls' (omega arith))
                (λ d e. (r.below sid d s is_s e, r.known sid d s is_s e)) t in
            (
              above ls,
              insert sid (above ls) levels',
              rw (new, level) (rw is_s (rw found refl)),
              Grown-insert r sid s levels levels' (above ls) is_s new grown up,
              ground (arith, lookup-insert sid sid (above ls) levels', eq_iff sid sid),
            )
      ]

  too_early-nil :
      (sid : String) (l : ℕ) (levels : Dict ℕ) (deps : List String)
      → IsAbove levels deps l
      → too_early_errors steps ids sid l levels deps ≡ []
  unfolding too_early_errors IsAbove elem lookup_or
  too_early-nil sid l levels [] up = refl
  too_early-nil sid l levels (d ∷ deps) up =
      let (k, found, less) = up d (ground (arith, eq_iff d d)) in
      ground (arith, found, less, too_early-nil sid l levels deps (λ x e. up x (ground arith)))

  -- The check of the hierarchy finds nothing.
  pub hierarchy_errors-nil :
      (fuel : ℕ) (ss : List DagStep) (levels : Dict ℕ)
      → IsRankedMap
      → IsTabled levels
      → ((s : DagStep) → In s ss → (lookup s.id steps ≡ some s) × (rank s.id < fuel))
      → hierarchy_errors steps ids fuel ss levels ≡ []
  unfolding hierarchy_errors IsLeveller IsTabled
  hierarchy_errors-nil fuel [] levels r t h = refl
  hierarchy_errors-nil fuel (s ∷ ss) levels r t h =
      let (is_s, small) = h s here in
      let (l, levels', found, grown, at_s) = level-IsLeveller r fuel s.id s levels small t is_s in
      rw (found, hierarchy_errors)
        (rw (too_early-nil s.id l levels' (inner_deps ids s) (grown.tabled s.id l s at_s is_s))
          (hierarchy_errors-nil fuel ss levels' r grown.tabled (λ u i. h u (there i))))
