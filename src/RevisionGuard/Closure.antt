-- ===== src/RevisionGuard/Closure.antt =====
-- The closure of a step, which the worklist finds: exactly the steps that it reaches by dependencies.
use mathlib.Core.Path.{subst}
use jagent.Base.{
  ℕ, zero, suc, ◌+◌, ◌≤◌, String, Bool, true, false, ◌||◌, some, List, [], ◌∷◌, ◌==◌, elem, filter,
  length, if◌then◌else◌, Dict, lookup, has_key, ◌≡◌, ◌↔◌, refl, ap, arith, eq_iff, Bool-cases,
  Option-cases, inl, inr,
}
use jagent.Plan.{DagStep}
use jagent.RevisionGuard.{push_all, next_steps, explore, fuel_for, closure}

push_all-elem :
    (x : String) (deps stack : List String)
    → elem x (push_all deps stack) ≡ (elem x deps || elem x stack)
unfolding push_all elem
push_all-elem x [] stack = refl
push_all-elem x (d ∷ deps) stack = ground (arith, push_all-elem x deps (d ∷ stack))

push_all-length :
    (deps stack : List String) → length (push_all deps stack) ≡ length deps + length stack
unfolding push_all
push_all-length [] stack = omega arith
push_all-length (d ∷ deps) stack = omega (arith, push_all-length deps (d ∷ stack))

module _ (steps : Dict DagStep) where
  -- From one step to another along dependencies.
  pub data Reaches (a : String) : String → Type 0 where
    stay : Reaches a a
    go_on : {b c : String} → Reaches a b → elem c (next_steps steps b) ≡ true → Reaches a c

  explore_sound :
      (fuel : ℕ) (stack seen cl : List String) (a : String)
      → explore steps fuel stack seen ≡ some cl
      → ((x : String) → elem x stack ≡ true → Reaches a x)
      → ((x : String) → elem x seen ≡ true → Reaches a x)
      → (x : String) → elem x cl ≡ true
      → Reaches a x
  unfolding explore elem
  explore_sound fuel [] seen cl a h st se x e = se x (ground arith)
  explore_sound zero (cur ∷ stack) seen cl a h st se x e = cc
  explore_sound (suc fuel) (cur ∷ stack) seen cl a h st se x e =
      let here : Reaches a cur = st cur (ground (arith, eq_iff cur cur)) in
      elim (Bool-cases (elem cur seen)) [
        | inl old ↦
            explore_sound fuel stack seen cl a (ground arith) (λ y k. st y (ground arith)) se x e
        | inr new ↦
            explore_sound fuel (push_all (next_steps steps cur) stack) (cur ∷ seen) cl a
              (ground arith)
              (λ y k. elim (Bool-cases (elem y (next_steps steps cur))) [
                | inl dep ↦ go_on here dep
                | inr no_dep ↦ st y (ground (arith, push_all-elem y (next_steps steps cur) stack))
              ])
              (λ y k. elim (Bool-cases (y == cur)) [
                | inl same ↦ subst (Reaches a) (ground (arith, eq_iff y cur)) here
                | inr other ↦ se y (ground arith)
              ])
              x e
      ]

  -- The steps seen lead to steps that are seen or wait.
  IsOpen : List String → List String → Type 0
  IsOpen stack seen =
      (x y : String)
      → elem x seen ≡ true
      → elem y (next_steps steps x) ≡ true
      → (elem y seen || elem y stack) ≡ true

  explore-closed :
      (fuel : ℕ) (stack seen cl : List String)
      → explore steps fuel stack seen ≡ some cl
      → IsOpen stack seen
      → ((x : String) → (elem x seen || elem x stack) ≡ true → elem x cl ≡ true)
        × ((x y : String)
            → elem x cl ≡ true
            → elem y (next_steps steps x) ≡ true
            → elem y cl ≡ true)
  unfolding explore elem IsOpen
  explore-closed fuel [] seen cl h o =
      let same : seen ≡ cl = ground arith in
      subst
        (λ k.
          ((x : String) → (elem x seen || false) ≡ true → elem x k ≡ true)
          × ((x y : String)
              → elem x k ≡ true
              → elem y (next_steps steps x) ≡ true
              → elem y k ≡ true))
        same (λ x e. ground arith, λ x y e d. ground (arith, o x y e d))
  explore-closed zero (cur ∷ stack) seen cl h o = cc
  explore-closed (suc fuel) (cur ∷ stack) seen cl h o = elim (Bool-cases (elem cur seen)) [
    | inl old ↦
        let (in_cl, closed) =
          explore-closed fuel stack seen cl (ground arith)
            (λ x y e d. ground (arith, o x y e d, eq_iff y cur, old)) in
        (λ x e. in_cl x (ground (arith, eq_iff x cur, old)), closed)
    | inr new ↦
        let (in_cl, closed) =
          explore-closed fuel (push_all (next_steps steps cur) stack) (cur ∷ seen) cl (ground arith)
            (λ x y e d. elim (Bool-cases (x == cur)) [
              | inl same ↦
                  let is_cur : x ≡ cur = ground (arith, eq_iff x cur) in
                  let next = subst (λ k. elem y (next_steps steps k) ≡ true) is_cur d in
                  ground (arith, next, push_all-elem y (next_steps steps cur) stack)
              | inr other ↦ ground (arith, o x y, push_all-elem y (next_steps steps cur) stack)
            ]) in
        (λ x e. in_cl x (ground (arith, push_all-elem x (next_steps steps cur) stack)), closed)
  ]

-- The dependencies of the steps not seen yet.
unseen : Dict DagStep → List String → ℕ
unseen [] seen = 0
unseen ((sid, s) ∷ m) seen = (if elem sid seen then 0 else length s.depends_on) + unseen m seen

length-filter : (p : String → Bool) (xs : List String) → length (filter p xs) ≤ length xs
length-filter p [] = omega arith
length-filter p (x ∷ xs) = ground (arith, length-filter p xs)

unseen-le :
    (m : Dict DagStep) (cur : String) (seen : List String) → unseen m (cur ∷ seen) ≤ unseen m seen
unfolding unseen elem
unseen-le [] cur seen = omega arith
unseen-le ((sid, s) ∷ m) cur seen = ground (arith, unseen-le m cur seen)

unseen-lookup :
    (m : Dict DagStep) (cur : String) (seen : List String) (s : DagStep)
    → elem cur seen ≡ false
    → lookup cur m ≡ some s
    → length s.depends_on + unseen m (cur ∷ seen) ≤ unseen m seen
unfolding unseen elem lookup
unseen-lookup [] cur seen s new h = cc
unseen-lookup ((sid, t) ∷ m) cur seen s new h = elim (Bool-cases (sid == cur)) [
  | inl same ↦
      let is_cur : sid ≡ cur = ground (arith, eq_iff sid cur) in
      let is_s : t ≡ s = ground arith in
      let deps : length t.depends_on ≡ length s.depends_on = ap (λ k. length k.depends_on) is_s in
      ground (arith, unseen-le m cur seen, deps, is_cur, eq_iff sid cur, new)
  | inr other ↦ ground (arith, unseen-lookup m cur seen s new, eq_iff sid cur)
]

module _ (steps : Dict DagStep) where
  next_steps-unseen :
      (cur : String) (seen : List String)
      → elem cur seen ≡ false
      → length (next_steps steps cur) + unseen steps (cur ∷ seen) ≤ unseen steps seen
  unfolding next_steps
  next_steps-unseen cur seen new = elim (Option-cases (lookup cur steps)) [
    | inl none_there ↦ rw (none_there, next_steps) (omega (arith, unseen-le steps cur seen))
    | inr (s, there) ↦
        rw (there, next_steps)
          (omega (
            arith,
            unseen-lookup steps cur seen s new there,
            length-filter (λ d. has_key d steps) s.depends_on,
          ))
  ]

  explore-returns :
      (fuel : ℕ) (stack seen : List String)
      → length stack + unseen steps seen ≤ fuel
      → (cl : List String) × (explore steps fuel stack seen ≡ some cl)
  unfolding explore
  explore-returns fuel [] seen h = (seen, ground arith)
  explore-returns zero (cur ∷ stack) seen h = absurd (omega arith)
  explore-returns (suc fuel) (cur ∷ stack) seen h = elim (Bool-cases (elem cur seen)) [
    | inl old ↦
        let (cl, e) = explore-returns fuel stack seen (omega arith) in (cl, ground (arith, e))
    | inr new ↦
        let (cl, e) = explore-returns fuel (push_all (next_steps steps cur) stack) (cur ∷ seen) (
          omega (
            arith,
            push_all-length (next_steps steps cur) stack,
            next_steps-unseen cur seen new,
          )) in
        (cl, ground (arith, e))
  ]

  unseen-nil : (m : Dict DagStep) → suc (unseen m []) ≡ fuel_for m
  unfolding unseen fuel_for elem
  unseen-nil [] = refl
  unseen-nil ((sid, s) ∷ m) = omega (arith, unseen-nil m)

  -- The worklist ends within its fuel, and finds exactly the steps that the first one reaches along
  -- dependencies within the plan.
  pub closure-Reaches :
      (sid : String)
      → (cl : List String) × (closure steps sid ≡ some cl)
        × ((x : String) → (elem x cl ≡ true) ↔ Reaches steps sid x)
  unfolding closure elem IsOpen
  closure-Reaches sid =
      let (cl, e) =
        explore-returns (fuel_for steps) (sid ∷ []) [] (omega (arith, unseen-nil steps)) in
      let (in_cl, closed) =
        explore-closed steps (fuel_for steps) (sid ∷ []) [] cl e (λ x y k d. cc) in
      (
        cl,
        e,
        λ x. (
          λ k.
              explore_sound steps (fuel_for steps) (sid ∷ []) [] cl sid e
                (λ y j. subst (Reaches steps sid) (ground (arith, eq_iff y sid)) stay) (λ y j. cc) x
                k,
          λ r. reached cl (in_cl sid (ground (arith, eq_iff sid sid))) closed x r,
        ),
      )
    where
      reached :
          (cl : List String)
          → elem sid cl ≡ true
          → ((x y : String)
              → elem x cl ≡ true
              → elem y (next_steps steps x) ≡ true
              → elem y cl ≡ true)
          → (x : String) → Reaches steps sid x
          → elem x cl ≡ true
      reached cl start closed x stay = start
      reached cl start closed x (go_on {b = b} r d) = closed b x (reached cl start closed b r) d
