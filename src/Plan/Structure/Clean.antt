-- ===== src/Plan/Structure/Clean.antt =====
-- What the first two loops of validate_dag_structure make sure of.
use jagent.Base.{
  ℕ, suc, ◌+◌, ◌≤◌, ◌≢◌, String, true, ◌||◌, List, [], ◌∷◌, ◌++◌, ◌==◌, elem, elem-count, count,
  count-append, In, here, there, ◌≡◌, refl, sym, ap, ◌∙◌, arith, eq_iff, inl, inr, Bool-cases,
}
use jagent.Plan.{DagStep, DagPlan}
use jagent.Plan.Toposort.Start.{ids_of}
use jagent.Plan.Toposort.Total.{HasUniqueIds}
use jagent.Plan.Structure.{PlanError, scan_ids, dep_errors, all_dep_errors, ids_and_deps}

append-nil : (xs ys : List PlanError) → xs ++ ys ≡ [] → (xs ≡ []) × (ys ≡ [])
append-nil [] ys h = (refl, h)
append-nil (x ∷ xs) ys h = cc

-- Without an error the set of ids has the id of each step once.
scan_ids-nil :
    (i : ℕ) (ids : List String) (ss : List DagStep)
    → (scan_ids i ids ss).0 ≡ []
    → ((n : String) → count n ids ≤ 1)
    → ((scan_ids i ids ss).1 ≡ ids ++ ids_of ss)
      × ((n : String) → count n ids + count n (ids_of ss) ≤ 1)
unfolding scan_ids count
scan_ids-nil i ids [] h once = (sym (append-none ids), λ n. omega (arith, once n))
  where
    append-none : (xs : List String) → xs ++ [] ≡ xs
    append-none [] = refl
    append-none (x ∷ xs) = ap (λ ys. x ∷ ys) (append-none xs)
scan_ids-nil i ids (s ∷ ss) h once = elim (Bool-cases (s.id == "")) [
  | inl unnamed ↦ absurd (ground arith)
  | inr named ↦ elim (Bool-cases (elem s.id ids)) [
    | inl twice ↦ absurd (ground arith)
    | inr fresh ↦
        let same : scan_ids i ids (s ∷ ss) ≡ scan_ids (suc i) (ids ++ s.id ∷ []) ss =
          ground arith in
        let (all, unique) =
          scan_ids-nil (suc i) (ids ++ s.id ∷ []) ss (ap (λ x. x.0) (sym same) ∙ h) (λ n.
            ground (
              arith,
              count-append n ids (s.id ∷ []),
              elem-count s.id ids,
              once n,
              eq_iff n s.id,
            )) in
        (
          ap (λ x. x.1) same ∙ all ∙ append-snoc ids s.id (ids_of ss),
          λ n. omega (arith, unique n, count-append n ids (s.id ∷ [])),
        )
  ]
]
  where
    append-snoc :
        (xs : List String) (x : String) (ys : List String) → (xs ++ x ∷ []) ++ ys ≡ xs ++ x ∷ ys
    append-snoc [] x ys = refl
    append-snoc (y ∷ xs) x ys = ap (λ zs. y ∷ zs) (append-snoc xs x ys)

-- What the second loop checks of one step.
dep_errors-nil :
    (ids external : List String) (sid : String) (deps : List String) (dep : String)
    → dep_errors ids external sid deps ≡ []
    → elem dep deps ≡ true
    → (elem dep ids || elem dep external) ≡ true
unfolding dep_errors elem
dep_errors-nil ids external sid [] dep h e = cc
dep_errors-nil ids external sid (d ∷ deps) dep h e = elim (Bool-cases (dep == d)) [
  | inl same ↦ ground (arith, eq_iff dep d)
  | inr other ↦ ground (arith, dep_errors-nil ids external sid deps dep, eq_iff dep d)
]

all_dep_errors-nil :
    (ids external : List String) (ss : List DagStep) (s : DagStep) (dep : String)
    → all_dep_errors ids external ss ≡ []
    → In s ss
    → s.id ≢ ""
    → elem dep s.depends_on ≡ true
    → (elem dep ids || elem dep external) ≡ true
unfolding all_dep_errors
all_dep_errors-nil ids external [] s dep h i named e = elim i [ ]
all_dep_errors-nil ids external (t ∷ ss) s dep h here named e = elim (Bool-cases (s.id == "")) [
  | inl empty ↦ absurd (named (ground (arith, eq_iff s.id "")))
  | inr full ↦
      dep_errors-nil ids external s.id s.depends_on dep
        (append-nil (dep_errors ids external s.id s.depends_on) (all_dep_errors ids external ss)
          (ground arith)).0
        e
]
all_dep_errors-nil ids external (t ∷ ss) s dep h (there i) named e =
    elim (Bool-cases (t.id == "")) [
      | inl empty ↦ all_dep_errors-nil ids external ss s dep (ground arith) i named e
      | inr full ↦
          all_dep_errors-nil ids external ss s dep
            (append-nil (dep_errors ids external t.id t.depends_on) (all_dep_errors ids external ss)
              (ground arith)).1
            i named e
    ]

scan_ids-named :
    (i : ℕ) (ids : List String) (ss : List DagStep) (s : DagStep)
    → (scan_ids i ids ss).0 ≡ []
    → In s ss
    → s.id ≢ ""
unfolding scan_ids
scan_ids-named i ids [] s h k = elim k [ ]
scan_ids-named i ids (t ∷ ss) s h here = λ e. ground (arith, eq_iff s.id "")
scan_ids-named i ids (t ∷ ss) s h (there k) = elim (Bool-cases (t.id == "")) [
  | inl unnamed ↦ absurd (ground arith)
  | inr named ↦ elim (Bool-cases (elem t.id ids)) [
    | inl twice ↦ absurd (ground arith)
    | inr fresh ↦ scan_ids-named (suc i) (ids ++ t.id ∷ []) ss s (ground arith) k
  ]
]

-- What the first two loops make sure of.
pub record IsClean (plan : DagPlan) (external : List String) (ids : List String) : Type 0 where
  pub all_ids : ids ≡ ids_of plan.steps
  pub unique : HasUniqueIds plan.steps
  pub known :
      (s : DagStep) (dep : String)
      → In s plan.steps
      → elem dep s.depends_on ≡ true
      → (elem dep ids || elem dep external) ≡ true

pub ids_and_deps-IsClean :
    (plan : DagPlan) (external : List String)
    → ids_and_deps plan.steps external ≡ []
    → IsClean plan external (scan_ids 0 [] plan.steps).1
unfolding ids_and_deps count
ids_and_deps-IsClean plan external h =
    let (a, b) =
      append-nil (scan_ids 0 [] plan.steps).0
        (all_dep_errors (scan_ids 0 [] plan.steps).1 external plan.steps) h in
    let (all, once) = scan_ids-nil 0 [] plan.steps a (λ n. omega arith) in
    record {
      all_ids = all;
      unique = λ n. omega (arith, once n);
      known = λ s dep i e.
          all_dep_errors-nil (scan_ids 0 [] plan.steps).1 external plan.steps s dep b i
            (scan_ids-named 0 [] plan.steps s a i) e;
    }
