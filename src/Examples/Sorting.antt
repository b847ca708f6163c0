-- ===== src/Examples/Sorting.antt =====
-- `topological_sort` on small plans.
use jagent.Base.{
  ℕ, ◌≤◌, String, true, false, not, ◌&&◌, ◌||◌, List, [], ◌∷◌, ◌≡◌, ◌⊎◌, refl, arith, In, here,
  there, ok, err, elem, count, Bool-cases, inl, inr, sym, keys, insert, lookup_or, if◌then◌else◌,
  ◌==◌, eq_iff,
}
use mathlib.Core.Path.{subst}
use jagent.Plan.{DagStep}
use jagent.Plan.Toposort.{
  cycle_detected, unknown_dependency, topological_sort, step_ids, visit_all, visit, relax,
}
use jagent.Plan.Toposort.Rounds.{flat}
use jagent.Plan.Toposort.Order.{IsOrdered, topological_sort-IsOrdered, topological_sort-count}
use jagent.Plan.Toposort.Total.{
  IsKnown, IsRanked, HasUniqueIds, topological_sort-returns, topological_sort_errors,
}
use jagent.Examples.Plans.{fetch_and_save, circular}

sorted : topological_sort fetch_and_save [] [] ≡ ok (("s1" ∷ []) ∷ ("s2" ∷ []) ∷ [])
unfolding topological_sort elem keys insert lookup_or visit_all visit relax
sorted = refl

stuck : topological_sort circular [] [] ≡ err cycle_detected
unfolding topological_sort elem keys insert lookup_or
stuck = refl

topological_sort-IsOrdered_example :
    IsOrdered fetch_and_save.steps [] [] (("s1" ∷ []) ∷ ("s2" ∷ []) ∷ [])
topological_sort-IsOrdered_example =
    topological_sort-IsOrdered fetch_and_save [] [] (("s1" ∷ []) ∷ ("s2" ∷ []) ∷ []) sorted

topological_sort-count_example :
    count "s2" (flat (("s1" ∷ []) ∷ ("s2" ∷ []) ∷ []))
    ≡ (if elem "s2" (step_ids fetch_and_save.steps) && not (elem "s2" []) then 1 else 0)
topological_sort-count_example =
    topological_sort-count fetch_and_save [] [] (("s1" ∷ []) ∷ ("s2" ∷ []) ∷ []) "s2" sorted

abbrev rank : String → ℕ
rank n = if n == "s1" then 0 else 1

known : IsKnown fetch_and_save.steps [] []
unfolding elem step_ids keys insert
known s dep here d = ground arith
known s dep (there here) d = cc
known s dep (there (there i)) d = elim i [ ]

unique : HasUniqueIds fetch_and_save.steps
unfolding count
unique n = elim (Bool-cases (n == "s1")) [
  | inl first ↦
      subst (λ m. count m ("s2" ∷ "s1" ∷ []) ≤ 1) (sym ((eq_iff n "s1").0 first)) (omega arith)
  | inr other ↦ ground arith
]

ranked : IsRanked rank fetch_and_save.steps
unfolding elem
ranked s dep here d k = ground arith
ranked s dep (there here) d k = cc
ranked s dep (there (there i)) d k = elim i [ ]

topological_sort-returns_example :
    (layers : List (List String)) × (topological_sort fetch_and_save [] [] ≡ ok layers)
topological_sort-returns_example =
    topological_sort-returns fetch_and_save [] [] rank known unique ranked

topological_sort_errors_example :
    ((s : DagStep) × (dep : String) × (cycle_detected ≡ unknown_dependency s.id dep)
      × In s circular.steps
      × (elem dep s.depends_on ≡ true)
      × ((elem dep (step_ids circular.steps) || elem dep [] || elem dep []) ≡ false))
    ⊎ (cycle_detected ≡ cycle_detected) × IsKnown circular.steps [] []
topological_sort_errors_example = topological_sort_errors circular [] [] cycle_detected stuck
