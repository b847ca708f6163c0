-- ===== src/RevisionGuard/Kept.antt =====
-- What the merge of a revision keeps of the first plan, and the results that it leaves.
use jagent.Base.{
  ◌≤◌, ◌≢◌, String, true, false, some, List, [], ◌∷◌, ◌==◌, elem, count, Dict, lookup, has_key,
  remove, keys, lookup-remove, In, here, there, ◌≡◌, refl, sym, ap, ◌∙◌, arith, eq_iff, Bool-cases,
  Option-cases, inl, inr,
}
use mathlib.Core.Path.{subst}
use jagent.Values.{Fields}
use jagent.Steps.{StepResult, step_normal}
use jagent.Plan.{DagStep, DagPlan}
use jagent.Plan.Toposort.{step_map, step_ids}
use jagent.Plan.Toposort.Start.{count-step_ids}
use jagent.RevisionGuard.Restore.{restore-revised, restore-lookup}
use jagent.RevisionGuard.Aliases.{merged_aliases-canonical}
use jagent.RevisionGuard.Merge.{
  canonical, is_done, rewritten, drop_stale, drop_aliased, values, Merged, merged_aliases,
  merged_steps, merge_revised_plan,
}

lookup-values :
    (oid : String) (s : DagStep) (m : Dict DagStep) → lookup oid m ≡ some s → In s (values m)
unfolding lookup values
lookup-values oid s [] h = cc
lookup-values oid s ((k, t) ∷ m) h = elim (Bool-cases (k == oid)) [
  | inl same ↦ let e : t ≡ s = ground arith in subst (λ x. In x (t ∷ values m)) e here
  | inr other ↦ there (lookup-values oid s m (ground arith))
]

drop_aliased-lookup :
    (sid : String) (r : StepResult) (m : Dict String) (results : Dict StepResult)
    → lookup sid (drop_aliased m results) ≡ some r
    → lookup sid results ≡ some r
unfolding drop_aliased
drop_aliased-lookup sid r [] results h = h
drop_aliased-lookup sid r ((oid, alias) ∷ m) results h = ground (
  arith,
  drop_aliased-lookup sid r m results,
  drop_aliased-lookup sid r m (remove oid results),
  lookup-remove oid sid results,
)

-- A result that a merged step keeps ended normally.
drop_stale-lookup :
    (sid : String) (r : StepResult) (sids : List String) (results : Dict StepResult)
    → lookup sid (drop_stale sids results) ≡ some r
    → (lookup sid results ≡ some r) × (elem sid sids ≡ true → step_normal r ≡ true)
unfolding drop_stale elem
drop_stale-lookup sid r [] results h = (h, λ e. cc)
drop_stale-lookup sid r (k ∷ sids) results h = elim (Option-cases (lookup k results)) [
  | inl gone ↦
      let (found, normal) = drop_stale-lookup sid r sids results (ground arith) in
      (
        found,
        λ e. elim (Bool-cases (sid == k)) [
          | inl same ↦ absurd (ground (arith, eq_iff sid k))
          | inr other ↦ normal (ground arith)
        ],
      )
  | inr (prior, there_is) ↦ elim (Bool-cases (step_normal prior)) [
    | inl good ↦
        let (found, normal) = drop_stale-lookup sid r sids results (ground arith) in
        (
          found,
          λ e. elim (Bool-cases (sid == k)) [
            | inl same ↦
                let is_k : sid ≡ k = ground (arith, eq_iff sid k) in
                let one : some r ≡ some prior =
                  sym found ∙ ap (λ x. lookup x results) is_k ∙ there_is in
                let is_prior : r ≡ prior = cc in ap step_normal is_prior ∙ good
            | inr other ↦ normal (ground arith)
          ],
        )
    | inr bad ↦
        let (found, normal) = drop_stale-lookup sid r sids (remove k results) (ground arith) in
        let kept = lookup-remove k sid results in
        (
          ground (arith, found, kept),
          λ e. elim (Bool-cases (sid == k)) [
            | inl same ↦ absurd (ground (arith, found, kept, eq_iff sid k, eq_iff k sid))
            | inr other ↦ normal (ground arith)
          ],
        )
  ]
]

-- What becomes of a step of the first plan, where the steps had `aliases` before the merge.
pub data IsKept (dumps : Fields → String) (root revised : DagPlan) (results : Dict StepResult)
    (aliases : Dict String) (m : Merged) (oid : String) (s : DagStep) : Type 0 where
  replaced :
      (t : DagStep)
      → lookup (canonical m.aliases oid) (step_map revised.steps) ≡ some t
      → has_key (canonical m.aliases oid) (step_map root.steps) ≡ false
      → In t m.plan.steps
      → IsKept dumps root revised results aliases m oid s
  bound_before :
      canonical aliases oid ≢ oid
      → canonical m.aliases oid ≡ canonical aliases oid
      → IsKept dumps root revised results aliases m oid s
  done : is_done (lookup oid results) ≡ true → IsKept dumps root revised results aliases m oid s
  taken_over :
      (t : DagStep)
      → lookup oid (step_map revised.steps) ≡ some t
      → In t m.plan.steps
      → IsKept dumps root revised results aliases m oid s
  restored :
      In
        (rewritten dumps (step_map root.steps) (step_map revised.steps) results m.aliases s)
        m.plan.steps
      → IsKept dumps root revised results aliases m oid s

-- What a merge does with each step of the first plan: it is bound to a step that the revision brings
-- in and that the merged plan has, or it keeps the alias that it had before the merge, or it ended
-- normally, or the revision has a step of its id and the merged plan has that step as it is, or the
-- merged plan has the step again, with its dependencies under their aliases. A result that
-- the merge leaves for a step of the merged plan is one that ended normally, and is unchanged.
pub merge_revised_plan-keeps :
    (dumps : Fields → String) (root current revised : DagPlan) (results : Dict StepResult)
    (aliases : Dict String)
    → ((oid : String) (s : DagStep)
        → lookup oid (step_map root.steps) ≡ some s
        → IsKept dumps root revised results aliases
            (merge_revised_plan dumps root current revised results aliases)
            oid
            s)
      × ((sid : String) (r : StepResult)
          → elem sid (
              keys (
                merged_steps dumps root revised results
                  (merged_aliases dumps root current revised results aliases)))
            ≡ true
          → lookup sid (merge_revised_plan dumps root current revised results aliases).results
            ≡ some r
          → (step_normal r ≡ true) × (lookup sid results ≡ some r))
unfolding merge_revised_plan merged_steps step_ids
merge_revised_plan-keeps dumps root current revised results aliases = (
  λ oid s known. elim (Bool-cases (canonical new oid == oid)) [
    | inr other ↦
        let moved : canonical new oid ≢ oid = λ e. ground (arith, eq_iff (canonical new oid) oid) in
        elim (merged_aliases-canonical dumps root current revised results aliases oid) [
          | inl same ↦ bound_before (λ e. moved (same ∙ e)) same
          | inr (t, there_is, fresh) ↦ replaced t there_is fresh (
              lookup-values (canonical new oid) t _ (
                restore-revised dumps root_steps revised_steps results new (canonical new oid)
                  root_steps revised_steps (rw (there_is, has_key) refl)
                ∙ there_is))
        ]
    | inl own ↦ elim (Bool-cases (is_done (lookup oid results))) [
      | inl finished ↦ done finished
      | inr undone ↦ elim (Option-cases (lookup oid revised_steps)) [
        | inr (t, there_is) ↦ taken_over t there_is (
            lookup-values oid t _ (
              restore-revised dumps root_steps revised_steps results new oid root_steps
                revised_steps (rw (there_is, has_key) refl)
              ∙ there_is))
        | inl absent ↦ restored (
            lookup-values oid _ _ (
              restore-lookup dumps root_steps revised_steps results new oid s root_steps
                revised_steps (once oid) known (ground (arith, eq_iff (canonical new oid) oid))
                (rw (absent, has_key) refl) undone))
      ]
    ]
  ],
  λ sid r listed h.
      let (found, normal) =
        drop_stale-lookup sid r (keys merged) results (drop_aliased-lookup sid r new _ h) in
      (normal listed, found),
)
  where
    root_steps : Dict DagStep
    root_steps = step_map root.steps

    revised_steps : Dict DagStep
    revised_steps = step_map revised.steps

    new : Dict String
    new = merged_aliases dumps root current revised results aliases

    merged : Dict DagStep
    merged = merged_steps dumps root revised results new

    once : (n : String) → count n (keys (step_map root.steps)) ≤ 1
    once n = ground (arith, count-step_ids n root.steps)
