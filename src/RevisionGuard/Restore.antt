-- ===== src/RevisionGuard/Restore.antt =====
-- What the merge of a revision restores of the first plan.
use jagent.Base.{
  ◌≤◌, String, true, false, some, [], ◌∷◌, ◌==◌, count, Dict, lookup, has_key, insert, keys,
  lookup-insert, ◌≡◌, refl, sym, ap, ◌∙◌, arith, eq_iff, Bool-cases, inl, inr,
}
use jagent.Values.{Fields}
use jagent.Steps.{StepResult}
use jagent.Plan.{DagStep}
use jagent.RevisionGuard.Merge.{canonical, is_done, rewritten, restore}

module _ (dumps : Fields → String) (root revised : Dict DagStep) (results : Dict StepResult)
    (aliases : Dict String) where
  -- A key that stands in neither the rest nor a restored step is left alone.
  restore-absent :
      (oid : String) (m merged : Dict DagStep)
      → count oid (keys m) ≡ 0
      → lookup oid (restore dumps root revised results aliases m merged) ≡ lookup oid merged
  unfolding restore count keys
  restore-absent oid [] merged h = refl
  restore-absent oid ((k, s) ∷ m) merged h = ground (
    arith,
    restore-absent oid m merged,
    restore-absent oid m (insert k (rewritten dumps root revised results aliases s) merged),
    lookup-insert k oid (rewritten dumps root revised results aliases s) merged,
    eq_iff oid k,
    eq_iff k oid,
  )

  -- A step of the revision is left as it is.
  pub restore-revised :
      (oid : String) (m merged : Dict DagStep)
      → has_key oid revised ≡ true
      → lookup oid (restore dumps root revised results aliases m merged) ≡ lookup oid merged
  unfolding restore
  restore-revised oid [] merged h = refl
  restore-revised oid ((k, s) ∷ m) merged h = elim (Bool-cases (k == oid)) [
    | inl same ↦
        let is_oid : k ≡ oid = ground (arith, eq_iff k oid) in
        let has_k : has_key k revised ≡ true = ap (λ x. has_key x revised) is_oid ∙ h in
        ground (arith, has_k, restore-revised oid m merged)
    | inr other ↦ ground (
      arith,
      restore-revised oid m merged,
      restore-revised oid m (insert k (rewritten dumps root revised results aliases s) merged),
      lookup-insert k oid (rewritten dumps root revised results aliases s) merged,
    )
  ]

  pub restore-lookup :
      (oid : String) (s : DagStep) (m merged : Dict DagStep)
      → count oid (keys m) ≤ 1
      → lookup oid m ≡ some s
      → canonical aliases oid ≡ oid
      → has_key oid revised ≡ false
      → is_done (lookup oid results) ≡ false
      → lookup oid (restore dumps root revised results aliases m merged)
        ≡ some (rewritten dumps root revised results aliases s)
  unfolding restore count keys lookup
  restore-lookup oid s [] merged once h own new undone = cc
  restore-lookup oid s ((k, t) ∷ m) merged once h own new undone = elim (Bool-cases (k == oid)) [
    | inl same ↦
        let is_oid : k ≡ oid = ground (arith, eq_iff k oid) in
        let k_own : canonical aliases k ≡ k = ap (canonical aliases) is_oid ∙ own ∙ sym is_oid in
        let k_new = ap (λ x. has_key x revised) is_oid ∙ new in
        let k_undone = ap (λ x. is_done (lookup x results)) is_oid ∙ undone in
        let is_s : t ≡ s = ground arith in
        let put = rewritten dumps root revised results aliases in
        let opened : restore dumps root revised results aliases ((k, t) ∷ m) merged
            ≡ restore dumps root revised results aliases m (insert k (put t) merged) =
          ground (arith, k_own, k_new, k_undone, eq_iff (canonical aliases k) k) in
        ap (lookup oid) opened
        ∙ restore-absent oid m (insert k (put t) merged) (ground (arith, eq_iff oid k))
        ∙ lookup-insert k oid (put t) merged
        ∙ ground (arith, same)
        ∙ ap (λ x. some (put x)) is_s
    | inr other ↦ ground (
      arith,
      restore-lookup oid s m merged,
      restore-lookup oid s m (insert k (rewritten dumps root revised results aliases t) merged),
    )
  ]
