-- ===== src/RevisionGuard/Aliases.antt =====
-- What the aliases stand for after the merge of a revision.
use jagent.Base.{
  String, false, some, [], ◌∷◌, ◌==◌, Dict, lookup, has_key, keys, In, here, there, In-filter, ◌⊎◌,
  lookup_or, ◌≡◌, refl, arith, eq_iff, Bool-cases, inl, inr,
}
use jagent.Values.{Fields}
use jagent.Steps.{StepResult}
use jagent.Plan.{DagStep, DagPlan}
use jagent.Plan.Toposort.{step_map}
use jagent.RevisionGuard.Bound.{new_aliases-IsBound}
use jagent.RevisionGuard.Merge.{unresolved_ids, replacement_ids, canonical, merged_aliases}

keys-lookup :
    (sid : String) (m : Dict DagStep) → In sid (keys m) → (t : DagStep) × (lookup sid m ≡ some t)
unfolding keys lookup
keys-lookup sid [] i = elim i [ ]
keys-lookup sid ((k, t) ∷ m) here = (t, rw ((eq_iff sid sid).1 refl) refl)
keys-lookup sid ((k, t) ∷ m) (there i) = elim (Bool-cases (k == sid)) [
  | inl own ↦ (t, rw own refl)
  | inr other ↦ let (s, h) = keys-lookup sid m i in (s, rw other h)
]

canonical-lookup :
    (oid : String) (m n : Dict String)
    → lookup oid m ≡ lookup oid n
    → canonical m oid ≡ canonical n oid
unfolding canonical lookup_or
canonical-lookup oid m n h = ground arith

canonical-some :
    (oid rid : String) (m : Dict String) → lookup oid m ≡ some rid → canonical m oid ≡ rid
unfolding canonical lookup_or
canonical-some oid rid m h = ground arith

module _ (dumps : Fields → String) (root current revised : DagPlan) (results : Dict StepResult)
    (aliases : Dict String) where
  -- Every alias after the merge is the one before it, or a step that the revision brings in.
  pub merged_aliases-canonical :
      (oid : String)
      → (canonical (merged_aliases dumps root current revised results aliases) oid
          ≡ canonical aliases oid)
        ⊎ ((t : DagStep) × (lookup
                (canonical (merged_aliases dumps root current revised results aliases) oid)
                (step_map revised.steps)
              ≡ some t)
            × (has_key
                  (canonical (merged_aliases dumps root current revised results aliases) oid)
                  (step_map root.steps)
                ≡ false))
  unfolding merged_aliases replacement_ids
  merged_aliases-canonical oid =
      let ids =
        replacement_ids dumps (step_map root.steps) current.steps (step_map revised.steps) in
      elim (new_aliases-IsBound dumps (step_map root.steps) (step_map revised.steps) results ids
        aliases (unresolved_ids aliases results root.steps) oid) [
          | inl same ↦ inl (canonical-lookup oid _ aliases same)
          | inr (rid, i, bound) ↦
              let (listed, fresh) = In-filter _ rid (keys (step_map revised.steps)) i in
              let (t, there_is) = keys-lookup rid (step_map revised.steps) listed in
              let is_rid = canonical-some oid rid _ bound in
              inr (t, rw is_rid there_is, rw is_rid (ground arith))
        ]
