-- ===== src/RevisionGuard/Apart.antt =====
-- The merge of a revision binds no replacement to two steps.
use jagent.Base.{
  ◌≢◌, String, false, not, some, List, [], ◌∷◌, ◌==◌, eq_iff, Dict, lookup, insert, lookup-insert,
  ◌≡◌, sym, ◌∙◌, arith, Bool-cases, Option-cases, inl, inr, In, here, In-filter,
}
use mathlib.Core.Path.{subst}
use jagent.Values.{Fields}
use jagent.Steps.{StepResult}
use jagent.Plan.{DagStep, DagPlan}
use jagent.Plan.Toposort.{step_map}
use jagent.RevisionGuard.Bound.{matching-In}
use jagent.RevisionGuard.Merge.{
  Binding, canonical, unresolved_ids, replacement_ids, bind_match, bind_one, bind_all, bind_last,
  ended_badly, new_aliases, merged_aliases, merge_revised_plan,
}

module _ (old : Dict String) where
  -- The step got this alias in the merge.
  pub record IsNew (m : Dict String) (oid rid : String) : Type 0 where
    pub bound : lookup oid m ≡ some rid
    pub changed : lookup oid old ≢ some rid

  -- No new alias is still to be given away.
  abbrev Fresh : Dict String → List String → Type 0
  Fresh m rids = (oid rid : String) → IsNew m oid rid → ¬ In rid rids

  -- No two steps have one new alias.
  abbrev OneToOne : Dict String → Type 0
  OneToOne m = (o p rid : String) → IsNew m o rid → IsNew m p rid → o ≡ p

  module _ (m : Dict String) (oid sid : String) where
    -- A new alias after an insertion is the inserted one, or was one before.
    insert-own : (o rid : String) → oid ≡ o → IsNew (insert oid sid m) o rid → rid ≡ sid
    insert-own o rid own h =
        ground (arith, h.bound, lookup-insert oid o sid m, (eq_iff oid o).1 own)

    insert-other :
        (o rid : String) → (oid == o) ≡ false → IsNew (insert oid sid m) o rid → IsNew m o rid
    insert-other o rid other h = record {
      bound = ground (arith, h.bound, lookup-insert oid o sid m);
      changed = h.changed;
    }

    insert-Fresh :
        (rids later : List String)
        → Fresh m rids
        → ((x : String) → In x later → In x rids × (x ≢ sid))
        → Fresh (insert oid sid m) later
    insert-Fresh rids later h fewer o rid new i = elim (Bool-cases (oid == o)) [
      | inl own ↦ (fewer rid i).1 (insert-own o rid ((eq_iff oid o).0 own) new)
      | inr other ↦ h o rid (insert-other o rid other new) (fewer rid i).0
    ]

    insert-OneToOne :
        (rids : List String) → In sid rids → Fresh m rids → OneToOne m → OneToOne (insert oid sid m)
    insert-OneToOne rids i h apart o p rid new_o new_p = elim (Bool-cases (oid == o)) [
      | inl own_o ↦ elim (Bool-cases (oid == p)) [
        | inl own_p ↦ sym ((eq_iff oid o).0 own_o) ∙ (eq_iff oid p).0 own_p
        | inr other_p ↦ absurd (
            h p rid (insert-other p rid other_p new_p)
              (subst (λ x. In x rids) (sym (insert-own o rid ((eq_iff oid o).0 own_o) new_o)) i))
      ]
      | inr other_o ↦ elim (Bool-cases (oid == p)) [
        | inl own_p ↦ absurd (
            h o rid (insert-other o rid other_o new_o)
              (subst (λ x. In x rids) (sym (insert-own p rid ((eq_iff oid p).0 own_p) new_p)) i))
        | inr other_p ↦
            apart o p rid (insert-other o rid other_o new_o) (insert-other p rid other_p new_p)
      ]
    ]

  module _ (dumps : Fields → String) (root revised : Dict DagStep) (results : Dict StepResult) where
    abbrev Apart : Binding → Type 0
    Apart b = Fresh b.aliases b.replacements × OneToOne b.aliases

    bind_match-Apart :
        (oid : String) (sids : List String) (b : Binding)
        → ((x : String) → In x sids → In x b.replacements)
        → Apart b
        → Apart (bind_match dumps root revised results oid sids b)
    unfolding bind_match
    bind_match-Apart oid [] b among h = h
    bind_match-Apart oid (sid ∷ []) b among h = (
      insert-Fresh b.aliases oid sid b.replacements _ h.0 (λ x i.
          let (j, kept) = In-filter (λ k. not (k == sid)) x b.replacements i in
          (j, λ e. ground (arith, kept, (eq_iff x sid).1 e))),
      insert-OneToOne b.aliases oid sid b.replacements (among sid here) h.0 h.1,
    )
    bind_match-Apart oid (sid ∷ k ∷ sids) b among h = h

    bind_one-Apart :
        (oid : String) (b : Binding) → Apart b → Apart (bind_one dumps root revised results oid b)
    unfolding bind_one
    bind_one-Apart oid b h = elim (Option-cases (lookup (canonical b.aliases oid) results)) [
      | inl absent ↦ rw (absent, bind_one) h
      | inr (prior, ran) ↦ elim (Option-cases (lookup oid root)) [
        | inl absent ↦ rw (ran, absent, bind_one) h
        | inr (original, present) ↦
            elim (Bool-cases (ended_badly dumps root revised results prior)) [
              | inl bad ↦
                  rw (ran, present, bad, bind_one)
                    ((bind_match-Apart oid _ b
                      (λ x i.
                        matching-In dumps root revised results [] old original b.replacements x i)
                      h))
              | inr other ↦ rw (ran, present, other, bind_one) h
            ]
      ]
    ]

    bind_all-Apart :
        (oids : List String) (b : Binding)
        → Apart b
        → Apart (bind_all dumps root revised results oids b)
    unfolding bind_all
    bind_all-Apart [] b h = h
    bind_all-Apart (oid ∷ oids) b h = bind_all-Apart oids _ (bind_one-Apart oid b h)

    bind_last-OneToOne :
        (rids oids : List String) (m : Dict String)
        → Fresh m rids
        → OneToOne m
        → OneToOne (bind_last dumps root revised results rids oids m)
    unfolding bind_last
    bind_last-OneToOne [] oids m h apart = apart
    bind_last-OneToOne (rid ∷ []) [] m h apart = apart
    bind_last-OneToOne (rid ∷ []) (oid ∷ []) m h apart =
        insert-OneToOne m oid rid (rid ∷ []) here h apart
    bind_last-OneToOne (rid ∷ []) (oid ∷ k ∷ oids) m h apart = apart
    bind_last-OneToOne (rid ∷ k ∷ rids) oids m h apart = apart

    new_aliases-OneToOne :
        (unresolved rids : List String)
        → OneToOne (new_aliases dumps root revised results unresolved rids old)
    unfolding new_aliases
    new_aliases-OneToOne unresolved rids =
        let start : Binding = record { aliases = old; replacements = rids; originals = [] } in
        let h = bind_all-Apart unresolved start (
          λ oid rid new i. new.changed new.bound,
          λ o p rid new_o new_p. absurd (new_o.changed new_o.bound),
        ) in
        bind_last-OneToOne _ _ _ h.0 h.1

-- A merge binds no replacement twice: two different steps that get an alias in the merge get different
-- ones.
pub merge_revised_plan-one_to_one :
    (dumps : Fields → String) (root current revised : DagPlan) (results : Dict StepResult)
    (aliases : Dict String) (o p r q : String)
    → o ≢ p
    → IsNew aliases (merge_revised_plan dumps root current revised results aliases).aliases o r
    → IsNew aliases (merge_revised_plan dumps root current revised results aliases).aliases p q
    → r ≢ q
unfolding merge_revised_plan merged_aliases
merge_revised_plan-one_to_one dumps root current revised results aliases o p r q differ new_o new_p
      e =
    let steps = step_map root.steps in
    let brought = step_map revised.steps in
    let new = merged_aliases dumps root current revised results aliases in
    differ (
      new_aliases-OneToOne aliases dumps steps brought results
        (unresolved_ids aliases results root.steps)
        (replacement_ids dumps steps current.steps brought) o p q
        (subst (IsNew aliases new o) e new_o) new_p)
