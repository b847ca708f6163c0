-- ===== src/RevisionGuard/Bound.antt =====
-- What the merge of a revision does to the aliases: which it changes, and to what.
use jagent.Base.{
  String, not, some, List, [], ◌∷◌, ◌==◌, Dict, lookup, insert, lookup-insert, ◌≡◌, refl, ◌⊎◌,
  arith, Bool-cases, Option-cases, inl, inr, In, here, there, In-filter,
}
use jagent.Values.{Fields}
use jagent.Steps.{StepResult}
use jagent.Plan.{DagStep}
use jagent.RevisionGuard.{sig_eq, step_signature}
use jagent.RevisionGuard.Merge.{
  Binding, canonical, matching, bind_match, bind_one, bind_all, bind_last, ended_badly, new_aliases,
}

-- Each alias is the old one, or one of the given steps.
abbrev pub IsBound : List String → Dict String → Dict String → Type 0
IsBound ids old new =
    (oid : String)
    → (lookup oid new ≡ lookup oid old)
      ⊎ ((rid : String) × In rid ids × (lookup oid new ≡ some rid))

insert-IsBound :
    (ids : List String) (old m : Dict String) (k rid : String)
    → In rid ids
    → IsBound ids old m
    → IsBound ids old (insert k rid m)
insert-IsBound ids old m k rid i h oid = elim (Bool-cases (k == oid)) [
  | inl own ↦ inr (rid, i, ground (arith, lookup-insert k oid rid m))
  | inr other ↦ elim (h oid) [
    | inl same ↦ inl (ground (arith, lookup-insert k oid rid m))
    | inr (r, j, bound) ↦ inr (r, j, ground (arith, lookup-insert k oid rid m))
  ]
]

In-cons : (x k : String) {xs ys : List String} → (In x xs → In x ys) → In x (k ∷ xs) → In x (k ∷ ys)
In-cons x k h here = here
In-cons x k h (there i) = there (h i)

module _ (dumps : Fields → String) (root revised : Dict DagStep) (results : Dict StepResult)
    (ids : List String) (old : Dict String) where
  abbrev Tracks : Binding → Type 0
  Tracks b = IsBound ids old b.aliases × ((x : String) → In x b.replacements → In x ids)

  pub matching-In :
      (original : DagStep) (sids : List String) (x : String)
      → In x (matching dumps root revised results original sids)
      → In x sids
  unfolding matching
  matching-In original [] x i = i
  matching-In original (sid ∷ sids) x i = elim (Option-cases (lookup sid revised)) [
    | inl absent ↦ there (matching-In original sids x (rw (absent, matching) at i))
    | inr (s, present) ↦
        elim (Bool-cases (sig_eq (step_signature dumps s) (step_signature dumps original))) [
          | inl same ↦
              In-cons x sid (matching-In original sids x) (rw (present, same, matching) at i)
          | inr other ↦ there (matching-In original sids x (rw (present, other, matching) at i))
        ]
  ]

  bind_match-Tracks :
      (oid : String) (sids : List String) (b : Binding)
      → ((x : String) → In x sids → In x ids)
      → Tracks b
      → Tracks (bind_match dumps root revised results oid sids b)
  unfolding bind_match
  bind_match-Tracks oid [] b among h = h
  bind_match-Tracks oid (sid ∷ []) b among h = (
    insert-IsBound ids old b.aliases oid sid (among sid here) h.0,
    λ x i. h.1 x (In-filter (λ k. not (k == sid)) x b.replacements i).0,
  )
  bind_match-Tracks oid (sid ∷ k ∷ sids) b among h = h

  bind_one-Tracks :
      (oid : String) (b : Binding) → Tracks b → Tracks (bind_one dumps root revised results oid b)
  unfolding bind_one
  bind_one-Tracks oid b h = elim (Option-cases (lookup (canonical b.aliases oid) results)) [
    | inl absent ↦ rw (absent, bind_one) h
    | inr (prior, ran) ↦ elim (Option-cases (lookup oid root)) [
      | inl absent ↦ rw (ran, absent, bind_one) h
      | inr (original, present) ↦ elim (Bool-cases (ended_badly dumps root revised results prior)) [
        | inl bad ↦
            rw (ran, present, bad, bind_one)
              (bind_match-Tracks oid _ b (λ x i. h.1 x (matching-In original b.replacements x i)) h)
        | inr other ↦ rw (ran, present, other, bind_one) h
      ]
    ]
  ]

  bind_all-Tracks :
      (oids : List String) (b : Binding)
      → Tracks b
      → Tracks (bind_all dumps root revised results oids b)
  unfolding bind_all
  bind_all-Tracks [] b h = h
  bind_all-Tracks (oid ∷ oids) b h = bind_all-Tracks oids _ (bind_one-Tracks oid b h)

  bind_last-IsBound :
      (rids oids : List String) (m : Dict String)
      → ((x : String) → In x rids → In x ids)
      → IsBound ids old m
      → IsBound ids old (bind_last dumps root revised results rids oids m)
  unfolding bind_last
  bind_last-IsBound [] oids m among h = h
  bind_last-IsBound (rid ∷ []) [] m among h = h
  bind_last-IsBound (rid ∷ []) (oid ∷ []) m among h =
      insert-IsBound ids old m oid rid (among rid here) h
  bind_last-IsBound (rid ∷ []) (oid ∷ k ∷ oids) m among h = h
  bind_last-IsBound (rid ∷ k ∷ rids) oids m among h = h

  pub new_aliases-IsBound :
      (unresolved : List String)
      → IsBound ids old (new_aliases dumps root revised results unresolved ids old)
  unfolding new_aliases
  new_aliases-IsBound unresolved =
      let start : Binding = record { aliases = old; replacements = ids; originals = [] } in
      let h = bind_all-Tracks unresolved start (λ oid. inl refl, λ x i. i) in
      bind_last-IsBound _ _ _ h.1 h.0
