-- ===== src/Fold/Replay.antt =====
-- When `fold_events` returns a state, and what an event at the end of a stream adds.
use jagent.Base.{
  String, List, [], ◌∷◌, ◌++◌, ◌==◌, eq_iff, ok, ◌>>=◌, ◌≡◌, refl, In, here, there, ◌↔◌, Bool-cases,
  inl, inr, err≢ok,
}
use jagent.Values.{Value}
use jagent.Events.{Event}
use jagent.RunState.{RunState, new_state}
use jagent.Fold.{apply, fold_from, fold_events}

module _ (repr : Value → String) where
  pub fold_from-append :
      (run_id : String) (xs ys : List Event) (s : RunState)
      → fold_from repr run_id (xs ++ ys) s
        ≡ (fold_from repr run_id xs s >>= λ t. fold_from repr run_id ys t)
  unfolding fold_from
  fold_from-append run_id [] ys s = refl
  fold_from-append run_id (e ∷ xs) ys s = elim (Bool-cases (e.run_id == run_id)) [
    | inl same ↦ rw same (fold_from-append run_id xs ys (apply repr e s))
    | inr other ↦ rw other
  ]

  -- The fold of a stream is the fold of a prefix, gone on with over the rest.
  pub fold_events-append :
      (e : Event) (xs ys : List Event)
      → fold_events repr ((e ∷ xs) ++ ys)
        ≡ (fold_events repr (e ∷ xs) >>= λ s. fold_from repr e.run_id ys s)
  unfolding fold_events
  fold_events-append e xs ys = fold_from-append e.run_id (e ∷ xs) ys (new_state e.run_id)

  fold_from-ok_iff :
      (run_id : String) (es : List Event) (s : RunState)
      → ((t : RunState) × (fold_from repr run_id es s ≡ ok t))
        ↔ ((e : Event) → In e es → e.run_id ≡ run_id)
  unfolding fold_from
  fold_from-ok_iff run_id [] s = (λ h e i. elim i [ ], λ h. (s, refl))
  fold_from-ok_iff run_id (d ∷ es) s =
      let rest = fold_from-ok_iff run_id es (apply repr d s) in
      elim (Bool-cases (d.run_id == run_id)) [
        | inl same ↦ rw same (
          λ h e i. all_same e d es ((eq_iff d.run_id run_id).0 same) (rest.0 h) i,
          λ h. rest.1 (λ e i. h e (there i)),
        )
        | inr other ↦
            rw other
              (λ h. absurd (err≢ok h.1), λ h. cc (other, (eq_iff d.run_id run_id).1 (h d here)))
      ]
    where
      all_same :
          (e d : Event) (es : List Event)
          → d.run_id ≡ run_id
          → ((e : Event) → In e es → e.run_id ≡ run_id)
          → In e (d ∷ es)
          → e.run_id ≡ run_id
      all_same e d es h k here = h
      all_same e d es h k (there i) = k e i

  pub fold_events-cons_ok_iff :
      (e : Event) (es : List Event)
      → ((t : RunState) × (fold_events repr (e ∷ es) ≡ ok t))
        ↔ ((d : Event) → In d (e ∷ es) → d.run_id ≡ e.run_id)
  unfolding fold_events
  fold_events-cons_ok_iff e es = fold_from-ok_iff e.run_id (e ∷ es) (new_state e.run_id)

-- The stream has a first event, and all its events are of the run of that one.
abbrev pub IsOneRun : List Event → Type 0
IsOneRun [] = ⊥
IsOneRun (e ∷ es) = (d : Event) → In d (e ∷ es) → d.run_id ≡ e.run_id
