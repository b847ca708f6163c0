-- ===== src/EventLog/Later.antt =====
-- What an append does to the keys and the events that are there.
use jagent.Base.{
  ◌≢◌, String, false, none, some, List, [], ◌∷◌, ◌++◌, eq_iff, ok, ◌≡◌, refl, sym, ◌∙◌, ap, arith,
  Option-cases, inl, inr,
}
use jagent.Events.{Event}
use jagent.EventLog.{
  type_of, key_is, matches, get_events, Request, Store, event_of, with_workspace, remember,
  lookup_key, after_lookup, append_event,
}
use jagent.EventLog.Rows.{WellFormed}
use jagent.EventLog.Appends.{
  with_workspace_lem, lookup_key-with_workspace, find-snoc, new_row, stored, write-fresh,
  lookup_key-duplicates, append_event-get_events,
}

pub append_event-fresh :
    (r : Request) (s : Store)
    → WellFormed s.rows
    → lookup_key r s.rows ≡ none
    → append_event r s
      ≡ (ok (new_row r s), stored (s.rows ++ new_row r s ∷ []) (remember r s.run_to_workspace))
unfolding append_event after_lookup
append_event-fresh r s w unknown =
    ap (λ f. after_lookup f r s) unknown
    ∙ write-fresh r s w (
        lookup_key-duplicates (with_workspace r s.run_to_workspace) s.rows
          (lookup_key-with_workspace r s.run_to_workspace s.rows ∙ unknown))

pub append_event-hit :
    (r : Request) (s : Store) (old : Event)
    → lookup_key r s.rows ≡ some old
    → append_event r s ≡ (ok old, s)
unfolding append_event after_lookup
append_event-hit r s old found = ap (λ f. after_lookup f r s) found

-- An append with another key leaves a key unknown.
pub append_event-lookup_key :
    (r f : Request) (s : Store) (k j : String)
    → WellFormed s.rows
    → r.idempotency_key ≡ some k
    → f.idempotency_key ≡ some j
    → k ≢ j
    → lookup_key f s.rows ≡ none
    → lookup_key f (append_event r s).1.rows ≡ none
unfolding matches event_of key_is lookup_key
append_event-lookup_key r f s k j w r_key f_key differ unknown =
    elim (Option-cases (lookup_key r s.rows)) [
      | inr (old, found) ↦
          ap (λ x. lookup_key f x.1.rows) (append_event-hit r s old found) ∙ unknown
      | inl fresh ↦ ap (λ x. lookup_key f x.1.rows) (append_event-fresh r s w fresh) ∙ still_unknown
    ]
  where
    still_unknown : lookup_key f (s.rows ++ new_row r s ∷ []) ≡ none
    still_unknown =
        let (none_old, found) =
          find-snoc f.run_id (type_of f.payload) j s.rows (new_row r s)
            (rw (f_key, lookup_key) at unknown) in
        let key : (new_row r s).idempotency_key ≡ some k =
          (with_workspace_lem r s.run_to_workspace).2 ∙ r_key in
        let other : matches f.run_id (type_of f.payload) j (new_row r s) ≡ false =
          ground (arith, key, eq_iff k j, differ) in
        ground (arith, f_key, found, other)

-- An append keeps the events of its run, and may add events after them.
pub append_event-extends :
    (r : Request) (s : Store)
    → WellFormed s.rows
    → (es : List Event) × (get_events r.run_id (append_event r s).1.rows
        ≡ get_events r.run_id s.rows ++ es)
append_event-extends r s w = elim (Option-cases (lookup_key r s.rows)) [
  | inr (old, found) ↦ (
    [],
    ap (λ x. get_events r.run_id x.1.rows) (append_event-hit r s old found) ∙ sym (append-nil _),
  )
  | inl fresh ↦
      let (e, _, _, _, _, grows) = append_event-get_events r s r.run_id w fresh in (_, grows)
]
  where
    append-nil : (xs : List Event) → xs ++ [] ≡ xs
    append-nil [] = refl
    append-nil (x ∷ xs) = ap (λ ys. x ∷ ys) (append-nil xs)
