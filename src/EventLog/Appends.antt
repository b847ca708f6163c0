-- ===== src/EventLog/Appends.antt =====
-- The order of the events of a run, and repeated appends.
use jagent.Base.{
  Dict, ok-injective, ℕ, suc, String, true, false, Option, none, some, List, [], ◌∷◌, ◌++◌, ◌==◌,
  eq_iff, any, length, if◌then◌else◌, ok, ◌≡◌, refl, sym, ◌∙◌, ap, arith, Bool-cases, Option-cases,
  inl, inr,
}
use jagent.Events.{Event}
use jagent.EventLog.{
  type_of, key_is, of_run, next_seq, matches, find_by_idempotency_key, get_events, Request, Store,
  duplicates, event_of, with_workspace, remember, write, lookup_key, after_lookup, append_event,
}
use jagent.EventLog.Rows.{
  WellFormed, next_seq-WellFormed, insert-WellFormed, order_by_seq-Numbered, filter-append,
}
use jagent.EventLog.Commits.{commit-WellFormed}

-- A request with the workspace filled in has the run, the payload and the key that it had.
pub with_workspace_lem :
    (r : Request) (cache : Dict String)
    → ((with_workspace r cache).run_id ≡ r.run_id)
      × ((with_workspace r cache).payload ≡ r.payload)
      × ((with_workspace r cache).idempotency_key ≡ r.idempotency_key)
unfolding with_workspace
with_workspace_lem r cache = elim (Option-cases r.workspace_id) [
  | inl unset ↦ rw (unset, with_workspace) (refl, refl, refl)
  | inr (w, given) ↦ rw (given, with_workspace) (refl, refl, refl)
]

pub lookup_key-with_workspace :
    (r : Request) (cache : Dict String) (rows : List Event)
    → lookup_key (with_workspace r cache) rows ≡ lookup_key r rows
unfolding lookup_key
lookup_key-with_workspace r cache rows =
    let (run, payload, key) = with_workspace_lem r cache in
    ap3
      (λ run payload key. elim key as (λ k. Option Event) [
        | none ↦ none
        | some k ↦ find_by_idempotency_key run (type_of payload) k rows
      ])
      run payload key
  where
    ap3 :
        {A B C D : Type 0} (f : A → B → C → D) {a a' : A} {b b' : B} {c c' : C}
        → a ≡ a'
        → b ≡ b'
        → c ≡ c'
        → f a b c ≡ f a' b' c'
    ap3 f p q r = cc

pub find-snoc :
    (run_id event_type key : String) (rows : List Event) (e : Event)
    → find_by_idempotency_key run_id event_type key rows ≡ none
    → (any (matches run_id event_type key) rows ≡ false)
      × (find_by_idempotency_key run_id event_type key (rows ++ e ∷ [])
          ≡ (if matches run_id event_type key e then some e else none))
unfolding find_by_idempotency_key
find-snoc run_id event_type key [] e h = (refl, refl)
find-snoc run_id event_type key (d ∷ rows) e h =
    elim (Bool-cases (matches run_id event_type key d)) [
      | inl own ↦ ground arith
      | inr other ↦
          let (none_old, found) = find-snoc run_id event_type key rows e (ground arith) in
          (ground arith, ground arith)
    ]

-- With a key that no row has, the row of a request is new, and is then found.
lookup_key-snoc :
    (r : Request) (rows : List Event) (k : String) (seq : ℕ)
    → r.idempotency_key ≡ some k
    → lookup_key r rows ≡ none
    → (duplicates r rows ≡ false)
      × (lookup_key r (rows ++ event_of r seq ∷ []) ≡ some (event_of r seq))
unfolding lookup_key duplicates matches event_of key_is
lookup_key-snoc r rows k seq keyed h =
    let new = event_of r seq in
    let (none_old, found) =
      find-snoc r.run_id (type_of r.payload) k rows new (rw (keyed, lookup_key) at h) in
    let own : matches r.run_id (type_of r.payload) k new ≡ true = ground (
      arith,
      keyed,
      eq_iff r.run_id r.run_id,
      eq_iff (type_of r.payload) (type_of r.payload),
      eq_iff k k,
    ) in
    (ground (arith, keyed, none_old), ground (arith, keyed, found, own))

-- The row that a write adds.
abbrev pub new_row : Request → Store → Event
new_row r s =
    event_of (with_workspace r s.run_to_workspace)
      (next_seq (with_workspace r s.run_to_workspace).run_id s.rows)

abbrev pub stored : List Event → Dict String → Store
stored rows cache = record { rows = rows; run_to_workspace = cache }

pub write-fresh :
    (r : Request) (s : Store)
    → WellFormed s.rows
    → duplicates (with_workspace r s.run_to_workspace) s.rows ≡ false
    → write r s ≡ (
      ok (new_row r s),
      record {
        rows = s.rows ++ new_row r s ∷ [];
        run_to_workspace = remember r s.run_to_workspace;
      },
    )
unfolding write
write-fresh r s w fresh =
    let full = with_workspace r s.run_to_workspace in
    ap (λ x. (x.0, stored x.1 (remember r s.run_to_workspace)))
      (commit-WellFormed 3 full s.rows w ∙ rw fresh refl)

-- If an append with an idempotency key to a well-formed store returned an event, then the same append
-- again returns the same event and leaves the store as it is.
pub append_event-again :
    (r : Request) (s : Store) (k : String) (e : Event)
    → WellFormed s.rows
    → r.idempotency_key ≡ some k
    → (append_event r s).0 ≡ ok e
    → append_event r (append_event r s).1 ≡ (ok e, (append_event r s).1)
unfolding append_event after_lookup
append_event-again r s k e w keyed h = go (lookup_key r s.rows) refl
  where
    cache : Dict String
    cache = s.run_to_workspace

    go :
        (found : Option Event)
        → lookup_key r s.rows ≡ found
        → append_event r (append_event r s).1 ≡ (ok e, (append_event r s).1)
    go (some old) found =
        let same : old ≡ e = ok-injective (rw (found, append_event) at h) in
        rw (found, found) (rw same refl)
    go none found =
        let (first, later) =
          lookup_key-snoc (with_workspace r cache) s.rows k
            (next_seq (with_workspace r cache).run_id s.rows)
            ((with_workspace_lem r cache).2 ∙ keyed)
            (lookup_key-with_workspace r cache s.rows ∙ found) in
        let after = stored (s.rows ++ new_row r s ∷ []) (remember r cache) in
        let once : append_event r s ≡ (ok (new_row r s), after) =
          ap (λ f. after_lookup f r s) found ∙ write-fresh r s w first in
        let again : append_event r after ≡ (ok (new_row r s), after) =
          ap (λ f. after_lookup f r after)
            (sym (lookup_key-with_workspace r cache (s.rows ++ new_row r s ∷ [])) ∙ later) in
        let same : new_row r s ≡ e = ok-injective (sym (ap (λ x. x.0) once) ∙ h) in
        ap (λ x. append_event r x.1) once
        ∙ again
        ∙ ap (λ d. (ok d, after)) same
        ∙ ap (λ x. (ok e, x.1)) (sym once)

pub get_events-WellFormed :
    (run_id : String) (rows : List Event)
    → WellFormed rows
    → get_events run_id rows ≡ of_run run_id rows
unfolding get_events
get_events-WellFormed run_id rows w =
    order_by_seq-Numbered 0 (of_run run_id rows) (w.numbered run_id)

-- A key that the lookup does not find is not in the index.
pub lookup_key-duplicates :
    (r : Request) (rows : List Event) → lookup_key r rows ≡ none → duplicates r rows ≡ false
unfolding duplicates
lookup_key-duplicates r rows h = elim (Option-cases r.idempotency_key) [
  | inl keyless ↦ rw (keyless, duplicates) refl
  | inr (k, keyed) ↦ (lookup_key-snoc r rows k 0 keyed h).0
]

of_run-snoc :
    (run_id : String) (rows : List Event) (e : Event)
    → of_run run_id (rows ++ e ∷ [])
      ≡ of_run run_id rows ++ (if e.run_id == run_id then e ∷ [] else [])
unfolding of_run
of_run-snoc run_id rows e = filter-append (λ e. e.run_id == run_id) rows (e ∷ [])

-- Without an idempotency key, or with one that no event of the run and the type has, an append to a
-- well-formed store returns a new event, numbered after the events of its run, which comes last among
-- the events of the run. The other runs keep their events.
pub append_event-get_events :
    (r : Request) (s : Store) (run_id : String)
    → WellFormed s.rows
    → lookup_key r s.rows ≡ none
    → (e : Event) × ((append_event r s).0 ≡ ok e)
      × (e.run_id ≡ r.run_id)
      × (e.payload ≡ r.payload)
      × (e.seq ≡ suc (length (get_events r.run_id s.rows)))
      × (get_events run_id (append_event r s).1.rows
          ≡ get_events run_id s.rows ++ (if r.run_id == run_id then e ∷ [] else []))
unfolding append_event after_lookup event_of
append_event-get_events r s run_id w unknown =
    let full = with_workspace r s.run_to_workspace in
    let (run, payload, key) = with_workspace_lem r s.run_to_workspace in
    let fresh =
      lookup_key-duplicates full s.rows
        (lookup_key-with_workspace r s.run_to_workspace s.rows ∙ unknown) in
    let rows = s.rows ++ new_row r s ∷ [] in
    let once : append_event r s ≡ (ok (new_row r s), stored rows (remember r s.run_to_workspace)) =
      ap (λ f. after_lookup f r s) unknown ∙ write-fresh r s w fresh in
    (
      new_row r s,
      ap (λ x. x.0) once,
      run,
      payload,
      next_seq-WellFormed full.run_id s.rows w
          ∙ ap (λ q. suc (length (of_run q s.rows))) run
          ∙ ap (λ es. suc (length es)) (sym (get_events-WellFormed r.run_id s.rows w)),
      ap (λ x. get_events run_id x.1.rows) once
          ∙ get_events-WellFormed run_id rows (insert-WellFormed full s.rows w fresh)
          ∙ of_run-snoc run_id s.rows (new_row r s)
          ∙ ap (λ q. of_run run_id s.rows ++ (if q == run_id then new_row r s ∷ [] else [])) run
          ∙ ap (λ es. es ++ (if r.run_id == run_id then new_row r s ∷ [] else []))
              (sym (get_events-WellFormed run_id s.rows w)),
    )
