-- ===== src/EventLog/Keyed.antt =====
-- What an append does to the lookup of idempotency keys, and to a property of all rows.
use jagent.Base.{
  String, Bool, true, false, Option, none, some, List, [], ◌∷◌, ◌++◌, all, ◌≡◌, refl, ap, ◌∙◌,
  arith, eq_iff, Option-cases, inl, inr,
}
use jagent.Events.{Event, Payload}
use jagent.EventLog.{
  type_of, key_is, matches, find_by_idempotency_key, Request, Store, event_of, lookup_key,
  append_event,
}
use jagent.EventLog.Rows.{WellFormed}
use jagent.EventLog.Appends.{new_row, with_workspace_lem, find-snoc}
use jagent.EventLog.Later.{append_event-fresh, append_event-hit}

-- The row that an append adds has the run, the payload and the key of the request.
new_row_lem :
    (r : Request) (s : Store)
    → ((new_row r s).run_id ≡ r.run_id)
      × ((new_row r s).payload ≡ r.payload)
      × ((new_row r s).idempotency_key ≡ r.idempotency_key)
unfolding event_of
new_row_lem r s = with_workspace_lem r s.run_to_workspace

find-snoc_other :
    (run_id event_type key : String) (rows : List Event) (e : Event)
    → matches run_id event_type key e ≡ false
    → find_by_idempotency_key run_id event_type key (rows ++ e ∷ [])
      ≡ find_by_idempotency_key run_id event_type key rows
unfolding find_by_idempotency_key
find-snoc_other run_id event_type key [] e h = ground arith
find-snoc_other run_id event_type key (d ∷ rows) e h =
    ground (arith, find-snoc_other run_id event_type key rows e)

keyless_lem :
    (r : Request) (rows : List Event) → r.idempotency_key ≡ none → lookup_key r rows ≡ none
unfolding lookup_key
keyless_lem r rows h = rw (h, lookup_key) refl

-- An append without a key changes no lookup.
pub append_event-keyless :
    (r : Request) (s : Store) (run_id event_type key : String)
    → WellFormed s.rows
    → r.idempotency_key ≡ none
    → find_by_idempotency_key run_id event_type key (append_event r s).1.rows
      ≡ find_by_idempotency_key run_id event_type key s.rows
unfolding matches key_is
append_event-keyless r s run_id event_type key w h =
    let (run, payload, none_key) = new_row_lem r s in
    let other : matches run_id event_type key (new_row r s) ≡ false =
      ground (arith, none_key ∙ h) in
    ap (λ x. find_by_idempotency_key run_id event_type key x.1.rows)
      (append_event-fresh r s w (keyless_lem r s.rows h))
    ∙ find-snoc_other run_id event_type key s.rows (new_row r s) other

-- A request with a key that is new is found under it.
pub append_event-keyed :
    (r : Request) (s : Store) (k : String)
    → WellFormed s.rows
    → r.idempotency_key ≡ some k
    → find_by_idempotency_key r.run_id (type_of r.payload) k s.rows ≡ none
    → (e : Event) × (e.payload ≡ r.payload)
      × (find_by_idempotency_key r.run_id (type_of r.payload) k (append_event r s).1.rows ≡ some e)
unfolding matches key_is lookup_key find_by_idempotency_key
append_event-keyed r s k w h unknown =
    let (run, payload, key) = new_row_lem r s in
    let looked : lookup_key r s.rows ≡ none = rw (h, lookup_key) unknown in
    let (none_old, found) = find-snoc r.run_id (type_of r.payload) k s.rows (new_row r s) unknown in
    let own : matches r.run_id (type_of r.payload) k (new_row r s) ≡ true = ground (
      arith,
      run,
      ap type_of payload,
      key ∙ h,
      eq_iff r.run_id r.run_id,
      eq_iff (type_of r.payload) (type_of r.payload),
      eq_iff k k,
    ) in
    (
      new_row r s,
      payload,
      ap (λ x. find_by_idempotency_key r.run_id (type_of r.payload) k x.1.rows)
            (append_event-fresh r s w looked)
          ∙ found
          ∙ rw own refl,
    )

-- A property of the payload and the key of each row is kept if the request has it.
pub append_event-all :
    (p : Payload → Option String → Bool) (r : Request) (s : Store)
    → WellFormed s.rows
    → p r.payload r.idempotency_key ≡ true
    → all (λ e. p e.payload e.idempotency_key) s.rows ≡ true
    → all (λ e. p e.payload e.idempotency_key) (append_event r s).1.rows ≡ true
append_event-all p r s w own h = elim (Option-cases (lookup_key r s.rows)) [
  | inr (old, found) ↦
      ap (λ x. all (λ e. p e.payload e.idempotency_key) x.1.rows) (append_event-hit r s old found)
      ∙ h
  | inl fresh ↦
      ap (λ x. all (λ e. p e.payload e.idempotency_key) x.1.rows) (append_event-fresh r s w fresh)
      ∙ all-snoc s.rows (new_row r s) h last
]
  where
    all-snoc :
        (rows : List Event) (e : Event)
        → all (λ d. p d.payload d.idempotency_key) rows ≡ true
        → p e.payload e.idempotency_key ≡ true
        → all (λ d. p d.payload d.idempotency_key) (rows ++ e ∷ []) ≡ true
    all-snoc [] e h q = ground arith
    all-snoc (d ∷ rows) e h q = ground (arith, all-snoc rows e)

    last : p (new_row r s).payload (new_row r s).idempotency_key ≡ true
    last =
        let (run, payload, key) = new_row_lem r s in
        ap (λ x. p x (new_row r s).idempotency_key) payload ∙ ap (λ x. p r.payload x) key ∙ own
