-- ===== src/EventLog/Commits.antt =====
-- What an append does to a well-formed table: it returns, whatever other appends have come between its
-- lookup and its write.
use jagent.Base.{
  ℕ, suc, String, true, Option, none, some, List, [], ◌∷◌, ◌++◌, any, if◌then◌else◌, ok, ◌≡◌, refl,
  arith, Bool-cases, Option-cases, inl, inr,
}
use jagent.Events.{Event}
use jagent.EventLog.{
  type_of, next_seq, matches, find_by_idempotency_key, Request, Store, duplicates, event_of,
  existing, commit, with_workspace, write, lookup_key, after_lookup, append_event,
}
use jagent.EventLog.Rows.{WellFormed, next_seq-is_taken, insert-WellFormed}

-- On a well-formed table the first attempt decides.
pub commit-WellFormed :
    (n : ℕ) (r : Request) (rows : List Event)
    → WellFormed rows
    → commit (suc n) r rows ≡ (
        if duplicates r rows then (existing r rows, rows) else (
          ok (event_of r (next_seq r.run_id rows)),
          rows ++ event_of r (next_seq r.run_id rows) ∷ [],
        ))
unfolding commit
commit-WellFormed n r rows w = ground (arith, next_seq-is_taken r.run_id rows w)

any-find :
    (run_id event_type key : String) (rows : List Event)
    → any (matches run_id event_type key) rows ≡ true
    → (e : Event) × (find_by_idempotency_key run_id event_type key rows ≡ some e)
unfolding find_by_idempotency_key
any-find run_id event_type key [] h = cc
any-find run_id event_type key (e ∷ es) h = elim (Bool-cases (matches run_id event_type key e)) [
  | inl own ↦ (e, ground arith)
  | inr other ↦
      let (d, found) = any-find run_id event_type key es (ground arith) in (d, ground arith)
]

existing-ok :
    (r : Request) (rows : List Event)
    → duplicates r rows ≡ true
    → (e : Event) × (existing r rows ≡ ok e)
unfolding duplicates existing
existing-ok r rows h = elim (Option-cases r.idempotency_key) [
  | inl keyless ↦ ground arith
  | inr (k, keyed) ↦
      let (e, found) = any-find r.run_id (type_of r.payload) k rows (rw (keyed, duplicates) at h) in
      (e, rw (keyed, existing) (rw found refl))
]

-- The part of an append under the write lock, on any well-formed table: it returns an event, without
-- a conflict on the sequence number and without an error for a duplicate key, and the table stays
-- well-formed. The table need not be the one on which the key was looked up before.
pub commit-returns :
    (n : ℕ) (r : Request) (rows : List Event)
    → WellFormed rows
    → ((e : Event) × ((commit (suc n) r rows).0 ≡ ok e)) × WellFormed (commit (suc n) r rows).1
commit-returns n r rows w =
    rw (commit-WellFormed n r rows w) (elim (Bool-cases (duplicates r rows)) [
      | inl twice ↦ rw twice (existing-ok r rows twice, w)
      | inr fresh ↦
          rw fresh ((event_of r (next_seq r.run_id rows), refl), insert-WellFormed r rows w fresh)
    ])

write-returns :
    (r : Request) (s : Store)
    → WellFormed s.rows
    → ((e : Event) × ((write r s).0 ≡ ok e)) × WellFormed (write r s).1.rows
unfolding write
write-returns r s w = commit-returns 3 (with_workspace r s.run_to_workspace) s.rows w

-- An append to a well-formed store returns an event, and the store stays well-formed: the rows of
-- each run are numbered from 1 without a gap, and no key occurs twice for a run and a type.
pub append_event-returns :
    (r : Request) (s : Store)
    → WellFormed s.rows
    → ((e : Event) × ((append_event r s).0 ≡ ok e)) × WellFormed (append_event r s).1.rows
unfolding append_event after_lookup
append_event-returns r s w = go (lookup_key r s.rows)
  where
    go :
        (found : Option Event)
        → ((e : Event) × ((after_lookup found r s).0 ≡ ok e))
          × WellFormed (after_lookup found r s).1.rows
    go none = write-returns r s w
    go (some old) = ((old, refl), w)
