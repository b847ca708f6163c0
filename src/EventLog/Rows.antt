-- ===== src/EventLog/Rows.antt =====
-- The rows of one run are numbered 1, 2, 3 and so on, and no two rows have one idempotency key.
use jagent.Base.{
  ℕ, suc, ◌+◌, ◌≤◌, String, Bool, true, false, ◌&&◌, ◌||◌, List, [], ◌∷◌, ◌++◌, ◌==◌, eq_iff, any,
  filter, length, length-append, leb, nat_eq, ◌≡◌, refl, ◌∙◌, arith, Bool-cases, inl, inr, In, here,
  there, any→In, In-filter-intro, if◌then◌else◌, Option-cases,
}
use jagent.Events.{Event}
use jagent.EventLog.{
  type_of, of_run, max_seq, next_seq, key_is, matches, place, order_by_seq, Request, duplicates,
  is_taken, event_of,
}

-- The rows are numbered from k + 1.
pub Numbered : ℕ → List Event → Type 0
Numbered k [] = Unit
Numbered k (e ∷ es) = (e.seq ≡ suc k) × Numbered (suc k) es

Numbered-max_seq :
    (k : ℕ) (es : List Event)
    → Numbered k es
    → max_seq es ≡ (if leb (length es) 0 then 0 else k + length es)
unfolding Numbered max_seq
Numbered-max_seq k [] h = refl
Numbered-max_seq k (e ∷ []) (q, h) = ground (arith, q)
Numbered-max_seq k (e ∷ d ∷ es) (q, h) = ground (arith, q, Numbered-max_seq (suc k) (d ∷ es) h)

pub Numbered-length : (es : List Event) → Numbered 0 es → max_seq es ≡ length es
Numbered-length es h = Numbered-max_seq 0 es h ∙ ground arith

pub Numbered-snoc :
    (k : ℕ) (es : List Event) (e : Event)
    → Numbered k es
    → e.seq ≡ suc (k + length es)
    → Numbered k (es ++ e ∷ [])
unfolding Numbered
Numbered-snoc k [] e h q = (q ∙ omega arith, tt)
Numbered-snoc k (d ∷ es) e (p, h) q = (p, Numbered-snoc (suc k) es e h (q ∙ omega arith))

Numbered-nil : (k : ℕ) (es : List Event) → Numbered k es → Numbered k (es ++ [])
unfolding Numbered
Numbered-nil k [] h = h
Numbered-nil k (e ∷ es) (p, h) = (p, Numbered-nil (suc k) es h)

In-Numbered :
    (k : ℕ) (es : List Event) (e : Event)
    → Numbered k es
    → In e es
    → (suc k ≤ e.seq) × (e.seq ≤ k + length es)
unfolding Numbered
In-Numbered k [] e h i = elim i [ ]
In-Numbered k (d ∷ es) e (p, h) here = (omega (arith, p), omega (arith, p))
In-Numbered k (d ∷ es) e (p, h) (there i) =
    let (low, high) = In-Numbered (suc k) es e h i in (omega (arith, low), omega (arith, high))

pub order_by_seq-Numbered : (k : ℕ) (es : List Event) → Numbered k es → order_by_seq es ≡ es
unfolding Numbered order_by_seq place
order_by_seq-Numbered k [] h = refl
order_by_seq-Numbered k (e ∷ []) (p, h) = refl
order_by_seq-Numbered k (e ∷ d ∷ es) (p, (q, h)) =
    rw (order_by_seq-Numbered (suc k) (d ∷ es) (q, h)) (ground (arith, p, q))

module _ (p : Event → Bool) where
  pub filter-append : (xs ys : List Event) → filter p (xs ++ ys) ≡ filter p xs ++ filter p ys
  filter-append [] ys = refl
  filter-append (x ∷ xs) ys = ground (arith, filter-append xs ys)

  any-append : (xs ys : List Event) → any p (xs ++ ys) ≡ (any p xs || any p ys)
  any-append [] ys = refl
  any-append (x ∷ xs) ys = ground (arith, any-append xs ys)

  filter-any : (xs : List Event) → any p xs ≡ false → filter p xs ≡ []
  filter-any [] h = refl
  filter-any (x ∷ xs) h = ground (arith, filter-any xs)

-- What every table that append_event writes satisfies.
pub record WellFormed (rows : List Event) : Type 0 where
  pub numbered : (run_id : String) → Numbered 0 (of_run run_id rows)
  pub once :
      (run_id event_type key : String) → length (filter (matches run_id event_type key) rows) ≤ 1

pub next_seq-WellFormed :
    (run_id : String) (rows : List Event)
    → WellFormed rows
    → next_seq run_id rows ≡ suc (length (of_run run_id rows))
unfolding next_seq
next_seq-WellFormed run_id rows w =
    omega (arith, Numbered-length (of_run run_id rows) (w.numbered run_id))

-- The number that the statement computes is free.
pub next_seq-is_taken :
    (run_id : String) (rows : List Event)
    → WellFormed rows
    → is_taken run_id (next_seq run_id rows) rows ≡ false
unfolding is_taken of_run
next_seq-is_taken run_id rows w = elim (Bool-cases (is_taken run_id (next_seq run_id rows) rows)) [
  | inr free ↦ free
  | inl taken ↦
      let (e, i, h) =
        any→In (λ e. e.run_id == run_id && nat_eq e.seq (next_seq run_id rows)) rows taken in
      let j = In-filter-intro (λ e. e.run_id == run_id) e rows i (ground arith) in
      let (low, high) = In-Numbered 0 (of_run run_id rows) e (w.numbered run_id) j in
      ground (arith, next_seq-WellFormed run_id rows w, high)
]

-- A new row with the key of no old one.
fresh_key :
    (r : Request) (rows : List Event) (seq : ℕ) (run_id event_type key : String)
    → duplicates r rows ≡ false
    → matches run_id event_type key (event_of r seq) ≡ true
    → any (matches run_id event_type key) rows ≡ false
unfolding duplicates matches event_of key_is
fresh_key r rows seq run_id event_type key fresh h = elim (Option-cases r.idempotency_key) [
  | inl keyless ↦ ground arith
  | inr (k, keyed) ↦
      rw
        (
          ← (eq_iff k key).0 (ground arith),
          ← (eq_iff r.run_id run_id).0 (ground arith),
          ← (eq_iff (type_of r.payload) event_type).0 (ground arith),
        )
        (rw (keyed, duplicates) at fresh)
]

pub insert-WellFormed :
    (r : Request) (rows : List Event)
    → WellFormed rows
    → duplicates r rows ≡ false
    → WellFormed (rows ++ event_of r (next_seq r.run_id rows) ∷ [])
unfolding of_run event_of
insert-WellFormed r rows w fresh = record {
  numbered = λ run_id.
      rw (filter-append (λ e. e.run_id == run_id) rows (new ∷ []))
        (elim (Bool-cases (r.run_id == run_id)) [
          | inl own ↦ rw own (
              Numbered-snoc 0 (of_run run_id rows) new (w.numbered run_id) (
                rw ((eq_iff r.run_id run_id).0 own)
                  (omega (arith, next_seq-WellFormed run_id rows w))))
          | inr other ↦ rw other (Numbered-nil 0 (of_run run_id rows) (w.numbered run_id))
        ]);
  once = λ run_id event_type key.
      rw (filter-append (matches run_id event_type key) rows (new ∷ []))
        (elim (Bool-cases (matches run_id event_type key new)) [
          | inl own ↦
              rw
                (
                  own,
                  filter-any (matches run_id event_type key) rows
                      (fresh_key r rows (next_seq r.run_id rows) run_id event_type key fresh own),
                )
                (omega arith)
          | inr other ↦ rw other (
              omega (
                arith,
                w.once run_id event_type key,
                length-append (filter (matches run_id event_type key) rows) [],
              ))
        ]);
}
  where
    new : Event
    new = event_of r (next_seq r.run_id rows)

-- The empty table.
pub empty-WellFormed : WellFormed []
unfolding Numbered of_run
empty-WellFormed = record { numbered = λ run_id. tt; once = λ run_id event_type key. omega arith }
