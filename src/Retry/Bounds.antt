-- ===== src/Retry/Bounds.antt =====
-- The retry loop against the calls it makes: it ends at the first call that needs no other.
use jagent.Base.{
  ℕ, zero, suc, ◌+◌, ◌-◌, ◌≤◌, ◌<◌, String, Bool, true, false, not, ◌||◌, Option, none, some, leb,
  nat_eq, ◌∙◌, Result, ok, err, ◌≡◌, refl, arith, ◌⊎◌, Bool-cases, Result-cases, inl, inr,
}
use jagent.Tools.{RetryPolicy}
use jagent.Retry.{
  Raised, Outcome, returned, raised, Retried, should_retry, reason_to_retry, attempts,
  execute_with_retry,
}

wants_more : Result Raised (Option String) → Bool
wants_more (err e) = false
wants_more (ok none) = false
wants_more (ok (some reason)) = true

wants_more-cases :
    (r : Result Raised (Option String))
    → ((e : Raised) × (r ≡ err e)) ⊎ ((r ≡ ok none) ⊎ ((reason : String) × (r ≡ ok (some reason))))
wants_more-cases (err e) = inl (e, refl)
wants_more-cases (ok none) = inr (inl refl)
wants_more-cases (ok (some reason)) = inr (inr (reason, refl))

module _ {ℓ} {A : Type ℓ} (fn : ℕ → Result Raised A) (policy : RetryPolicy)
    (check : Option (A → Result Raised (Option String))) where
  -- No call is made after this one: it raised what the policy does not retry, or it returned what
  -- the check gives no reason to try again for, or it was the last of the budget.
  unfoldable pub is_final : ℕ → Bool
  unfolding wants_more
  is_final n = elim (fn n) [
    | err e ↦ not (should_retry n e.text policy)
    | ok v ↦ not (wants_more (reason_to_retry fn policy check v)) || not (leb n policy.max_retries)
  ]

  -- What the call returned, with the calls before it as the retries, or what it or the check of its
  -- result raised.
  unfoldable pub outcome_at : ℕ → Outcome A
  outcome_at n = elim (fn n) [
    | err e ↦ raised e
    | ok v ↦ elim (reason_to_retry fn policy check v) [
      | err e ↦ raised e
      | ok reason ↦ returned v (n - 1)
    ]
  ]

  -- The result of a loop that ends at the given call.
  ended_at : ℕ → Retried A
  unfolding outcome_at
  ended_at n = record { outcome = some (outcome_at n); calls = n }

  attempts-stop :
      (left k : ℕ) (last : Option Raised)
      → is_final (suc k) ≡ true
      → attempts fn policy check (suc left) (suc k) k last ≡ ended_at (suc k)
  unfolding attempts is_final ended_at outcome_at wants_more
  attempts-stop left k last h = elim (Result-cases (fn (suc k))) [
    | inr (e, r) ↦ ground arith
    | inl (v, r) ↦ elim (wants_more-cases (reason_to_retry fn policy check v)) [
      | inl (e, n) ↦ ground arith
      | inr (inl n) ↦ ground arith
      | inr (inr (reason, n)) ↦ ground arith
    ]
  ]

  attempts-go :
      (left k : ℕ) (last : Option Raised)
      → is_final (suc k) ≡ false
      → (last' : Option Raised) × (attempts fn policy check (suc left) (suc k) k last
          ≡ attempts fn policy check left (suc (suc k)) (suc k) last')
  unfolding attempts is_final wants_more
  attempts-go left k last h = elim (Result-cases (fn (suc k))) [
    | inr (e, r) ↦ (some e, ground arith)
    | inl (v, r) ↦ elim (wants_more-cases (reason_to_retry fn policy check v)) [
      | inl (e, n) ↦ (last, ground arith)
      | inr (inl n) ↦ (last, ground arith)
      | inr (inr (reason, n)) ↦ (last, ground arith)
    ]
  ]

  is_final-last : (n : ℕ) → policy.max_retries < n → is_final n ≡ true
  unfolding is_final should_retry wants_more
  is_final-last n h = elim (Result-cases (fn n)) [
    | inr (e, r) ↦ ground arith
    | inl (v, r) ↦ ground arith
  ]

  -- The call ends the loop, and none between the two does.
  IsFirst : ℕ → ℕ → Type 0
  IsFirst k n =
      (k < n)
      × (n ≤ policy.max_retries + 1)
      × (is_final n ≡ true)
      × ((j : ℕ) → k < j → j < n → is_final j ≡ false)

  IsFirst-here : (k : ℕ) → k ≤ policy.max_retries → is_final (suc k) ≡ true → IsFirst k (suc k)
  unfolding IsFirst
  IsFirst-here k h f = (omega arith, omega arith, f, λ j a b. absurd (omega arith))

  IsFirst-later : (k n : ℕ) → is_final (suc k) ≡ false → IsFirst (suc k) n → IsFirst k n
  unfolding IsFirst
  IsFirst-later k n f (a, b, c, d) = (
    omega arith,
    b,
    c,
    λ j u v. elim (Bool-cases (nat_eq j (suc k))) [
      | inl e ↦ let same : j ≡ suc k = ground arith in rw same f
      | inr e ↦ d j (ground arith) v
    ],
  )

  attempts-IsFirst :
      (left k : ℕ) (last : Option Raised)
      → k + left ≡ policy.max_retries
      → (n : ℕ) × IsFirst k n × (attempts fn policy check (suc left) (suc k) k last ≡ ended_at n)
  attempts-IsFirst zero k last h =
      let f = is_final-last (suc k) (omega arith) in
      (suc k, IsFirst-here k (omega arith) f, attempts-stop 0 k last f)
  attempts-IsFirst (suc left) k last h = elim (Bool-cases (is_final (suc k))) [
    | inl f ↦ (suc k, IsFirst-here k (omega arith) f, attempts-stop (suc left) k last f)
    | inr f ↦
        let (last', go) = attempts-go (suc left) k last f in
        let (n, first, same) = attempts-IsFirst left (suc k) last' (omega arith) in
        (n, IsFirst-later k n f first, go ∙ same)
  ]

  -- There is a first call of those from 1 to max_retries + 1 after which no other is made, since it
  -- raised what the policy does not retry, returned what the
  -- check accepts or raises on, or was the last one.
  -- The retry loop makes the calls up to it and no more, and what it returned or raised is the result.
  pub execute_with_retry-first :
      (n : ℕ) × (0 < n)
      × (n ≤ policy.max_retries + 1)
      × (is_final n ≡ true)
      × ((j : ℕ) → 0 < j → j < n → is_final j ≡ false)
      × (execute_with_retry fn policy check ≡ record { outcome = some (outcome_at n); calls = n })
  unfolding execute_with_retry IsFirst ended_at
  execute_with_retry-first =
      let (n, (a, b, c, d), same) = attempts-IsFirst policy.max_retries 0 none (omega arith) in
      (n, a, b, c, d, same)
