-- ===== src/Retry.antt =====
-- harness/tools/retry.py: one budget for the exceptions of a call and for results that the caller
-- judges to be worth another try. `fn n` is what the n-th call of the function does. The pauses
-- between the calls are left out.
pub mod Bounds
use jagent.Base.{
  ℕ, zero, suc, ◌+◌, String, Bool, true, false, not, ◌&&◌, ◌||◌, Option, none, some, List, [], ◌∷◌,
  any, leb, nat_eq, if◌then◌else◌, Result, ok, err,
}
use jagent.Plan.{codes}
use jagent.Tools.{RetryPolicy}

-- The exceptions that the callers tell apart. `text` is str(exc) and `type_name` its class.
pub data RaisedKind : Type 0 where
  timed_out : RaisedKind
  confirmation_needed : (confirmation_id : String) → RaisedKind
  other : RaisedKind

pub record Raised : Type 0 where
  pub kind : RaisedKind
  pub text : String
  pub type_name : String

pub is_prefix : List ℕ → List ℕ → Bool
is_prefix [] bs = true
is_prefix (a ∷ as') [] = false
is_prefix (a ∷ as') (b ∷ bs) = nat_eq a b && is_prefix as' bs

is_infix : List ℕ → List ℕ → Bool
unfolding is_prefix
is_infix as' [] = is_prefix as' []
is_infix as' (b ∷ bs) = is_prefix as' (b ∷ bs) || is_infix as' bs

-- `a in b` on texts.
unfoldable pub is_within : String → String → Bool
unfolding is_infix codes
is_within a b = is_infix (codes a) (codes b)

unfoldable pub has_candidate : List String → String → Bool
unfolding is_within
has_candidate candidates error = any (λ c. is_within c error) candidates

unfoldable pub is_empty : List String → Bool
is_empty [] = true
is_empty (c ∷ cs) = false

unfoldable pub should_retry : ℕ → String → RetryPolicy → Bool
unfolding has_candidate is_empty
should_retry attempt error policy =
    if not (leb attempt policy.max_retries)
    then false
    else if not (is_empty policy.retryable_errors)
        && not (has_candidate policy.retryable_errors error)
    then false
    else true

pub data Outcome {ℓ} (A : Type ℓ) : Type ℓ where
  returned : A → (retry_count : ℕ) → Outcome A
  raised : Raised → Outcome A

-- What came of the calls, and how many there were.
pub record Retried {ℓ} (A : Type ℓ) : Type ℓ where
  pub outcome : Option (Outcome A)
  pub calls : ℕ

module _ {ℓ} {A : Type ℓ} (fn : ℕ → Result Raised A) (policy : RetryPolicy)
    (check : Option (A → Result Raised (Option String))) where
  -- The reason to try again after a result, none to return it. The caller's check may raise.
  unfoldable pub reason_to_retry : A → Result Raised (Option String)
  reason_to_retry v = elim check [ none ↦ ok none | some c ↦ c v ]

  -- The loop from one attempt on, with the last exception. `raise last_error` stands at its end; an
  -- outcome of none there is the TypeError of raising None.
  unfoldable pub attempts : ℕ → ℕ → ℕ → Option Raised → Retried A
  unfolding should_retry reason_to_retry
  attempts zero attempt retry_count last_error = record {
    outcome = elim last_error [ none ↦ none | some e ↦ some (raised e) ];
    calls = retry_count;
  }
  attempts (suc left) attempt retry_count last_error = elim (fn attempt) [
    | err e ↦
        let again = attempts left (suc attempt) (suc retry_count) (some e) in
        if should_retry attempt e.text policy
        then again
        else record { outcome = some (raised e); calls = attempt }
    | ok v ↦ elim (reason_to_retry v) [
      | err e ↦ record { outcome = some (raised e); calls = attempt }
      | ok none ↦ record { outcome = some (returned v retry_count); calls = attempt }
      | ok (some reason) ↦
          let again = attempts left (suc attempt) (suc retry_count) last_error in
          if not (leb attempt policy.max_retries)
          then record { outcome = some (returned v retry_count); calls = attempt }
          else again
    ]
  ]

  -- for attempt in range(1, policy.max_retries + 2)
  unfoldable pub execute_with_retry : Retried A
  unfolding attempts
  execute_with_retry = attempts (suc policy.max_retries) 1 0 none
