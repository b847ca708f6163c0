-- ===== src/Base/Keys.antt =====
-- The keys of a dict: each stands once, and a write adds its key if it is new.
use jagent.Base.Tests.{if◌then◌else◌, nat_eq, ltb}
use jagent.Base.Lists.{length, count}
use jagent.Base.Dicts.{Dict, insert, keys, lookup, lookup_or, has_key}
use Prim.Native.Nat.{ℕ, suc, ◌+◌, ◌≤◌}
use Prim.Native.String.{String}
use mathlib.Core.Path.{◌≡◌, refl}
use mathlib.Core.Bool.{◌&&◌}
use mathlib.Core.List.{List, [], ◌∷◌}
use native.Mathlib.Omega.{arith}
use text.Mathlib.Text.{◌==◌}
use text.Mathlib.TextEquality.{eq_iff}

-- How often the ids of one list stand in another.
unfoldable pub tally : List String → List String → ℕ
tally [] xs = 0
tally (i ∷ ids) xs = count i xs + tally ids xs

tally-cons :
    (ids : List String) (x : String) (xs : List String)
    → tally ids (x ∷ xs) ≡ count x ids + tally ids xs
unfolding tally count
tally-cons [] x xs = refl
tally-cons (i ∷ ids) x xs = ground (arith, tally-cons ids x xs, eq_iff i x, eq_iff x i)

tally-nil : (ids : List String) → tally ids [] ≡ 0
unfolding tally count
tally-nil [] = refl
tally-nil (i ∷ ids) = omega (arith, tally-nil ids)

-- Double counting.
pub tally-length :
    (ids xs : List String)
    → ((n : String) → 1 ≤ count n xs → count n ids ≡ 1)
    → tally ids xs ≡ length xs
unfolding count
tally-length ids [] h = tally-nil ids
tally-length ids (x ∷ xs) h =
    ground
      (arith, tally-cons ids x xs, tally-length ids xs (λ n k. h n (omega arith)), h x, eq_iff x x)

module _ {ℓ} {V : Type ℓ} where
  pub count-keys-insert :
      (k n : String) (v : V) (m : Dict V)
      → count n (keys (insert k v m))
        ≡ (if k == n && nat_eq (count n (keys m)) 0 then 1 else count n (keys m))
  unfolding insert keys count
  count-keys-insert k n v [] = ground (arith, eq_iff k n, eq_iff n k)
  count-keys-insert k n v ((j, w) ∷ m) =
      ground (arith, count-keys-insert k n v m, eq_iff j k, eq_iff k n, eq_iff n j, eq_iff n k)

  pub length-keys-insert :
      (k : String) (v : V) (m : Dict V)
      → length (keys (insert k v m))
        ≡ (if nat_eq (count k (keys m)) 0 then suc (length (keys m)) else length (keys m))
  unfolding insert keys count
  length-keys-insert k v [] = refl
  length-keys-insert k v ((j, w) ∷ m) =
      ground (arith, length-keys-insert k v m, eq_iff j k, eq_iff k j)

  pub lookup_or-absent :
      (n : String) (d : V) (m : Dict V) → count n (keys m) ≡ 0 → lookup_or n d m ≡ d
  unfolding lookup_or lookup keys count
  lookup_or-absent n d [] h = refl
  lookup_or-absent n d ((j, w) ∷ m) h =
      ground (arith, lookup_or-absent n d m, eq_iff n j, eq_iff j n)

  pub has_key-count : (n : String) (m : Dict V) → has_key n m ≡ ltb 0 (count n (keys m))
  unfolding has_key lookup keys count
  has_key-count n [] = refl
  has_key-count n ((j, w) ∷ m) = ground (arith, has_key-count n m, eq_iff n j, eq_iff j n)

-- Where each id of a list counts for at most one, a sum that reaches the length counts every id.
module _ (weight : String → ℕ) (xs : List String) where
  unfoldable pub weigh : List String → ℕ
  weigh [] = 0
  weigh (i ∷ ids) = weight i + weigh ids

  module _ (small : (i : String) → weight i + count i xs ≤ 1) where
    weigh-le : (ids : List String) → weigh ids + tally ids xs ≤ length ids
    unfolding weigh tally
    weigh-le [] = omega arith
    weigh-le (i ∷ ids) = omega (arith, weigh-le ids, small i)

    pub weigh-full :
        (ids : List String)
        → length ids ≤ weigh ids + tally ids xs
        → (n : String) → 1 ≤ count n ids
        → weight n + count n xs ≡ 1
    unfolding weigh tally count
    weigh-full [] h n k = absurd (omega arith)
    weigh-full (i ∷ ids) h n k = ground (
      arith,
      weigh-full ids (omega (arith, small i)) n,
      weigh-le ids,
      small i,
      small n,
      eq_iff n i,
    )

  pub weigh-exact :
      (ids : List String)
      → ((n : String) → 1 ≤ count n ids → weight n + count n xs ≡ 1)
      → weigh ids + tally ids xs ≡ length ids
  unfolding weigh tally count
  weigh-exact [] h = refl
  weigh-exact (i ∷ ids) h =
      ground (arith, weigh-exact ids (λ n k. h n (omega arith)), h i, eq_iff i i)
