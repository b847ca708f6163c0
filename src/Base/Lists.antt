-- ===== src/Base/Lists.antt =====
-- Lists measured by native numbers, and lists of texts with Python's `in` and `count`.
use Prim.Native.Nat.{ℕ, suc, ◌+◌}
use Prim.Native.String.{String}
use mathlib.Core.Path.{◌≡◌, refl}
use mathlib.Core.Bool.{Bool, true, false, ◌&&◌, ◌||◌}
use mathlib.Core.List.{List, [], ◌∷◌, ◌++◌}
use native.Mathlib.Omega.{arith}
use text.Mathlib.Text.{◌==◌}
use mathlib.Core.Logic.{inl, inr}
use jagent.Base.Tests.{if◌then◌else◌, ltb, Bool-cases}

module _ {ℓ} {A : Type ℓ} where
  abbrev pub length : List A → ℕ
  length [] = 0
  length (x ∷ xs) = suc (length xs)

  pub length-append : (xs ys : List A) → length (xs ++ ys) ≡ length xs + length ys
  length-append [] ys = omega arith
  length-append (x ∷ xs) ys = omega (arith, length-append xs ys)

  -- Python's `any(...)` and `all(...)` over a generator.
  abbrev pub any : (A → Bool) → List A → Bool
  any p [] = false
  any p (x ∷ xs) = p x || any p xs

  abbrev pub all : (A → Bool) → List A → Bool
  all p [] = true
  all p (x ∷ xs) = p x && all p xs

  -- `[x for x in xs if p(x)]`
  abbrev pub filter : (A → Bool) → List A → List A
  filter p [] = []
  filter p (x ∷ xs) = let rest = filter p xs in if p x then x ∷ rest else rest

  -- A predicate that holds of each element.
  abbrev pub All {κ} : (A → Type κ) → List A → Type κ
  All P [] = Unit
  All P (x ∷ xs) = P x × All P xs

  -- The element stands in the list.
  pub data In (a : A) : List A → Type ℓ where
    here : {xs : List A} → In a (a ∷ xs)
    there : {x : A} {xs : List A} → In a xs → In a (x ∷ xs)

-- `x in xs` on texts.
unfoldable pub elem : String → List String → Bool
elem x [] = false
elem x (y ∷ ys) = x == y || elem x ys

-- `xs.count(x)` on texts.
unfoldable pub count : String → List String → ℕ
count x [] = 0
count x (y ∷ ys) = (if x == y then 1 else 0) + count x ys

pub count-append : (x : String) (xs ys : List String) → count x (xs ++ ys) ≡ count x xs + count x ys
unfolding count
count-append x [] ys = omega arith
count-append x (y ∷ xs) ys = omega (arith, count-append x xs ys)

pub elem-count : (x : String) (xs : List String) → elem x xs ≡ ltb 0 (count x xs)
unfolding elem count
elem-count x [] = refl
elem-count x (y ∷ ys) = ground (arith, elem-count x ys)

pub elem-append : (x : String) (xs ys : List String) → elem x (xs ++ ys) ≡ (elem x xs || elem x ys)
unfolding elem
elem-append x [] ys = refl
elem-append x (y ∷ xs) ys = ground (arith, elem-append x xs ys)

module _ {ℓ} {A : Type ℓ} (p : A → Bool) where
  pub any→In : (xs : List A) → any p xs ≡ true → (x : A) × In x xs × (p x ≡ true)
  any→In [] h = cc
  any→In (x ∷ xs) h = elim (Bool-cases (p x)) [
    | inl yes_x ↦ (x, here, yes_x)
    | inr no_x ↦ let (y, i, yes_y) = any→In xs (ground arith) in (y, there i, yes_y)
  ]

  pub In→any : (x : A) {xs : List A} → In x xs → p x ≡ true → any p xs ≡ true
  In→any x here h = ground arith
  In→any x (there i) h = ground (arith, In→any x i h)

  pub filter-eq-nil : (xs : List A) → filter p xs ≡ [] → (x : A) → In x xs → p x ≡ false
  filter-eq-nil (x ∷ xs) h y here = ground arith
  filter-eq-nil (x ∷ xs) h y (there i) = filter-eq-nil xs (ground arith) y i
  filter-eq-nil [] h y i = elim i [ ]

  pub filter-nil : (xs : List A) → ((x : A) → In x xs → p x ≡ false) → filter p xs ≡ []
  filter-nil [] h = refl
  filter-nil (x ∷ xs) h = rw (h x here) (filter-nil xs (λ y i. h y (there i)))

  -- The elements that a filter keeps are those of the list that pass.
  pub In-filter : (x : A) (xs : List A) → In x (filter p xs) → In x xs × (p x ≡ true)
  In-filter x [] i = elim i [ ]
  In-filter x (y ∷ xs) i = elim (Bool-cases (p y)) [
    | inl kept ↦ In-filter_head x y xs kept (In-filter x xs) (rw kept at i)
    | inr gone ↦ let (j, h) = In-filter x xs (rw gone at i) in (there j, h)
  ]
    where
      In-filter_head :
          (x y : A) (xs : List A)
          → p y ≡ true
          → (In x (filter p xs) → In x xs × (p x ≡ true))
          → In x (y ∷ filter p xs)
          → In x (y ∷ xs) × (p x ≡ true)
      In-filter_head x y xs h k here = (here, h)
      In-filter_head x y xs h k (there j) = let (m, q) = k j in (there m, q)

  pub all→In : (xs : List A) → all p xs ≡ true → (x : A) → In x xs → p x ≡ true
  all→In [] h x i = elim i [ ]
  all→In (y ∷ xs) h x here = ground arith
  all→In (y ∷ xs) h x (there i) = all→In xs (ground arith) x i

  pub In→all : (xs : List A) → ((x : A) → In x xs → p x ≡ true) → all p xs ≡ true
  In→all [] h = refl
  In→all (x ∷ xs) h = rw (h x here) (In→all xs (λ y i. h y (there i)))

  pub In-filter-intro : (x : A) (xs : List A) → In x xs → p x ≡ true → In x (filter p xs)
  In-filter-intro x [] i h = elim i [ ]
  In-filter-intro x (y ∷ xs) here h = rw h here
  In-filter-intro x (y ∷ xs) (there i) h = elim (Bool-cases (p y)) [
    | inl kept ↦ rw kept (there (In-filter-intro x xs i h))
    | inr gone ↦ rw gone (In-filter-intro x xs i h)
  ]
