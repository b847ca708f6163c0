-- ===== src/Base/Dicts.antt =====
-- Python's insertion-ordered `dict` with text keys, as a list of its items.
use Prim.Native.String.{String}
use mathlib.Core.Path.{◌≡◌, refl}
use mathlib.Core.Bool.{Bool, true, false}
use mathlib.Core.Option.{Option, none, some}
use mathlib.Core.List.{List, [], ◌∷◌}
use native.Mathlib.Omega.{arith}
use text.Mathlib.Text.{◌==◌}
use text.Mathlib.TextEquality.{eq_iff}
use jagent.Base.Tests.{if◌then◌else◌}

abbrev pub Dict {ℓ} : Type ℓ → Type ℓ
Dict V = List (String × V)

module _ {ℓ} {V : Type ℓ} where
  -- d.get(k)
  unfoldable pub lookup : String → Dict V → Option V
  lookup k [] = none
  lookup k ((j, v) ∷ m) = if j == k then some v else lookup k m

  -- d[k] = v: an old key keeps its place, a new one goes to the end.
  unfoldable pub insert : String → V → Dict V → Dict V
  insert k v [] = (k, v) ∷ []
  insert k v ((j, w) ∷ m) = if j == k then (j, v) ∷ m else (j, w) ∷ insert k v m

  -- d.pop(k, None): every item under the key goes.
  unfoldable pub remove : String → Dict V → Dict V
  remove k [] = []
  remove k ((j, w) ∷ m) = let rest = remove k m in if j == k then rest else (j, w) ∷ rest

  -- d.get(k, default)
  unfoldable pub lookup_or : String → V → Dict V → V
  unfolding lookup
  lookup_or k d m = elim (lookup k m) [ none ↦ d | some v ↦ v ]

  -- k in d
  unfoldable pub has_key : String → Dict V → Bool
  unfolding lookup
  has_key k m = elim (lookup k m) [ none ↦ false | some _ ↦ true ]

  -- list(d)
  unfoldable pub keys : Dict V → List String
  keys [] = []
  keys ((j, w) ∷ m) = j ∷ keys m

  pub lookup-insert :
      (key asked : String) (value : V) (d : Dict V)
      → lookup asked (insert key value d) ≡ (if key == asked then some value else lookup asked d)
  unfolding lookup insert
  lookup-insert key asked value [] = refl
  lookup-insert key asked value ((old, w) ∷ d) =
      ground
        (arith, eq_iff key asked, eq_iff old key, eq_iff old asked, lookup-insert key asked value d)

  pub lookup-remove :
      (key asked : String) (d : Dict V)
      → lookup asked (remove key d) ≡ (if key == asked then none else lookup asked d)
  unfolding lookup remove
  lookup-remove key asked [] = ground arith
  lookup-remove key asked ((old, w) ∷ d) =
      ground (arith, eq_iff key asked, eq_iff old key, eq_iff old asked, lookup-remove key asked d)

module _ {ℓ} {V : Type ℓ} where
  pub lookup_or-insert :
      (k j : String) (v d : V) (m : Dict V)
      → lookup_or j d (insert k v m) ≡ (if k == j then v else lookup_or j d m)
  unfolding lookup_or lookup
  lookup_or-insert k j v d m = ground (arith, lookup-insert k j v m, eq_iff k j)
