-- ===== src/Values.antt =====
-- The JSON values that tool inputs and outputs hold (`Any` in harness/models/plan.py and
-- harness/core/dag_types.py), with Python's `==`, `bool(...)`, `.get` and `str(...)` on them.
-- A float is not modelled: the harness compares and prints values, and does no arithmetic on them.
use jagent.Base.{
  ℕ, suc, String, Bool, true, false, not, ◌&&◌, Option, none, some, ◌==◌, nat_eq, if◌then◌else◌,
  List, [], ◌∷◌,
}

-- `negsuc n` is -(n + 1).
pub data ℤ : Type 0 where
  pos : ℕ → ℤ
  negsuc : ℕ → ℤ

mutual
  pub data Value : Type 0 where
    obj : Fields → Value
    arr : Items → Value
    str : String → Value
    num : ℤ → Value
    bool : Bool → Value
    null : Value

  -- The items of a dict, in insertion order.
  pub data Fields : Type 0 where
    field : (key : String) (value : Value) (rest : Fields) → Fields
    end : Fields

  pub data Items : Type 0 where
    cons : (item : Value) (rest : Items) → Items
    nil : Items

-- d.get(k)
unfoldable pub get : String → Fields → Option Value
get k end = none
get k (field j v fs) = if j == k then some v else get k fs

-- `d.get(k)` where the code goes on with `None` for a missing key
unfoldable pub get_or_null : String → Fields → Value
unfolding get
get_or_null k fs = elim (get k fs) [ none ↦ null | some v ↦ v ]

-- d.get(k, default)
unfoldable pub get_or : String → Value → Fields → Value
unfolding get
get_or k default fs = elim (get k fs) [ none ↦ default | some v ↦ v ]

unfoldable pub size : Fields → ℕ
size end = 0
size (field k v fs) = suc (size fs)

int_eq : ℤ → ℤ → Bool
int_eq (pos a) (pos b) = nat_eq a b
int_eq (negsuc a) (negsuc b) = nat_eq a b
int_eq _ _ = false

-- `True` is 1 and `False` is 0, also for `==`.
as_int : Value → Option ℤ
as_int (bool b) = some (if b then pos 1 else pos 0)
as_int (num z) = some z
as_int _ = none

is_int : ℤ → Value → Bool
unfolding int_eq as_int
is_int z w = elim (as_int w) [ none ↦ false | some y ↦ int_eq z y ]

is_null : Value → Bool
is_null null = true
is_null _ = false

is_str : String → Value → Bool
is_str s (str t) = s == t
is_str s _ = false

-- Python's `==`. Two dicts are equal if they have as many keys and equal values under each.
unfoldable mutual
  unfolding is_null is_int is_str size get

  pub eq : Value → Value → Bool
  eq null w = is_null w
  eq (bool b) w = is_int (if b then pos 1 else pos 0) w
  eq (num z) w = is_int z w
  eq (str s) w = is_str s w
  eq (arr xs) w = elim w [ arr ys ↦ eq_items xs ys | _ ↦ false ]
  eq (obj fs) w = elim w [ obj gs ↦ nat_eq (size fs) (size gs) && eq_fields fs gs | _ ↦ false ]

  pub eq_items : Items → Items → Bool
  eq_items nil ys = elim ys [ nil ↦ true | cons y r ↦ false ]
  eq_items (cons x xs) ys = elim ys [ nil ↦ false | cons y r ↦ eq x y && eq_items xs r ]

  pub eq_fields : Fields → Fields → Bool
  eq_fields end gs = true
  eq_fields (field k v fs) gs =
      elim (get k gs) [ none ↦ false | some w ↦ eq v w ] && eq_fields fs gs

-- bool(v)
unfoldable pub truthy : Value → Bool
truthy null = false
truthy (bool b) = b
truthy (num (pos n)) = not (nat_eq n 0)
truthy (num (negsuc n)) = true
truthy (str s) = not (s == "")
truthy (arr nil) = false
truthy (arr (cons x xs)) = true
truthy (obj end) = false
truthy (obj (field k v fs)) = true

-- v or w
unfoldable pub value_or : Value → Value → Value
unfolding truthy
value_or v w = if truthy v then v else w

items_of : Items → List Value
items_of nil = []
items_of (cons x xs) = x ∷ items_of xs

keys_of : Fields → List Value
keys_of end = []
keys_of (field k v fs) = str k ∷ keys_of fs

chars_of : String → List Value
chars_of String.[] = []
chars_of (String.◌∷◌ c s) = str (String.◌∷◌ c String.[]) ∷ chars_of s

-- `list(v)`, none where it raises a TypeError.
unfoldable pub list_of : Value → Option (List Value)
unfolding items_of keys_of chars_of
list_of (arr xs) = some (items_of xs)
list_of (obj fs) = some (keys_of fs)
list_of (str s) = some (chars_of s)
list_of _ = none

-- `str(v)`: a text is itself. `repr` is how Python prints any other value.
unfoldable pub py_str : (Value → String) → Value → String
py_str repr (str s) = s
py_str repr v = repr v
