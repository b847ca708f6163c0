-- ===== src/Plan.antt =====
-- harness/models/plan.py: the plan that a planner proposes, and the match of a step against a
-- required operation. The children sort the steps and check the
-- structure of a plan.
pub mod Toposort
pub mod Structure
use Prim.Native.Char.{code}
use jagent.Base.{
  ℕ, ◌+◌, String, Bool, true, false, not, ◌&&◌, ◌||◌, Option, none, some, List, [], ◌∷◌, map, ◌==◌,
  any, leb, nat_eq, if◌then◌else◌, Dict,
}
use jagent.Values.{Value, Fields, end, field, str, get, get_or_null, eq, py_str}

pub record DagStep : Type 0 where
  pub id : String
  pub tool : String
  pub input : Fields
  pub depends_on : List String
  pub description : String
  pub upstream_selectors : Option (Dict String)
  pub max_parallel : ℕ
  pub branches : Option Fields
  pub probe : Bool

pub record RequiredOperation : Type 0 where
  pub tool : String
  pub input : Fields

pub record DagPlan : Type 0 where
  pub user_intent : String
  pub intent : String
  pub steps : List DagStep
  pub failed : Bool
  pub step_tasks : Dict String
  pub declared_operations : List RequiredOperation

-- The code points of a text.
unfoldable pub codes : String → List ℕ
codes String.[] = []
codes (String.◌∷◌ c s) = code c ∷ codes s

-- `str.isspace` of one character, the set that `strip` removes.
is_space : ℕ → Bool
is_space c =
    (leb 9 c && leb c 13)
    || (leb 28 c && leb c 32)
    || nat_eq c 0x85
    || nat_eq c 0xa0
    || nat_eq c 0x1680
    || (leb 0x2000 c && leb c 0x200a)
    || nat_eq c 0x2028
    || nat_eq c 0x2029
    || nat_eq c 0x202f
    || nat_eq c 0x205f
    || nat_eq c 0x3000

drop_while : (ℕ → Bool) → List ℕ → List ℕ
drop_while p [] = []
drop_while p (c ∷ cs) = if p c then drop_while p cs else c ∷ cs

-- A trailing run that satisfies `p` goes.
drop_last_while : (ℕ → Bool) → List ℕ → List ℕ
drop_last_while p [] = []
drop_last_while p (c ∷ cs) = elim (drop_last_while p cs) [
  | [] ↦ if p c then [] else c ∷ []
  | d ∷ ds ↦ c ∷ d ∷ ds
]

-- `str.lower`, as far as an ASCII text can come out of it: A to Z, and the Kelvin sign for k.
-- Any other character lowers to a text with a character outside ASCII, and is kept.
lower : ℕ → ℕ
lower c = if leb b'A' c && leb c b'Z' then c + 32 else if nat_eq c 0x212a then b'k' else c

unfoldable pub codes_eq : List ℕ → List ℕ → Bool
codes_eq [] [] = true
codes_eq (a ∷ as') (b ∷ bs) = nat_eq a b && codes_eq as' bs
codes_eq _ _ = false

-- path.strip().lower().rstrip("/") or "."
unfoldable pub norm_path : String → List ℕ
unfolding is_space drop_while drop_last_while lower codes
norm_path path =
    elim (drop_last_while (λ c. nat_eq c b'/')
      (map lower (drop_last_while is_space (drop_while is_space (codes path))))) [
        | [] ↦ codes "."
        | c ∷ cs ↦ c ∷ cs
      ]

abbrev workspace_root_aliases : List String
workspace_root_aliases =
    "." ∷ "./" ∷ "workspace" ∷ "workspace directory" ∷ "current directory" ∷ "the workspace"
    ∷ "/workspace" ∷ "root" ∷ []

-- norm in _WORKSPACE_ROOT_ALIASES
unfoldable pub is_root_alias : List ℕ → Bool
unfolding codes codes_eq
is_root_alias norm = any (λ alias. codes_eq norm (codes alias)) workspace_root_aliases

unfoldable pub paths_equivalent : String → String → Value → Bool
unfolding norm_path is_root_alias eq
paths_equivalent path_a path_b operation =
    if path_a == path_b
    then true
    else if not (eq operation (str "list"))
    then false
    else if is_root_alias (norm_path path_a)
    then is_root_alias (norm_path path_b)
    else false

module _ (repr : Value → String) where
  -- str(step_value) if step_value is not None else ""
  unfoldable pub path_text : Value → String
  unfolding py_str
  path_text Value.null = ""
  path_text v = py_str repr v

  -- One turn of the loop over `req.input.items()`.
  unfoldable pub key_satisfied : Fields → Fields → String → Value → Bool
  unfolding get_or_null path_text py_str
  key_satisfied step_input req_input key value =
      if key == "content"
      then true
      else if key == "path"
      then paths_equivalent (py_str repr value) (path_text (get_or_null key step_input))
          (get_or_null "operation" req_input)
      else eq (get_or_null key step_input) value

  unfoldable pub keys_satisfied : Fields → Fields → Fields → Bool
  keys_satisfied step_input req_input end = true
  keys_satisfied step_input req_input (field key value rest) =
      key_satisfied step_input req_input key value && keys_satisfied step_input req_input rest

  -- RequiredOperation.step_satisfies reads the tool and the input of the request only, so that
  -- it serves a DeliveryContract too.
  unfoldable pub step_satisfies : DagStep → String → Fields → Bool
  unfolding keys_satisfied key_satisfied
  step_satisfies step req_tool req_input =
      if step.tool == req_tool then keys_satisfied step.input req_input req_input else false
