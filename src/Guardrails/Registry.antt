-- ===== src/Guardrails/Registry.antt =====
-- harness/tools/registry.py: ToolRegistry with its two tables, and the registries that its operations
-- lead to. The function of a tool gives, for an input, what each of its calls comes to.
use jagent.Base.{
  ℕ, String, some, List, [], ◌∷◌, ◌==◌, eq_iff, if◌then◌else◌, Dict, lookup, has_key, insert,
  remove, lookup-insert, lookup-remove, Result, ok, err, ok-injective, err≢ok, ◌≡◌, refl, sym, ap,
  ◌∙◌, arith, inl, inr, Bool-cases,
}
use mathlib.Core.Path.{subst}
use jagent.Values.{Value, Fields}
use jagent.Tools.{ToolDefinition, Registry}
use jagent.Retry.{Raised}
use jagent.Guardrails.Registration.{Violation, validate_registration_safety}

abbrev pub ToolFunction : Type 0
ToolFunction = Fields → ℕ → Result Raised Value

pub record ToolRegistry : Type 0 where
  pub tools : Registry
  pub fns : Dict ToolFunction

pub data RegistryError : Type 0 where
  refused : (name : String) → List Violation → RegistryError
  already_registered : (name : String) → RegistryError

-- `_register`
unfoldable pub register :
    ToolDefinition → ToolFunction → ToolRegistry → Result RegistryError ToolRegistry
unfolding has_key insert
register td fn r =
    if has_key td.name r.tools
    then err (already_registered td.name)
    else ok (record { tools = insert td.name td r.tools; fns = insert td.name fn r.fns })

-- `register_tool`, from the definition and the function of the tool on.
unfoldable pub register_tool :
    ToolDefinition → ToolFunction → ToolRegistry → Result RegistryError ToolRegistry
unfolding validate_registration_safety register
register_tool td fn r = elim (validate_registration_safety td) [
  | [] ↦ register td fn r
  | v ∷ vs ↦ err (refused td.name (v ∷ vs))
]

unfoldable pub remove_tool : String → ToolRegistry → ToolRegistry
unfolding remove
remove_tool name r = record { tools = remove name r.tools; fns = remove name r.fns }

-- The registries that registrations and removals lead to.
pub data Reached : ToolRegistry → Type 0 where
  empty : Reached (record { tools = []; fns = [] })
  registered :
      (td : ToolDefinition) (fn : ToolFunction) (r r' : ToolRegistry)
      → Reached r
      → register_tool td fn r ≡ ok r'
      → Reached r'
  removed : (name : String) (r : ToolRegistry) → Reached r → Reached (remove_tool name r)

-- What the tables say of a registered tool.
pub record IsGuarded (r : ToolRegistry) (name : String) (td : ToolDefinition) : Type 0 where
  pub safe : validate_registration_safety td ≡ []
  pub named : td.name ≡ name
  pub fn : ToolFunction
  pub known : lookup name r.fns ≡ some fn

register_tool-tables :
    (td : ToolDefinition) (fn : ToolFunction) (r r' : ToolRegistry)
    → register_tool td fn r ≡ ok r'
    → (validate_registration_safety td ≡ [])
      × (r' ≡ record { tools = insert td.name td r.tools; fns = insert td.name fn r.fns })
unfolding register_tool register
register_tool-tables td fn r r' h = go (validate_registration_safety td) refl
  where
    go :
        (vs : List Violation)
        → validate_registration_safety td ≡ vs
        → (validate_registration_safety td ≡ [])
          × (r' ≡ record { tools = insert td.name td r.tools; fns = insert td.name fn r.fns })
    go [] e = elim (Bool-cases (has_key td.name r.tools)) [
      | inl taken ↦ absurd (err≢ok (rw (e, taken, register_tool) at h))
      | inr new ↦ (e, sym (ok-injective (rw (e, new, register_tool) at h)))
    ]
    go (v ∷ vs) e = absurd (err≢ok (rw (e, register_tool) at h))

registered-IsGuarded :
    (r : ToolRegistry) (name : String) (td new : ToolDefinition) (fn : ToolFunction)
    → ((t : ToolDefinition) → lookup name r.tools ≡ some t → IsGuarded r name t)
    → validate_registration_safety new ≡ []
    → lookup name (insert new.name new r.tools) ≡ some td
    → IsGuarded
        (record { tools = insert new.name new r.tools; fns = insert new.name fn r.fns })
        name
        td
registered-IsGuarded r name td new fn guarded safe h = elim (Bool-cases (new.name == name)) [
  | inl same ↦
      let is_td : new ≡ td = ground (arith, lookup-insert new.name name new r.tools) in
      subst (IsGuarded _ name) is_td (record {
        safe = safe;
        named = (eq_iff new.name name).0 same;
        fn = fn;
        known = ground (arith, lookup-insert new.name name fn r.fns);
      })
  | inr other ↦
      let old = guarded td (ground (arith, lookup-insert new.name name new r.tools)) in
      record {
        safe = old.safe;
        named = old.named;
        fn = old.fn;
        known = ground (arith, old.known, lookup-insert new.name name fn r.fns);
      }
]

removed-IsGuarded :
    (r : ToolRegistry) (gone name : String) (td : ToolDefinition)
    → ((t : ToolDefinition) → lookup name r.tools ≡ some t → IsGuarded r name t)
    → lookup name (remove gone r.tools) ≡ some td
    → IsGuarded (remove_tool gone r) name td
unfolding remove_tool
removed-IsGuarded r gone name td guarded h =
    let old = guarded td (ground (arith, lookup-remove gone name r.tools)) in
    record {
      safe = old.safe;
      named = old.named;
      fn = old.fn;
      known =
          ground
            (arith, old.known, h, lookup-remove gone name r.tools, lookup-remove gone name r.fns);
    }

-- In a registry that registrations and removals lead to, every tool passed the safety check of its
-- registration, stands under its own name, and has a function.
pub Reached-IsGuarded :
    (r : ToolRegistry) (name : String) (td : ToolDefinition)
    → Reached r
    → lookup name r.tools ≡ some td
    → IsGuarded r name td
unfolding lookup remove_tool
Reached-IsGuarded _ name td empty h = absurd (ground arith)
Reached-IsGuarded _ name td (registered new fn r r' before done) h =
    let (safe, same) = register_tool-tables new fn r r' done in
    subst (λ x. IsGuarded x name td) (sym same)
      (registered-IsGuarded r name td new fn (λ t k. Reached-IsGuarded r name t before k) safe
        (ap (λ x. lookup name x.tools) (sym same) ∙ h))
Reached-IsGuarded _ name td (removed gone r before) h =
    removed-IsGuarded r gone name td (λ t k. Reached-IsGuarded r name t before k) h
