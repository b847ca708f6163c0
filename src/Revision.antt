-- ===== src/Revision.antt =====
-- harness/core/planner/revision_invariants.py: what a revised plan may not give up. The texts of the
-- errors are their parts.
pub mod Invariants
use jagent.Base.{
  ℕ, String, Bool, true, false, not, Option, none, some, List, [], ◌∷◌, ◌++◌, any, filter, map,
  if◌then◌else◌,
}
use jagent.Values.{Value, Fields, field, end, get_or_null, eq}
use jagent.Plan.{DagStep, DagPlan, step_satisfies}
use jagent.Contracts.{DeliverySource, DeliveryContract}
use jagent.Completion.{is_nil}
use jagent.Tools.{Registry, get_tool_def, effective_side_effects}

pub data RevisionError : Type 0 where
  removed : (contract_id tool : String) (input : Fields) → RevisionError
  changed : (key contract_id : String) → RevisionError
  undeclared : (step_id tool : String) (input : Fields) → RevisionError

-- An unknown tool counts as mutating.
unfoldable pub step_is_mutating : DagStep → Registry → Bool
unfolding get_tool_def effective_side_effects is_nil
step_is_mutating step registry = elim (get_tool_def registry step.tool) [
  | none ↦ true
  | some def ↦ not (is_nil (effective_side_effects def step.input))
]

-- The keys whose value in the step is not that of the contract, a missing one read as None.
unfoldable pub changed_keys : Fields → Fields → List String
unfolding get_or_null eq
changed_keys end input = []
changed_keys (field key val rest) input =
    let more = changed_keys rest input in
    if eq (get_or_null key input) val then more else key ∷ more

is_caller : DeliverySource → Bool
is_caller DeliverySource.caller = true
is_caller DeliverySource.extracted = false

-- for step in matching: for key, val in contract.input.items()
unfoldable pub key_errors : DeliveryContract → List DagStep → List RevisionError
unfolding changed_keys
key_errors c [] = []
key_errors c (s ∷ ss) =
    map (λ key. changed key c.contract_id) (changed_keys c.input s.input) ++ key_errors c ss

module _ (repr : Value → String) where
  -- RequiredOperation.step_satisfies(s, contract)
  unfoldable pub covers : DeliveryContract → DagStep → Bool
  covers c s = step_satisfies repr s c.tool c.input

  unfoldable pub contract_errors : List DagStep → DeliveryContract → List RevisionError
  unfolding covers key_errors is_nil is_caller
  contract_errors steps c =
      if is_nil (filter (covers c) steps)
      then removed c.contract_id c.tool c.input ∷ []
      else if is_caller c.source
      then key_errors c (filter (covers c) steps)
      else []

  unfoldable pub all_contract_errors : List DagStep → List DeliveryContract → List RevisionError
  unfolding contract_errors
  all_contract_errors steps [] = []
  all_contract_errors steps (c ∷ cs) = contract_errors steps c ++ all_contract_errors steps cs

  unfoldable pub mutating_errors :
      List DeliveryContract → Registry → List DagStep → List RevisionError
  unfolding step_is_mutating covers
  mutating_errors contracts registry [] = []
  mutating_errors contracts registry (s ∷ ss) =
      let rest = mutating_errors contracts registry ss in
      if not (step_is_mutating s registry)
      then rest
      else if any (λ c. covers c s) contracts
      then rest
      else undeclared s.id s.tool s.input ∷ rest

  unfoldable pub validate_revision_invariants :
      List DeliveryContract → DagPlan → Option Registry → List RevisionError
  unfolding all_contract_errors mutating_errors is_nil
  validate_revision_invariants root_contracts revised registry =
      all_contract_errors revised.steps root_contracts ++ elim registry [
        | none ↦ []
        | some r ↦
            if is_nil root_contracts then [] else mutating_errors root_contracts r revised.steps
      ]
