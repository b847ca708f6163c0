-- ===== src/Guardrails/Deletion.antt =====
-- Deletions: a tool that may be registered does not pass its guardrails on a deletion unless one of
-- them asks for a confirmation.
use jagent.Base.{
  String, Bool, true, Option, none, some, List, [], ◌∷◌, ◌==◌, any, all, if◌then◌else◌, Result, ok,
  err, ◌>>=◌, ◌≡◌, refl, ◌∙◌, sym, ap, arith, >>=-eq-ok, ok-injective, Bool-cases, Option-cases,
  inl, inr,
}
use jagent.Values.{null, get_or_null, Value, Fields, get_or, arr, cons, nil, str, list_of}
use jagent.Events.{Event}
use jagent.Tools.{OperationContract, Declaration, ToolDefinition, find_operation, resolve_operation}
use jagent.Retry.{Raised}
use jagent.Guardrails.{
  GuardrailResult, Checks, has_delete, is_destructive, destructive_check, trigger, whitelist_check,
}
use jagent.Guardrails.Runner.{
  declared_check, run_declared, run_rest, run, schema_check, auto_check_depends_on,
}
use jagent.Guardrails.Registration.{declares, deletes, unless, validate_registration_safety}

unfoldable pub all_passed : List GuardrailResult → Bool
all_passed results = all (λ r. r.passed) results

unfoldable pub asks : List GuardrailResult → Bool
asks results = any (λ r. r.triggers_confirmation) results

find_operation-any :
    (v : Value) (ops : List OperationContract) (op : OperationContract)
    → find_operation v ops ≡ some op
    → has_delete op.side_effects ≡ true
    → any (λ o. has_delete o.side_effects) ops ≡ true
unfolding find_operation
find_operation-any v [] op h d = cc
find_operation-any v (o ∷ ops) op h d = ground (arith, find_operation-any v ops op)

resolve_operation-deletes :
    (tool : ToolDefinition) (input : Fields) (op : OperationContract)
    → resolve_operation tool input ≡ some op
    → has_delete op.side_effects ≡ true
    → deletes tool ≡ true
unfolding resolve_operation deletes
resolve_operation-deletes tool input op h d = go (get_or_null tool.operation_key input) refl
  where
    from : (v : Value) → find_operation v tool.operations ≡ some op → deletes tool ≡ true
    from v found = ground (arith, find_operation-any v tool.operations op found d)

    go : (v : Value) → get_or_null tool.operation_key input ≡ v → deletes tool ≡ true
    go null e = elim (Option-cases tool.default_operation) [
      | inl unset ↦ ground arith
      | inr (name, given) ↦ from (str name) (ground arith)
    ]
    go v e = from v (ground arith)

validate-declares :
    (tool : ToolDefinition)
    → validate_registration_safety tool ≡ []
    → deletes tool ≡ true
    → declares "destructive" tool.guardrails ≡ true
unfolding validate_registration_safety unless
validate-declares tool h d = ground arith

module _ (checks : Checks) where
  destructive_check-triggers :
      (tool : ToolDefinition) (input config : Fields) (r : GuardrailResult)
      → is_destructive (resolve_operation tool input) ≡ true
      → destructive_check checks tool input config ≡ ok r
      → r.triggers_confirmation ≡ true
  unfolding destructive_check trigger
  destructive_check-triggers tool input config r d h =
      elim (Option-cases
        (list_of (get_or "destructive_operations" (arr (cons (str "delete") nil)) config))) [
          | inl n ↦ ground arith
          | inr (ops, n) ↦ ground arith
        ]

  -- A first check whose results all passed passed itself, and so did the later ones.
  first_passed :
      (rest : Result Raised (List GuardrailResult)) (first : GuardrailResult)
      (results : List GuardrailResult)
      → (if first.passed then (rest >>= λ rs. ok (first ∷ rs)) else ok (first ∷ [])) ≡ ok results
      → all_passed results ≡ true
      → (later : List GuardrailResult) × (rest ≡ ok later)
        × (all_passed later ≡ true)
        × (results ≡ first ∷ later)
  unfolding all_passed
  first_passed (ok later) first results h p = elim (Bool-cases first.passed) [
    | inl good ↦
        let same : first ∷ later ≡ results = ground arith in
        let both : all_passed (first ∷ later) ≡ true = ap all_passed same ∙ p in
        (later, refl, ground arith, sym same)
    | inr bad ↦
        let same : first ∷ [] ≡ results = ground arith in
        let both : all_passed (first ∷ []) ≡ true = ap all_passed same ∙ p in absurd (ground arith)
  ]
  first_passed (err e) first results h p = elim (Bool-cases first.passed) [
    | inl good ↦ absurd (ground arith)
    | inr bad ↦
        let same : first ∷ [] ≡ results = ground arith in
        let both : all_passed (first ∷ []) ≡ true = ap all_passed same ∙ p in absurd (ground arith)
  ]

  declared_check-asks :
      (rows : List Event) (run_id : String) (tool : ToolDefinition) (input : Fields)
      (g : Declaration) (first : GuardrailResult)
      → is_destructive (resolve_operation tool input) ≡ true
      → (g.guardrail_type == "destructive") ≡ true
      → declared_check checks rows run_id tool input g ≡ ok first
      → first.triggers_confirmation ≡ true
  unfolding declared_check
  declared_check-asks rows run_id tool input g first d own h =
      destructive_check-triggers tool input g.config first d (rw own at h)

  run_declared-asks :
      (rows : List Event) (run_id : String) (tool : ToolDefinition) (input : Fields)
      (gs : List Declaration) (results : List GuardrailResult)
      → is_destructive (resolve_operation tool input) ≡ true
      → declares "destructive" gs ≡ true
      → run_declared checks rows run_id tool input gs ≡ ok results
      → all_passed results ≡ true
      → asks results ≡ true
  unfolding run_declared declares asks
  run_declared-asks rows run_id tool input [] results d h r p = cc
  run_declared-asks rows run_id tool input (g ∷ gs) results d h r p =
      let (first, one, more) = >>=-eq-ok (declared_check checks rows run_id tool input g) _ r in
      let (later, rest, ps, same) =
        first_passed (run_declared checks rows run_id tool input gs) first results more p in
      rw same (elim (Bool-cases (g.guardrail_type == "destructive")) [
        | inl own ↦
            let t = declared_check-asks rows run_id tool input g first d own one in ground arith
        | inr other ↦
            let t = run_declared-asks rows run_id tool input gs later d (ground arith) rest ps in
            ground arith
      ])

  run_rest-asks :
      (rows : List Event) (run_id : String) (tool : ToolDefinition) (input : Fields)
      (results : List GuardrailResult)
      → is_destructive (resolve_operation tool input) ≡ true
      → declares "destructive" tool.guardrails ≡ true
      → run_rest checks rows run_id tool input ≡ ok results
      → all_passed results ≡ true
      → asks results ≡ true
  unfolding run_rest asks
  run_rest-asks rows run_id tool input results d h r p =
      let (dep, one, more) = >>=-eq-ok (auto_check_depends_on checks rows run_id tool input) _ r in
      go dep more
    where
      gs : List Declaration
      gs = tool.guardrails

      go :
          (dep : Option GuardrailResult)
          → (elim dep [
            | none ↦ run_declared checks rows run_id tool input tool.guardrails
            | some result ↦
                if result.passed
                then (run_declared checks rows run_id tool input tool.guardrails >>= λ rs.
                    ok (result ∷ rs))
                else ok (result ∷ [])
          ])
            ≡ ok results
          → asks results ≡ true
      go none more = run_declared-asks rows run_id tool input tool.guardrails results d h more p
      go (some first) more =
          let (later, rest, ps, same) =
            first_passed (run_declared checks rows run_id tool input tool.guardrails) first results
              more p in
          let t = run_declared-asks rows run_id tool input tool.guardrails later d h rest ps in
          rw same (ground arith)

  -- If a tool has no violation at its registration, and the operation of an input has a DELETE
  -- effect, then guardrails that all pass on that input ask for a confirmation.
  pub run-asks :
      (rows : List Event) (run_id : String) (allowed : Option (List String)) (tool : ToolDefinition)
      (input : Fields) (op : OperationContract) (results : List GuardrailResult)
      → validate_registration_safety tool ≡ []
      → resolve_operation tool input ≡ some op
      → has_delete op.side_effects ≡ true
      → run checks rows run_id allowed tool input ≡ ok results
      → all_passed results ≡ true
      → asks results ≡ true
  unfolding run is_destructive all_passed asks
  run-asks rows run_id allowed tool input op results v o d r p =
      let guarded = validate-declares tool v (resolve_operation-deletes tool input op o d) in
      let destructive : is_destructive (resolve_operation tool input) ≡ true =
        rw o (ground arith) in
      let schema = schema_check checks tool input in
      let whitelist = whitelist_check allowed tool in
      elim (Bool-cases schema.passed) [
        | inl a ↦ elim (Bool-cases whitelist.passed) [
          | inl b ↦
              let opened : (run_rest checks rows run_id tool input >>= λ rs. ok (schema ∷ rs))
                  ≡ ok results =
                ground arith in
              let (later, rest, whole) =
                >>=-eq-ok (run_rest checks rows run_id tool input) (λ rs. ok (schema ∷ rs))
                  opened in
              let same : schema ∷ later ≡ results = ok-injective whole in
              let both : all_passed (schema ∷ later) ≡ true = ap all_passed same ∙ p in
              let t =
                run_rest-asks rows run_id tool input later destructive guarded rest
                  (ground arith) in
              rw (sym same) (ground arith)
          | inr b ↦
              let same : schema ∷ whitelist ∷ [] ≡ results = ground arith in
              let both : all_passed (schema ∷ whitelist ∷ []) ≡ true = ap all_passed same ∙ p in
              absurd (ground arith)
        ]
        | inr a ↦
            let same : schema ∷ [] ≡ results = ground arith in
            let both : all_passed (schema ∷ []) ≡ true = ap all_passed same ∙ p in
            absurd (ground arith)
      ]
