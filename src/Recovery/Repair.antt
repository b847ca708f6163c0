-- ===== src/Recovery/Repair.antt =====
-- What the recovery lets through: a repair of one step, and a revision after failures.
use jagent.Base.{
  ℕ, String, Bool, true, false, ◌&&◌, ◌||◌, Option, none, some, List, [], ◌∷◌, ◌==◌, eq_iff, elem,
  length, ◌≤◌, Dict, lookup, ◌≡◌, ◌≢◌, ◌↔◌, ◌⊎◌, refl, sym, ◌∙◌, arith, Bool-cases, Option-cases,
  inl, inr, In, here, there,
}
use mathlib.Core.Bool.{false≢true}
use jagent.Values.{Value, Fields}
use jagent.Events.{Blueprint}
use jagent.Evidence.{Evidence, StepEvidence}
use jagent.Recovery.{
  is_transient, repeats, is_unresolved, unresolved_from, patch_by_id, unresolved_known_bad_steps,
  RecoveryBudget, LocalRepairProposal, allowed, is_read_only, validate_local_repair,
}

-- A repair of a step is allowed exactly if the round is within the budget, the proposal names a tool
-- of the whitelist, the action is read-only, and it is not the action that failed.
pub validate_local_repair-allowed_iff :
    (repr : Value → String) (dumps : Fields → String) (p : LocalRepairProposal) (round_used : ℕ)
    (budget : RecoveryBudget) (read_only : Dict Bool) (tool input : String)
    → (validate_local_repair repr dumps p round_used budget read_only (tool, input) ≡ allowed)
      ↔ (round_used ≤ budget.max_repair_rounds)
        × (p.tool_name ≢ "")
        × (elem p.tool_name budget.allowed_tools ≡ true)
        × (is_read_only repr p.tool_name p.input read_only ≡ true)
        × ¬ ((p.tool_name ≡ tool) × (dumps p.input ≡ input))
unfolding validate_local_repair
validate_local_repair-allowed_iff repr dumps p round_used budget read_only tool input = (
  λ h. (
    ground arith,
    λ e. ground (arith, eq_iff p.tool_name ""),
    ground arith,
    ground arith,
    λ (t, i). ground (arith, eq_iff p.tool_name tool, eq_iff (dumps p.input) input),
  ),
  λ (rounds, named, listed, reads, differs).
      elim (Bool-cases (p.tool_name == tool && dumps p.input == input)) [
        | inl same ↦ absurd (
            differs (
              (eq_iff p.tool_name tool).0 (ground arith),
              (eq_iff (dumps p.input) input).0 (ground arith),
            ))
        | inr other ↦ ground (arith, eq_iff p.tool_name "", named)
      ],
)

module _ (dumps : Fields → String) (transient_search : String → Bool) (patches : Dict Blueprint)
    (original_inputs : Dict (Option Fields)) where
  -- The step failed for a lasting reason.
  abbrev pub KnownBad : StepEvidence → Type 0
  KnownBad ev =
      ((ev.exec_state ≡ "unsuccessful") ⊎ (ev.exec_state ≡ "failed"))
      × (is_transient dumps transient_search ev.error ≡ false)

  -- The patch has another tool, or an input other than the one that is known to have failed.
  pub IsOther : StepEvidence → Blueprint → Option (Option Fields) → Type 0
  IsOther ev p original =
      (p.tool_name ≢ "")
      × ((p.tool_name ≢ ev.tool_name)
          ⊎ ((input : Fields) × (original ≡ some (some input)) × (dumps p.input ≢ dumps input)))

  -- The revision has another action for the step.
  abbrev pub IsAddressed : String → StepEvidence → Type 0
  IsAddressed sid ev =
      (p : Blueprint) × (lookup sid patches ≡ some p) × IsOther ev p (lookup sid original_inputs)

  repeats-false :
      (ev : StepEvidence) (p : Blueprint) (original : Option (Option Fields))
      → repeats dumps transient_search ev p original ≡ false
      → IsOther ev p original
  unfolding repeats IsOther
  repeats-false ev p original h = elim (Bool-cases (p.tool_name == "")) [
    | inl empty ↦ absurd (false≢true (sym h ∙ empty_repeats original empty))
    | inr named ↦ (
      λ e. ground (arith, eq_iff p.tool_name ""),
      elim (Bool-cases (p.tool_name == ev.tool_name)) [
        | inl same ↦ inr (other_input original h named same)
        | inr other ↦ inl (λ e. ground (arith, eq_iff p.tool_name ev.tool_name))
      ],
    )
  ]
    where
      empty_repeats :
          (original : Option (Option Fields))
          → (p.tool_name == "") ≡ true
          → repeats dumps transient_search ev p original ≡ true
      empty_repeats none e = ground arith
      empty_repeats (some none) e = ground arith
      empty_repeats (some (some i)) e = ground arith

      other_input :
          (original : Option (Option Fields))
          → repeats dumps transient_search ev p original ≡ false
          → (p.tool_name == "") ≡ false
          → (p.tool_name == ev.tool_name) ≡ true
          → (input : Fields) × (original ≡ some (some input)) × (dumps p.input ≢ dumps input)
      other_input none h n s = ground arith
      other_input (some none) h n s = ground arith
      other_input (some (some i)) h n s =
          (i, refl, λ e. ground (arith, eq_iff (dumps p.input) (dumps i)))

  other-repeats :
      (ev : StepEvidence) (p : Blueprint) (original : Option (Option Fields))
      → IsOther ev p original
      → repeats dumps transient_search ev p original ≡ false
  unfolding repeats IsOther
  other-repeats ev p original (named, inl other) =
      ground (arith, eq_iff p.tool_name "", named, eq_iff p.tool_name ev.tool_name, other)
  other-repeats ev p original (named, inr (i, known, differs)) =
      rw (known, repeats)
        (ground (arith, eq_iff p.tool_name "", named, eq_iff (dumps p.input) (dumps i), differs))

  addressed :
      (sid : String) (ev : StepEvidence)
      → is_unresolved dumps transient_search patches original_inputs sid ev ≡ false
      → KnownBad ev
      → IsAddressed sid ev
  unfolding is_unresolved IsOther
  addressed sid ev h (failed, lasting) = elim (Option-cases (lookup sid patches)) [
    | inl absent ↦ absurd (unless failed (λ e. ground arith))
    | inr (p, found) ↦ (
      p,
      found,
      repeats-false ev p (lookup sid original_inputs) (unless failed (λ e. ground arith)),
    )
  ]
    where
      unless :
          {P : Type 0}
          → (ev.exec_state ≡ "unsuccessful") ⊎ (ev.exec_state ≡ "failed")
          → ((ev.exec_state == "unsuccessful" || ev.exec_state == "failed") ≡ true → P)
          → P
      unless (inl e) k = k (ground (arith, eq_iff ev.exec_state "unsuccessful"))
      unless (inr e) k = k (ground (arith, eq_iff ev.exec_state "failed"))

  resolved :
      (sid : String) (ev : StepEvidence)
      → (KnownBad ev → IsAddressed sid ev)
      → is_unresolved dumps transient_search patches original_inputs sid ev ≡ false
  unfolding is_unresolved IsOther
  resolved sid ev h =
      elim (Bool-cases (ev.exec_state == "unsuccessful" || ev.exec_state == "failed")) [
        | inr fine ↦ ground arith
        | inl failed ↦ elim (Bool-cases (is_transient dumps transient_search ev.error)) [
          | inl passing ↦ ground arith
          | inr lasting ↦
              let (p, found, other) = h (which failed, lasting) in
              ground (arith, found, other-repeats ev p (lookup sid original_inputs) other)
        ]
      ]
    where
      which :
          (ev.exec_state == "unsuccessful" || ev.exec_state == "failed") ≡ true
          → (ev.exec_state ≡ "unsuccessful") ⊎ (ev.exec_state ≡ "failed")
      which e = elim (Bool-cases (ev.exec_state == "unsuccessful")) [
        | inl u ↦ inl ((eq_iff ev.exec_state "unsuccessful").0 u)
        | inr n ↦ inr ((eq_iff ev.exec_state "failed").0 (ground arith))
      ]

  -- No step is left.
  pub AllAddressed : Evidence → Type 0
  AllAddressed m =
      (sid : String) (ev : StepEvidence) → In (sid, ev) m → KnownBad ev → IsAddressed sid ev

  unresolved-nil :
      (m : Evidence)
      → unresolved_from dumps transient_search patches original_inputs m ≡ []
      → AllAddressed m
  unfolding unresolved_from AllAddressed
  unresolved-nil [] h sid ev i = elim i [ ]
  unresolved-nil ((k, w) ∷ m) h sid ev here = addressed sid ev (ground arith)
  unresolved-nil ((k, w) ∷ m) h sid ev (there i) = unresolved-nil m (ground arith) sid ev i

  nil-unresolved :
      (m : Evidence)
      → AllAddressed m
      → unresolved_from dumps transient_search patches original_inputs m ≡ []
  unfolding unresolved_from AllAddressed
  nil-unresolved [] h = refl
  nil-unresolved ((k, w) ∷ m) h =
      ground (arith, resolved k w (h k w here), nil-unresolved m (λ s e i. h s e (there i)))

length-nil : (xs ys : List String) → length xs ≡ length ys → xs ≡ [] → ys ≡ []
length-nil xs [] h e = refl
length-nil [] (y ∷ ys) h e = cc
length-nil (x ∷ xs) (y ∷ ys) h e = cc

-- If sorting keeps the length, a revision leaves no known-bad step exactly if every step of the
-- evidence that failed for a lasting reason is in the revision with a tool, and with another tool or
-- with an input that prints differently from the known input that failed.
pub unresolved_known_bad_steps-nil_iff :
    (dumps : Fields → String) (transient_search : String → Bool)
    (sorted : List String → List String) (m : Evidence) (patch_steps : List Blueprint)
    (original_inputs : Dict (Option Fields))
    → ((xs : List String) → length (sorted xs) ≡ length xs)
    → (unresolved_known_bad_steps dumps transient_search sorted m patch_steps original_inputs ≡ [])
      ↔ AllAddressed dumps transient_search (patch_by_id [] patch_steps) original_inputs m
unfolding unresolved_known_bad_steps
unresolved_known_bad_steps-nil_iff dumps transient_search sorted m patch_steps original_inputs
      keeps =
    let patches = patch_by_id [] patch_steps in
    let left = unresolved_from dumps transient_search patches original_inputs m in
    (
      λ h.
          unresolved-nil dumps transient_search patches original_inputs m
            (length-nil (sorted left) left (keeps left) h),
      λ h.
          length-nil left (sorted left) (sym (keeps left))
            (nil-unresolved dumps transient_search patches original_inputs m h),
    )
