-- ===== src/Layers/Agree.antt =====
-- When the evidence of a run agrees with the results that the executor holds.
use jagent.Base.{
  ℕ, suc, ◌+◌, String, Bool, true, false, ◌||◌, some, List, [], ◌∷◌, ◌++◌, ◌==◌, eq_iff, Dict,
  lookup, insert, lookup-insert, ◌≡◌, refl, ap, arith, Bool-cases, inl, inr, length,
}
use jagent.Steps.{ExecState, StepResult}
use jagent.Events.{StepPayload}
use jagent.Evidence.{Evidence, StepEvidence, step_evidence}
use jagent.Fold.Finished.{HasState}

-- The value of the `str` enum ExecState.
unfoldable pub state_text : ExecState → String
state_text ExecState.pending = "pending"
state_text ExecState.running = "running"
state_text ExecState.completed = "completed"
state_text ExecState.unsuccessful = "unsuccessful"
state_text ExecState.failed = "failed"
state_text ExecState.skipped = "skipped"
state_text ExecState.idempotent = "idempotent"
state_text ExecState.cancelled = "cancelled"

-- The step has ended one way or another.
unfoldable pub is_settled : ExecState → Bool
is_settled ExecState.pending = false
is_settled ExecState.running = false
is_settled _ = true

-- The evidence after the events of a layer, which get consecutive sequence numbers.
unfoldable pub evidence_after : List StepPayload → ℕ → Evidence → Evidence
evidence_after [] seq m = m
evidence_after (p ∷ ps) seq m = evidence_after ps (suc seq) (step_evidence p seq m)

-- Each settled result has its state in the evidence.
abbrev pub Synced : Evidence → Dict StepResult → Type 0
Synced m results =
    (sid : String) (r : StepResult)
    → lookup sid results ≡ some r
    → is_settled r.exec_state ≡ true
    → HasState sid (state_text r.exec_state) m

pub evidence_after-snoc :
    (ps : List StepPayload) (p : StepPayload) (seq : ℕ) (m : Evidence)
    → evidence_after (ps ++ p ∷ []) seq m
      ≡ step_evidence p (length ps + seq) (evidence_after ps seq m)
unfolding evidence_after
evidence_after-snoc [] p seq m = ap (λ n. step_evidence p n m) (omega arith)
evidence_after-snoc (q ∷ ps) p seq m =
    rw (evidence_after-snoc ps p (suc seq) (step_evidence q seq m)) (
      ap (λ n. step_evidence p n (evidence_after ps (suc seq) (step_evidence q seq m)))
        (omega arith))

pub insert-Synced :
    (sid : String) (r : StepResult) (ev : StepEvidence) (m : Evidence) (results : Dict StepResult)
    → (is_settled r.exec_state ≡ true → ev.exec_state ≡ state_text r.exec_state)
    → Synced m results
    → Synced (insert sid ev m) (insert sid r results)
insert-Synced sid r ev m results h synced k q found settled = elim (Bool-cases (sid == k)) [
  | inl own ↦
      let same : q ≡ r = ground (arith, lookup-insert sid k r results) in
      (ev, ground (arith, lookup-insert sid k ev m), rw same (h (rw same at settled)))
  | inr other ↦
      let (old, there_is, state) =
        synced k q (ground (arith, lookup-insert sid k r results)) settled in
      (old, ground (arith, lookup-insert sid k ev m), state)
]

-- An evidence record for another state of the same step, where the result stays.
pub restate-Synced :
    (sid : String) (ev : StepEvidence) (m : Evidence) (results : Dict StepResult)
    → ((state : ExecState)
        → is_settled state ≡ true
        → HasState sid (state_text state) m
        → ev.exec_state ≡ state_text state)
    → Synced m results
    → Synced (insert sid ev m) results
restate-Synced sid ev m results h synced k q found settled =
    let old = synced k q found settled in
    elim (Bool-cases (sid == k)) [
      | inl own ↦ (
        ev,
        ground (arith, lookup-insert sid k ev m),
        h q.exec_state settled (rw ((eq_iff sid k).0 own) old),
      )
      | inr other ↦ (old.0, ground (arith, lookup-insert sid k ev m, old.1), old.2)
    ]

pub settled_text :
    (state : ExecState)
    → is_settled state ≡ true
    → ((state_text state == "pending") || (state_text state == "")) ≡ false
unfolding is_settled state_text
settled_text ExecState.pending h = cc
settled_text ExecState.running h = cc
settled_text _ h = refl
