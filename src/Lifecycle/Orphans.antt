-- ===== src/Lifecycle/Orphans.antt =====
-- The scan for orphaned runs returns, and ends the runs that it finds active.
use jagent.Base.{
  ℕ, suc, max, String, Bool, true, false, none, List, [], ◌∷◌, ◌++◌, ◌==◌, eq_iff, ◌≡◌, ◌≢◌, refl,
  sym, ap, ◌∙◌, Result, ok, ◌>>=◌, Bool-cases, inl, inr, nat_eq, if◌then◌else◌, In, here, In-filter,
}
use mathlib.Core.Bool.{true≢false}
use jagent.Values.{Value}
use jagent.Plan.{codes}
use jagent.Events.{Event, Payload, RunPayload, RunFailed}
use jagent.RunState.{RunState, RunStatus}
use jagent.Fold.{apply, apply_payload, apply_run, fold_from, fold_events}
use jagent.Fold.Replay.{fold_events-cons_ok_iff, fold_events-append}
use jagent.EventLog.{Request, Store, lookup_key, get_events, of_run, append_event}
use jagent.EventLog.Rows.{WellFormed}
use jagent.EventLog.Commits.{append_event-returns}
use jagent.EventLog.Appends.{get_events-WellFormed, append_event-get_events}
use jagent.EventLog.Later.{append_event-lookup_key, append_event-extends}
use jagent.Lifecycle.{
  ScanError, concat, is_active, append, orphaned_request, failed_request, terminate, mark_run,
  mark_orphans,
}

keys_differ : (run_id : String) → concat "orphan_detect_" run_id ≢ concat "orphan_fail_" run_id
unfolding concat codes
keys_differ run_id e = true≢false (ap (λ t. nat_eq (seventh (codes t)) 100) e)
  where
    seventh : List ℕ → ℕ
    seventh (_ ∷ _ ∷ _ ∷ _ ∷ _ ∷ _ ∷ _ ∷ c ∷ cs) = c
    seventh _ = 0

-- The append gives a store, which is well-formed.
abbrev GivesStore : Result ScanError Store → Type 0
GivesStore a = (t : Store) × (a ≡ ok t) × WellFormed t.rows

append-returns : (r : Request) (s : Store) → WellFormed s.rows → GivesStore (append r s)
unfolding append
append-returns r s w =
    let ((e, answered), after) = append_event-returns r s w in
    ((append_event r s).1, rw (answered, append) refl, after)

terminate-returns :
    (run_id : String) (events : List Event) (s : Store)
    → WellFormed s.rows
    → GivesStore (terminate run_id events s)
unfolding terminate
terminate-returns run_id events s w =
    let (t, first, w_t) = append-returns (orphaned_request run_id events) s w in
    let (u, second, w_u) = append-returns (failed_request run_id events) t w_t in
    (u, ap (λ x. x >>= λ t. append (failed_request run_id events) t) first ∙ second, w_u)

get_events-run_id :
    (run_id : String) (rows : List Event) (e : Event) (es : List Event)
    → WellFormed rows
    → get_events run_id rows ≡ e ∷ es
    → e.run_id ≡ run_id
unfolding of_run
get_events-run_id run_id rows e es w h =
    let same : e ∷ es ≡ of_run run_id rows = sym h ∙ get_events-WellFormed run_id rows w in
    let head : In e (e ∷ es) = here in
    (eq_iff e.run_id run_id).0 (In-filter (λ x. x.run_id == run_id) e rows (rw same at head)).1

-- The events of a run fold.
get_events-fold :
    (repr : Value → String) (run_id : String) (rows : List Event) (e : Event) (es : List Event)
    → WellFormed rows
    → get_events run_id rows ≡ e ∷ es
    → (state : RunState) × (fold_events repr (e ∷ es) ≡ ok state)
unfolding of_run
get_events-fold repr run_id rows e es w h =
    let same : e ∷ es ≡ of_run run_id rows = sym h ∙ get_events-WellFormed run_id rows w in
    let owned : (d : Event) → In d (e ∷ es) → d.run_id ≡ run_id = λ d i.
      (eq_iff d.run_id run_id).0 (In-filter (λ x. x.run_id == run_id) d rows (rw same at i)).1 in
    (fold_events-cons_ok_iff repr e es).1 (λ d i. owned d i ∙ sym (owned e here))

mark_run-returns :
    (repr : Value → String) (run_id : String) (s : Store)
    → WellFormed s.rows
    → (t : Store) × (b : Bool) × (mark_run repr run_id s ≡ ok (t, b)) × WellFormed t.rows
unfolding mark_run
mark_run-returns repr run_id s w = go (get_events run_id s.rows) refl
  where
    go :
        (events : List Event)
        → get_events run_id s.rows ≡ events
        → (t : Store) × (b : Bool) × (mark_run repr run_id s ≡ ok (t, b)) × WellFormed t.rows
    go [] h = (s, false, rw (h, mark_run) refl, w)
    go (e ∷ es) h =
        let (state, folds) = get_events-fold repr run_id s.rows e es w h in
        elim (Bool-cases (is_active state.status)) [
          | inr ended ↦ (s, false, rw (h, mark_run) (rw (folds, ended) refl), w)
          | inl active ↦
              let (t, done, w_t) = terminate-returns run_id (e ∷ es) s w in
              (t, true, rw (h, mark_run) (rw (folds, active, done) refl), w_t)
        ]

-- On a well-formed store the scan returns, whatever runs it is given: no event stream fails to fold
-- and no append fails. The store stays well-formed.
pub mark_orphans-returns :
    (repr : Value → String) (run_ids : List String) (s : Store)
    → WellFormed s.rows
    → (t : Store) × (n : ℕ) × (mark_orphans repr run_ids s ≡ ok (t, n)) × WellFormed t.rows
unfolding mark_orphans
mark_orphans-returns repr [] s w = (s, 0, refl, w)
mark_orphans-returns repr (run_id ∷ run_ids) s w =
    let (t, b, first, w_t) = mark_run-returns repr run_id s w in
    let (u, n, rest, w_u) = mark_orphans-returns repr run_ids t w_t in
    (u, (if b then suc n else n), rw (first, rest) refl, w_u)

append-lem : (r : Request) (s : Store) → WellFormed s.rows → append r s ≡ ok (append_event r s).1
unfolding append
append-lem r s w =
    let ((e, answered), after) = append_event-returns r s w in rw (answered, append) refl

failed-status :
    (repr : Value → String) (f : Event) (p : RunFailed) (s : RunState)
    → f.payload ≡ Payload.run (RunPayload.failed p)
    → (apply repr f s).status ≡ RunStatus.failed
unfolding apply apply_payload apply_run
failed-status repr f p s h =
    ap (λ q. (apply_payload repr q f.seq (record s { seq = max s.seq f.seq })).status) h

-- A stream whose last event says that the run failed folds to a failed run.
fold-failed :
    (repr : Value → String) (e : Event) (xs : List Event) (f : Event) (p : RunFailed)
    (mid : RunState)
    → fold_events repr (e ∷ xs) ≡ ok mid
    → f.run_id ≡ e.run_id
    → f.payload ≡ Payload.run (RunPayload.failed p)
    → (final : RunState) × (fold_events repr (e ∷ (xs ++ f ∷ [])) ≡ ok final)
      × (final.status ≡ RunStatus.failed)
unfolding fold_from
fold-failed repr e xs f p mid folds own payload = (
  apply repr f mid,
  fold_events-append repr e xs (f ∷ [])
      ∙ ap (λ x. x >>= λ s. fold_from repr e.run_id (f ∷ []) s) folds
      ∙ rw ((eq_iff f.run_id e.run_id).1 own) refl,
  failed-status repr f p mid payload,
)

-- If the scan meets, on a well-formed store, a run whose events fold to an active state, and no event of the run has the key of
-- an earlier termination, then it terminates the run: the events of the run then fold to a failed
-- state, and the scan at the next start leaves the run as it is.
pub mark_run-terminates :
    (repr : Value → String) (run_id : String) (s : Store) (e : Event) (es : List Event)
    (state : RunState)
    → WellFormed s.rows
    → get_events run_id s.rows ≡ e ∷ es
    → fold_events repr (e ∷ es) ≡ ok state
    → is_active state.status ≡ true
    → lookup_key (failed_request run_id (e ∷ es)) s.rows ≡ none
    → (t : Store) × (final : RunState) × (mark_run repr run_id s ≡ ok (t, true))
      × (fold_events repr (get_events run_id t.rows) ≡ ok final)
      × (final.status ≡ RunStatus.failed)
      × (mark_run repr run_id t ≡ ok (t, false))
unfolding mark_run terminate is_active orphaned_request failed_request
mark_run-terminates repr run_id s e es state w events folds active unknown =
    let orphaned = orphaned_request run_id (e ∷ es) in
    let failed = failed_request run_id (e ∷ es) in
    let (_, w_mid) = append_event-returns orphaned s w in
    let mid = (append_event orphaned s).1 in
    let (l, extended) = append_event-extends orphaned s w in
    let events_mid : get_events run_id mid.rows ≡ e ∷ (es ++ l) =
      extended ∙ ap (λ x. x ++ l) events in
    let unknown_mid =
      append_event-lookup_key orphaned failed s _ _ w refl refl (keys_differ run_id) unknown in
    let (f, _, f_run, f_payload, _, grown) =
      append_event-get_events failed mid run_id w_mid unknown_mid in
    let t = (append_event failed mid).1 in
    let events_t : get_events run_id t.rows ≡ e ∷ ((es ++ l) ++ f ∷ []) =
      grown ∙ rw ((eq_iff run_id run_id).1 refl) (ap (λ x. x ++ f ∷ []) events_mid) in
    let (folded, folds_mid) = get_events-fold repr run_id mid.rows e (es ++ l) w_mid events_mid in
    let own = get_events-run_id run_id s.rows e es w events in
    let (final, folds_t, status) =
      fold-failed repr e (es ++ l) f _ folded folds_mid (f_run ∙ sym own) f_payload in
    let ended : terminate run_id (e ∷ es) s ≡ ok t =
      ap (λ x. x >>= λ u. append failed u) (append-lem orphaned s w)
      ∙ append-lem failed mid w_mid in
    (
      t,
      final,
      rw (events, mark_run) (rw (folds, active, ended) refl),
      ap (fold_events repr) events_t ∙ folds_t,
      status,
      rw (events_t, mark_run) (rw (folds_t, status) refl),
    )
