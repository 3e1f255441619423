-- ===== src/Accountable/Finality.antt =====
-- Filings under histories of commands: the path of the states, and what stays for good.
use dbos_conformance.Common.{
  String, ℤ, true, some, List, [], ◌∷◌, ◌≡◌, refl, sym, subst, arith, eq_iff, string_eq, int_eq,
  nat_eq, inl, inr, ap, ◌∙◌, ◌⊎◌,
}
use dbos_conformance.Domain.{
  state_ready, state_submitting, state_submitted, state_accepted, state_rejected,
  state_needs_review,
}
use dbos_conformance.Accountable.Command.{CommandRequest}
use dbos_conformance.Accountable.Tables.{FilingRow, Db, find_filing}
use dbos_conformance.Accountable.Apply.{may_prepare, null_or_same}
use dbos_conformance.Accountable.Transitions.{Legal, intent, submit, resolve, allowed-Legal}
use dbos_conformance.Accountable.Steps.{
  FilingStep, untouched, intended, reached, apply_command-FilingStep,
}
use dbos_conformance.Accountable.History.{Call, run_calls}

-- A run of legal moves.
pub data LegalPath (s : String) : String → Type 0 where
  start : LegalPath s s
  next : {t u : String} → LegalPath s t → Legal t u → LegalPath s u

LegalPath-cons : {s t u : String} → (t ≡ s) ⊎ Legal s t → LegalPath t u → LegalPath s u
LegalPath-cons {s} {u = u} (inl e) path = subst (λ v. LegalPath v u) e path
LegalPath-cons {s} (inr move) start = next start move
LegalPath-cons {s} (inr move) (next path last) = next (LegalPath-cons (inr move) path) last

may_prepare-state :
    (req : CommandRequest) (f : FilingRow)
    → may_prepare req f ≡ true
    → ((f.state ≡ state_ready) ⊎ (f.state ≡ state_submitting))
      × (null_or_same req.provider_operation_id f.provider_operation_id ≡ true)
unfolding may_prepare
may_prepare-state req f h =
    (ground (arith, eq_iff f.state state_ready, eq_iff f.state state_submitting), ground arith)

terminal_not_open :
    (s : String)
    → (s ≡ state_accepted) ⊎ (s ≡ state_rejected)
    → ¬ (
        (s ≡ state_ready)
        ⊎ ((s ≡ state_submitting) ⊎ ((s ≡ state_submitted) ⊎ (s ≡ state_needs_review))))
terminal_not_open s h o = ground (
  arith,
  eq_iff state_accepted state_ready,
  eq_iff state_accepted state_submitting,
  eq_iff state_accepted state_submitted,
  eq_iff state_accepted state_needs_review,
  eq_iff state_rejected state_ready,
  eq_iff state_rejected state_submitting,
  eq_iff state_rejected state_submitted,
  eq_iff state_rejected state_needs_review,
)

-- Nothing leads out of a terminal state.
not-Legal_final : (s t : String) → (s ≡ state_accepted) ⊎ (s ≡ state_rejected) → ¬ Legal s t
not-Legal_final s t h (intent from to) = terminal_not_open s h (ground arith)
not-Legal_final s t h (submit from to) = terminal_not_open s h (inr (inl from))
not-Legal_final s t h (resolve from to) = terminal_not_open s h (inr from)

module _ (now : ℤ) (req : CommandRequest) (fs : List FilingRow) (f f' : FilingRow) where
  -- A step stays in the state or makes a legal move.
  pub FilingStep-Legal : FilingStep now req fs f f' → (f'.state ≡ f.state) ⊎ Legal f.state f'.state
  FilingStep-Legal (untouched e) = inl (ap (λ (r : FilingRow). r.state) e)
  FilingStep-Legal (intended p given here free e) =
      inr (intent (may_prepare-state req f here).0 (ap (λ (r : FilingRow). r.state) e))
  FilingStep-Legal (reached t here other leads allowed e) = inr (
      subst (Legal f.state) (sym (ap (λ (r : FilingRow). r.state) e))
        (allowed-Legal req.command_type f.state t leads allowed))

  -- A step does not change an operation ID that is set.
  pub FilingStep-operation :
      (operation : String)
      → FilingStep now req fs f f'
      → f.provider_operation_id ≡ some operation
      → f'.provider_operation_id ≡ some operation
  FilingStep-operation operation (untouched e) h =
      ap (λ (r : FilingRow). r.provider_operation_id) e ∙ h
  FilingStep-operation operation (intended p given here free e) h =
      ground (arith, (may_prepare-state req f here).1, eq_iff operation req.provider_operation_id)
  FilingStep-operation operation (reached t here other leads allowed e) h =
      ap (λ (r : FilingRow). r.provider_operation_id) e ∙ h

  pub FilingStep-final :
      FilingStep now req fs f f' → (f.state ≡ state_accepted) ⊎ (f.state ≡ state_rejected) → f' ≡ f
  FilingStep-final (untouched e) h = e
  FilingStep-final (intended p given here free e) h =
      absurd
        (not-Legal_final f.state state_submitting h (intent (may_prepare-state req f here).0 refl))
  FilingStep-final (reached t here other leads allowed e) h =
      absurd (not-Legal_final f.state t h (allowed-Legal req.command_type f.state t leads allowed))

-- A history keeps a filing on a legal path, and an operation ID that is set.
run_calls-LegalPath :
    (cs : List Call) (db : Db) (id : String) (year : ℤ) (f : FilingRow)
    → find_filing id year db.filings ≡ some f
    → (f' : FilingRow) × (find_filing id year (run_calls cs db).filings ≡ some f')
      × LegalPath f.state f'.state
      × ((operation : String)
          → f.provider_operation_id ≡ some operation
          → f'.provider_operation_id ≡ some operation)
unfolding run_calls
run_calls-LegalPath [] db id year f found = (f, found, start, λ o h. h)
run_calls-LegalPath (c ∷ cs) db id year f found =
    let (g, found', step) = apply_command-FilingStep c.faults c.now c.request db id year f found in
    let (f', found'', path, same) = run_calls-LegalPath cs _ id year g found' in
    (
      f',
      found'',
      LegalPath-cons (FilingStep-Legal c.now c.request db.filings f g step) path,
      λ o h. same o (FilingStep-operation c.now c.request db.filings f g o step h),
    )

-- The state of a filing after any history of commands, with any faults, is reached from its state
-- before by legal moves only.
pub legal_history :
    (cs : List Call) (db : Db) (id : String) (year : ℤ) (f : FilingRow)
    → find_filing id year db.filings ≡ some f
    → (f' : FilingRow) × (find_filing id year (run_calls cs db).filings ≡ some f')
      × LegalPath f.state f'.state
legal_history cs db id year f found =
    let (f', found', path, same) = run_calls-LegalPath cs db id year f found in (f', found', path)

-- The operation ID of a filing, once set, is the same after any history of commands, with any faults.
pub operation_id_is_kept :
    (cs : List Call) (db : Db) (id : String) (year : ℤ) (f : FilingRow) (operation : String)
    → find_filing id year db.filings ≡ some f
    → f.provider_operation_id ≡ some operation
    → (f' : FilingRow) × (find_filing id year (run_calls cs db).filings ≡ some f')
      × (f'.provider_operation_id ≡ some operation)
operation_id_is_kept cs db id year f operation found held =
    let (f', found', path, same) = run_calls-LegalPath cs db id year f found in
    (f', found', same operation held)

-- An accepted or rejected filing is final: no history of commands, with any faults, changes its row.
pub final_filing :
    (cs : List Call) (db : Db) (id : String) (year : ℤ) (f : FilingRow)
    → find_filing id year db.filings ≡ some f
    → (f.state ≡ state_accepted) ⊎ (f.state ≡ state_rejected)
    → find_filing id year (run_calls cs db).filings ≡ some f
unfolding run_calls
final_filing [] db id year f found h = found
final_filing (c ∷ cs) db id year f found h =
    let (f', found', step) = apply_command-FilingStep c.faults c.now c.request db id year f found in
    final_filing cs _ id year f
      (found' ∙ ap some (FilingStep-final c.now c.request db.filings f f' step h)) h
