-- ===== src/Accountable/Grounds.antt =====
-- Where the final states of internal/accountable/server.go come from: a filing is accepted or rejected
-- only by the command for it.
use mathlib.Core.Option.{some-injective}
use dbos_conformance.Common.{
  String, ℤ, some, List, [], ◌∷◌, ◌≡◌, sym, subst, ◌∙◌, arith, eq_iff, int_beq_iff, string_eq,
  int_eq, lookup, All,
}
use dbos_conformance.Domain.{
  state_submitting, state_submitted, state_accepted, state_rejected, state_needs_review,
}
use dbos_conformance.Accountable.Command.{
  CommandRequest, mark_submitted, mark_accepted, mark_rejected, prepare, command_transitions,
}
use dbos_conformance.Accountable.Tables.{FilingRow, Db, find_filing}
use dbos_conformance.Accountable.Apply.{apply_command}
use dbos_conformance.Accountable.Tables.Laws.{find_filing-key}
use dbos_conformance.Accountable.Steps.{
  FilingStep, untouched, intended, reached, apply_command-FilingStep,
}
use dbos_conformance.Accountable.History.{Call, run_calls}

module _ (type state : String) (leads : lookup type command_transitions ≡ some state) where
  leads-accepted : state ≡ state_accepted → type ≡ mark_accepted
  unfolding lookup
  leads-accepted is = ground (
    arith,
    eq_iff prepare type,
    eq_iff mark_submitted type,
    eq_iff mark_accepted type,
    eq_iff state_submitting state_accepted,
    eq_iff state_submitted state_accepted,
    eq_iff state_rejected state_accepted,
    eq_iff state_needs_review state_accepted,
  )

  leads-rejected : state ≡ state_rejected → type ≡ mark_rejected
  unfolding lookup
  leads-rejected is = ground (
    arith,
    eq_iff prepare type,
    eq_iff mark_submitted type,
    eq_iff mark_rejected type,
    eq_iff state_submitting state_rejected,
    eq_iff state_submitted state_rejected,
    eq_iff state_accepted state_rejected,
    eq_iff state_needs_review state_rejected,
  )

-- `P` holds of the state if it is final.
abbrev pub WhereFinal : (String → Type 0) → String → Type 0
WhereFinal P state =
    (state ≡ state_accepted → P state_accepted) × (state ≡ state_rejected → P state_rejected)

-- A command for the filing that accepts or rejects it is sent only if `P` holds of that state.
abbrev pub Warranted : String → ℤ → (String → Type 0) → CommandRequest → Type 0
Warranted id year P req =
    req.filing_id ≡ id
    → req.tax_year ≡ year
    → (req.command_type ≡ mark_accepted → P state_accepted)
      × (req.command_type ≡ mark_rejected → P state_rejected)

module _ (id : String) (year : ℤ) (P : String → Type 0) where
  FilingStep-WhereFinal :
      (now : ℤ) (req : CommandRequest) (fs : List FilingRow) (f f' : FilingRow)
      → find_filing id year fs ≡ some f
      → Warranted id year P req
      → WhereFinal P f.state
      → FilingStep now req fs f f'
      → WhereFinal P f'.state
  FilingStep-WhereFinal now req fs f f' found warranted final (untouched e) = rw e final
  FilingStep-WhereFinal now req fs f f' found warranted final (intended p given here free e) =
      rw e (
        λ h. ground (arith, eq_iff state_submitting state_accepted),
        λ h. ground (arith, eq_iff state_submitting state_rejected),
      )
  FilingStep-WhereFinal now req fs f f' found warranted final
        (reached t here other leads allowed e) =
      let (same_id, same_year) = find_filing-key id year fs found in
      let its_id : req.filing_id ≡ id = ground (arith, eq_iff f.filing_id req.filing_id) in
      let its_year : req.tax_year ≡ year = ground (arith, int_beq_iff f.tax_year req.tax_year) in
      let (as_accepted, as_rejected) = warranted its_id its_year in
      rw e (
        λ h. as_accepted (leads-accepted req.command_type t leads h),
        λ h. as_rejected (leads-rejected req.command_type t leads h),
      )

  -- What is true of a filing wherever it is final stays so through commands that warrant it.
  pub run_calls-WhereFinal :
      (cs : List Call) (db : Db) (f f' : FilingRow)
      → All (λ c. Warranted id year P c.request) cs
      → find_filing id year db.filings ≡ some f
      → WhereFinal P f.state
      → find_filing id year (run_calls cs db).filings ≡ some f'
      → WhereFinal P f'.state
  unfolding run_calls
  run_calls-WhereFinal [] db f f' warranted found final found' =
      let same : f ≡ f' = some-injective f f' (sym found ∙ found') in
      subst (λ (r : FilingRow). WhereFinal P r.state) same final
  run_calls-WhereFinal (c ∷ cs) db f f' (first, rest) found final found' =
      let (g, there, step) = apply_command-FilingStep c.faults c.now c.request db id year f found in
      run_calls-WhereFinal cs (apply_command c.faults c.now c.request db).1 g f' rest there
        (FilingStep-WhereFinal c.now c.request db.filings f g found first final step) found'
