-- ===== src/Accountable/Steps.antt =====
-- What one call of `applyCommand` in internal/accountable/server.go does to one filing: nothing, or
-- one legal move.
use mathlib.Core.Option
use mathlib.Core.Option.{some-injective}
use dbos_conformance.Common.{
  String, ℤ, true, false, none, some, List, ◌==◌, ◌≡◌, refl, sym, subst, ap₂, subst₂, arith, eq_iff,
  int_beq_iff, string_eq, int_eq, nat_eq, Bool-cases, Option-cases, inl, inr, ap, ◌∙◌, lookup,
  Result,
}
use dbos_conformance.Domain.{state_submitting}
use dbos_conformance.Accountable.Command.{
  CommandRequest, CommandResult, Error, prepare, command_transitions, command_allows_state,
}
use dbos_conformance.Accountable.Tables.{FilingRow, Db, is_filing, find_filing, taken_elsewhere}
use dbos_conformance.Accountable.Tables.Laws.{find_filing-key, find_filing-update_where, updated}
use dbos_conformance.Accountable.Apply.{
  Faults, may_prepare, mark_filing, prepare_filing, apply_command,
}
use dbos_conformance.Accountable.First.{Move, prepared, marked}
use dbos_conformance.Accountable.Outcome.{Outcome, failed, replayed, applied, apply_command-Outcome}

-- What one call does to one filing.
pub data FilingStep (now : ℤ) (req : CommandRequest) (fs : List FilingRow) (f f' : FilingRow)
    : Type 0 where
  untouched : f' ≡ f → FilingStep now req fs f f'
  intended :
      req.command_type ≡ prepare
      → (req.provider_operation_id == "") ≡ false
      → may_prepare req f ≡ true
      → taken_elsewhere req.provider_operation_id req.filing_id req.tax_year fs ≡ false
      → f' ≡ prepare_filing now state_submitting req.provider_operation_id f
      → FilingStep now req fs f f'
  reached :
      (new_state : String)
      → is_filing req.filing_id req.tax_year f ≡ true
      → (req.command_type == prepare) ≡ false
      → lookup req.command_type command_transitions ≡ some new_state
      → command_allows_state req.command_type f.state ≡ true
      → f' ≡ mark_filing now new_state f
      → FilingStep now req fs f f'

module _ (now : ℤ) (req : CommandRequest) (id : String) (year : ℤ) where
  same_filing :
      (f g : FilingRow) (fs : List FilingRow)
      → find_filing id year fs ≡ some f
      → is_filing req.filing_id req.tax_year f ≡ true
      → find_filing req.filing_id req.tax_year fs ≡ some g
      → g ≡ f
  same_filing f g fs found here there =
      let (a, b) = find_filing-key id year fs found in
      let e₁ : req.filing_id ≡ id = ground (arith, eq_iff f.filing_id req.filing_id) in
      let e₂ : req.tax_year ≡ year = ground (arith, int_beq_iff f.tax_year req.tax_year) in
      some-injective g f (sym there ∙ ap₂ (λ i y. find_filing i y fs) e₁ e₂ ∙ found)

  mark_step :
      (new_state : String) (f g : FilingRow) (fs : List FilingRow)
      → lookup req.command_type command_transitions ≡ some new_state
      → (req.command_type == prepare) ≡ false
      → find_filing id year fs ≡ some f
      → find_filing req.filing_id req.tax_year fs ≡ some g
      → command_allows_state req.command_type g.state ≡ true
      → FilingStep now req fs f
          (updated (is_filing req.filing_id req.tax_year) (mark_filing now new_state) f)
  mark_step new_state f g fs leads other found there allowed =
      elim (Bool-cases (is_filing req.filing_id req.tax_year f)) [
        | inl here ↦ rw here (
            reached new_state here other leads
              (subst (λ (r : FilingRow). command_allows_state req.command_type r.state ≡ true)
                (same_filing f g fs found here there) allowed)
              refl)
        | inr elsewhere ↦ rw elsewhere (untouched refl)
      ]

  prepare_leads :
      (new_state : String)
      → req.command_type ≡ prepare
      → lookup req.command_type command_transitions ≡ some new_state
      → state_submitting ≡ new_state
  unfolding lookup
  prepare_leads new_state is_prepare leads =
      some-injective _ _
        (subst (λ c. lookup c command_transitions ≡ some new_state) is_prepare leads)

  prepare_step :
      (f : FilingRow) (fs : List FilingRow)
      → req.command_type ≡ prepare
      → (req.provider_operation_id == "") ≡ false
      → taken_elsewhere req.provider_operation_id req.filing_id req.tax_year fs ≡ false
      → FilingStep now req fs f (
          updated
            (may_prepare req)
            (prepare_filing now state_submitting req.provider_operation_id)
            f)
  prepare_step f fs is_prepare given free = elim (Bool-cases (may_prepare req f)) [
    | inl here ↦ rw here (intended is_prepare given here free refl)
    | inr elsewhere ↦ rw elsewhere (untouched refl)
  ]

  Move-step :
      (new_state operation : String) (f g : FilingRow) {fs fs' : List FilingRow}
      → lookup req.command_type command_transitions ≡ some new_state
      → find_filing id year fs ≡ some f
      → find_filing req.filing_id req.tax_year fs ≡ some g
      → command_allows_state req.command_type g.state ≡ true
      → Move now req new_state operation fs fs'
      → (f' : FilingRow) × (find_filing id year fs' ≡ some f') × FilingStep now req fs f f'
  Move-step new_state operation f g {fs} leads found there allowed
        (prepared is_prepare given op _ free after) =
      let to : state_submitting ≡ new_state = prepare_leads new_state is_prepare leads in
      (
        _,
        ap (find_filing id year) after
            ∙ find_filing-update_where (may_prepare req) (prepare_filing now new_state operation) id
                year fs (λ r. (refl, refl))
            ∙ ap (Option.map (updated (may_prepare req) (prepare_filing now new_state operation)))
                found,
        subst₂
            (λ n o. FilingStep now req fs f (updated (may_prepare req) (prepare_filing now n o) f))
            to (sym op)
            (prepare_step f fs is_prepare given
              (subst (λ o. taken_elsewhere o req.filing_id req.tax_year fs ≡ false) op free)),
      )
  Move-step new_state operation f g {fs} leads found there allowed (marked other after) = (
    _,
    ap (find_filing id year) after
        ∙ find_filing-update_where _ (mark_filing now new_state) id year fs (λ r. (refl, refl))
        ∙ ap (Option.map (updated _ (mark_filing now new_state))) found,
    mark_step new_state f g fs leads other found there allowed,
  )

  Outcome-step :
      (f : FilingRow) (db : Db) {answer : Result Error CommandResult} {db' : Db}
      → Outcome now req db answer db'
      → find_filing id year db.filings ≡ some f
      → (f' : FilingRow) × (find_filing id year db'.filings ≡ some f')
        × FilingStep now req db.filings f f'
  Outcome-step f db (failed e told same) found =
      (f, ap (λ (d : Db). find_filing id year d.filings) same ∙ found, untouched refl)
  Outcome-step f db (replayed res r told) found =
      (f, ap (λ (d : Db). find_filing id year d.filings) r.counted ∙ found, untouched refl)
  Outcome-step f db (applied res new_state leads fresh first told) found =
      Move-step new_state first.operation f first.filing leads found first.found first.allowed
        first.moved

module _ (now : ℤ) (req : CommandRequest) (id : String) (year : ℤ) (db : Db) where
  Move-none :
      (new_state operation : String) {fs fs' : List FilingRow}
      → Move now req new_state operation fs fs'
      → find_filing id year fs ≡ none
      → find_filing id year fs' ≡ none
  Move-none new_state operation {fs} (prepared _ _ _ _ _ after) missing =
      ap (find_filing id year) after
      ∙ find_filing-update_where (may_prepare req) (prepare_filing now new_state operation) id year
          fs (λ r. (refl, refl))
      ∙ ap (Option.map _) missing
  Move-none new_state operation {fs} (marked _ after) missing =
      ap (find_filing id year) after
      ∙ find_filing-update_where (is_filing req.filing_id req.tax_year) (mark_filing now new_state)
          id year fs (λ r. (refl, refl))
      ∙ ap (Option.map _) missing

  -- No command creates a filing.
  Outcome-none :
      {answer : Result Error CommandResult} {db' : Db}
      → Outcome now req db answer db'
      → find_filing id year db.filings ≡ none
      → find_filing id year db'.filings ≡ none
  Outcome-none (failed e told same) missing =
      ap (λ (d : Db). find_filing id year d.filings) same ∙ missing
  Outcome-none (replayed res r told) missing =
      ap (λ (d : Db). find_filing id year d.filings) r.counted ∙ missing
  Outcome-none (applied res new_state leads fresh first told) missing =
      Move-none new_state first.operation first.moved missing

-- One call, whatever fails in it, leaves every filing in place and moves it by at most one step.
pub apply_command-FilingStep :
    (faults : Faults) (now : ℤ) (req : CommandRequest) (db : Db) (id : String) (year : ℤ)
    (f : FilingRow)
    → find_filing id year db.filings ≡ some f
    → (f' : FilingRow) × (find_filing id year (apply_command faults now req db).1.filings ≡ some f')
      × FilingStep now req db.filings f f'
apply_command-FilingStep faults now req db id year f found =
    Outcome-step now req id year f db (apply_command-Outcome faults now req db) found

-- What a call leaves was there before it, and made at most one step.
pub apply_command-before :
    (faults : Faults) (now : ℤ) (req : CommandRequest) (db : Db) (id : String) (year : ℤ)
    (f' : FilingRow)
    → find_filing id year (apply_command faults now req db).1.filings ≡ some f'
    → (f : FilingRow) × (find_filing id year db.filings ≡ some f)
      × FilingStep now req db.filings f f'
apply_command-before faults now req db id year f' found =
    elim (Option-cases (find_filing id year db.filings)) [
      | inl missing ↦ absurd (
          ground (
            arith,
            Outcome-none now req id year db (apply_command-Outcome faults now req db) missing,
          ))
      | inr (f, there) ↦
          let (f'', found'', step) = apply_command-FilingStep faults now req db id year f there in
          (
            f,
            there,
            subst (FilingStep now req db.filings f) (some-injective f'' f' (sym found'' ∙ found))
                step,
          )
    ]
