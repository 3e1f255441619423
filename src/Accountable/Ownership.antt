-- ===== src/Accountable/Ownership.antt =====
-- The unique index on the operation IDs of internal/accountable/server.go, as the update keeps it.
use mathlib.Core.Option.{some-injective}
use dbos_conformance.Common.{
  String, ℤ, true, false, none, some, List, ◌≡◌, refl, sym, subst, arith, eq_iff, eq_refl,
  int_beq_iff, string_eq, int_eq, nat_eq, Bool-cases, Option-cases, inl, inr, ap, ◌∙◌, ◌⊎◌,
}
use dbos_conformance.Domain.{state_ready}
use dbos_conformance.Accountable.Command.{CommandRequest}
use dbos_conformance.Accountable.Tables.{
  FilingRow, Db, is_filing, find_filing, holds, taken_elsewhere,
}
use dbos_conformance.Accountable.Tables.Laws.{
  find_filing-key, taken_elsewhere-find_filing, find_filing-update_where,
}
use dbos_conformance.Accountable.Apply.{Faults, may_prepare, apply_command}
use dbos_conformance.Accountable.Steps.{
  FilingStep, untouched, intended, reached, apply_command-before,
}
use dbos_conformance.Accountable.Handlers.{upsert_filing, reset_filing}

-- No two filings share an operation ID.
abbrev pub OwnOperations : List FilingRow → Type 0
OwnOperations fs =
    (id : String) (year : ℤ) (other : String) (other_year : ℤ) (f g : FilingRow)
    (operation : String)
    → find_filing id year fs ≡ some f
    → find_filing other other_year fs ≡ some g
    → f.provider_operation_id ≡ some operation
    → g.provider_operation_id ≡ some operation
    → (id ≡ other) × (year ≡ other_year)

at_request :
    (req : CommandRequest) (id : String) (year : ℤ) (fs : List FilingRow) (f : FilingRow)
    → find_filing id year fs ≡ some f
    → is_filing req.filing_id req.tax_year f ≡ true
    → (id ≡ req.filing_id) × (year ≡ req.tax_year)
at_request req id year fs f found h =
    let (a, b) = find_filing-key id year fs found in
    (
      ground (arith, eq_iff f.filing_id req.filing_id),
      ground (arith, int_beq_iff f.tax_year req.tax_year),
    )

-- Where the operation ID of a filing comes from: it had it, or the call gave it.
data Origin (req : CommandRequest) (fs : List FilingRow) (operation : String) (f : FilingRow)
    : Type 0 where
  had : f.provider_operation_id ≡ some operation → Origin req fs operation f
  given :
      is_filing req.filing_id req.tax_year f ≡ true
      → taken_elsewhere operation req.filing_id req.tax_year fs ≡ false
      → Origin req fs operation f

step-Origin :
    (now : ℤ) (req : CommandRequest) (fs : List FilingRow) (operation : String) (f f' : FilingRow)
    → FilingStep now req fs f f'
    → f'.provider_operation_id ≡ some operation
    → Origin req fs operation f
unfolding may_prepare
step-Origin now req fs operation f f' (untouched e) h = had (ground arith)
step-Origin now req fs operation f f' (intended p non_empty allowed free e) h =
    given (ground arith) (
      subst (λ o. taken_elsewhere o req.filing_id req.tax_year fs ≡ false)
        (some-injective _ _ (sym (ap (λ (r : FilingRow). r.provider_operation_id) e) ∙ h)) free)
step-Origin now req fs operation f f' (reached t allowed other leads from e) h = had (ground arith)

module _ (req : CommandRequest) (operation id : String) (year : ℤ) (other : String) (other_year : ℤ)
    (fs : List FilingRow) (f g : FilingRow) where
  -- A filing that is given the ID is the only one that has it.
  given_alone :
      find_filing id year fs ≡ some f
      → find_filing other other_year fs ≡ some g
      → is_filing req.filing_id req.tax_year f ≡ true
      → taken_elsewhere operation req.filing_id req.tax_year fs ≡ false
      → Origin req fs operation g
      → (id ≡ other) × (year ≡ other_year)
  given_alone found there here free (had e) =
      elim (Bool-cases (is_filing req.filing_id req.tax_year g)) [
        | inl same ↦
            let (a, b) = at_request req id year fs f found here in
            let (c, d) = at_request req other other_year fs g there same in (a ∙ sym c, b ∙ sym d)
        | inr apart ↦
            let no_holder =
              taken_elsewhere-find_filing operation req.filing_id req.tax_year other other_year fs
                free there apart in
            absurd (ground (arith, eq_refl operation, ap (holds operation) e))
      ]
  given_alone found there here free (given same _) =
      let (a, b) = at_request req id year fs f found here in
      let (c, d) = at_request req other other_year fs g there same in (a ∙ sym c, b ∙ sym d)

own_origins :
    (req : CommandRequest) (operation id : String) (year : ℤ) (other : String) (other_year : ℤ)
    (fs : List FilingRow) (f g : FilingRow)
    → OwnOperations fs
    → find_filing id year fs ≡ some f
    → find_filing other other_year fs ≡ some g
    → Origin req fs operation f
    → Origin req fs operation g
    → (id ≡ other) × (year ≡ other_year)
own_origins req operation id year other other_year fs f g own found there (given here free) o =
    given_alone req operation id year other other_year fs f g found there here free o
own_origins req operation id year other other_year fs f g own found there (had e)
      (given here free) =
    let (a, b) =
      given_alone req operation other other_year id year fs g f there found here free (had e) in
    (sym a, sym b)
own_origins req operation id year other other_year fs f g own found there (had e) (had e') =
    own id year other other_year f g operation found there e e'

pub command-OwnOperations :
    (faults : Faults) (now : ℤ) (req : CommandRequest) (db : Db)
    → OwnOperations db.filings
    → OwnOperations (apply_command faults now req db).1.filings
command-OwnOperations faults now req db own id year other other_year f' g' operation found there e
      e' =
    let (f, before, step) = apply_command-before faults now req db id year f' found in
    let (g, before', step') = apply_command-before faults now req db other other_year g' there in
    own_origins req operation id year other other_year db.filings f g own before before'
      (step-Origin now req db.filings operation f f' step e)
      (step-Origin now req db.filings operation g g' step' e')

pub upsert-find :
    (now : ℤ) (id : String) (year : ℤ) (scenario other : String) (other_year : ℤ)
    (fs : List FilingRow)
    → (g : FilingRow)
    → find_filing other other_year (upsert_filing now id year scenario fs) ≡ some g
    → ((g.state ≡ state_ready) × (g.provider_operation_id ≡ none))
      ⊎ (find_filing other other_year fs ≡ some g)
unfolding upsert_filing find_filing
upsert-find now id year scenario other other_year fs g h =
    elim (Option-cases (find_filing id year fs)) [
      | inl e ↦ ground (arith, e)
      | inr (f, e) ↦ ground (
        arith,
        e,
        find_filing-update_where (is_filing id year) (reset_filing now scenario) other other_year fs
            (λ r. (refl, refl)),
      )
    ]

pub upsert-OwnOperations :
    (now : ℤ) (key : String) (key_year : ℤ) (scenario : String) (fs : List FilingRow)
    → OwnOperations fs
    → OwnOperations (upsert_filing now key key_year scenario fs)
upsert-OwnOperations now key key_year scenario fs own id year other other_year f g operation found
      there e e' =
    elim (upsert-find now key key_year scenario id year fs f found) [
      | inl (_, no_id) ↦ absurd (ground arith)
      | inr old ↦ elim (upsert-find now key key_year scenario other other_year fs g there) [
        | inl (_, no_id) ↦ absurd (ground arith)
        | inr old' ↦ own id year other other_year f g operation old old' e e'
      ]
    ]
