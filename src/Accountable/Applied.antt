-- ===== src/Accountable/Applied.antt =====
-- Exactly which commands `applyCommand` of internal/accountable/server.go carries out.
use mathlib.Core.Option
use dbos_conformance.Common.{
  subst₂, ℤ, String, true, false, none, some, List, ◌==◌, ◌≡◌, ◌≢◌, refl, sym, subst, ◌∙◌, ap, inl,
  inr, ◌⊎◌, ◌↔◌, arith, eq_iff, string_eq, int_eq, nat_eq, lookup, Option, Bool-cases,
}
use dbos_conformance.Domain.{state_ready, state_submitting}
use dbos_conformance.Accountable.Command.{
  CommandRequest, CommandResult, prepare, command_transitions, command_allows_state,
}
use dbos_conformance.Accountable.Tables.{
  FilingRow, Db, find_filing, find_command, update_where, coalesce, taken_elsewhere,
}
use dbos_conformance.Accountable.Tables.Laws.{updated, find_filing-update_where}
use dbos_conformance.Accountable.First.{Move, prepared, marked, first_result}
use dbos_conformance.Accountable.Transitions.{known_command, open_state}
use dbos_conformance.Accountable.Outcome.{failed, replayed, applied, apply_command-Outcome}
use dbos_conformance.Accountable.Apply.{
  no_faults, null_or_same, may_prepare, prepare_filing, apply_command,
}
use dbos_conformance.Accountable.Permitted.{Permitted, prepares, submits, resolves, IsApplied}
use dbos_conformance.Accountable.Applying.{permitted-IsApplied}

-- An operation ID that the update tolerates is free or the same.
tolerated :
    (operation : String) (held : Option String)
    → null_or_same operation held ≡ true
    → (held ≡ none) ⊎ (held ≡ some operation)
tolerated operation none h = inl refl
tolerated operation (some p) h = inr (ap some ((eq_iff p operation).0 h))

-- An operation ID that reads as one that is not empty is that one.
reads_as :
    (operation : String) (held : Option String)
    → operation ≢ ""
    → coalesce held ≡ operation
    → held ≡ some operation
reads_as operation none named h = absurd (named (sym h))
reads_as operation (some p) named h = ap some h

module _ (now : ℤ) (req : CommandRequest) (db : Db) (f : FilingRow) (target operation : String)
    (found : find_filing req.filing_id req.tax_year db.filings ≡ some f) where
  -- The filing's own operation ID is free or the same, since the filing has the requested one afterwards.
  own_operation :
      (f' : FilingRow) (fs : List FilingRow)
      → fs
        ≡ update_where
            (may_prepare req)
            (prepare_filing now target req.provider_operation_id)
            db.filings
      → find_filing req.filing_id req.tax_year fs ≡ some f'
      → coalesce f'.provider_operation_id ≡ req.provider_operation_id
      → req.provider_operation_id ≢ ""
      → (f.provider_operation_id ≡ none)
        ⊎ (f.provider_operation_id ≡ some req.provider_operation_id)
  unfolding may_prepare
  own_operation f' fs is there held named =
      let set_row = prepare_filing now target req.provider_operation_id in
      let seen : Option.map (updated (may_prepare req) set_row)
            (find_filing req.filing_id req.tax_year db.filings)
          ≡ some f' =
        sym (
          find_filing-update_where (may_prepare req) set_row req.filing_id req.tax_year db.filings
            (λ g. (refl, refl)))
        ∙ subst (λ l. find_filing req.filing_id req.tax_year l ≡ some f') is there in
      elim (Bool-cases (may_prepare req f)) [
        | inl e ↦ inl_tolerated e
        | inr e ↦
            let still : some f ≡ some f' = rw (found, e) at seen in
            let same : f' ≡ f = cc in
            inr (
              reads_as req.provider_operation_id f.provider_operation_id named (
                subst
                  (λ (g : FilingRow). coalesce g.provider_operation_id ≡ req.provider_operation_id)
                  same held))
      ]
    where
      inl_tolerated :
          may_prepare req f ≡ true
          → (f.provider_operation_id ≡ none)
            ⊎ (f.provider_operation_id ≡ some req.provider_operation_id)
      inl_tolerated e = tolerated req.provider_operation_id f.provider_operation_id (ground arith)

  Move-Permitted :
      (fs : List FilingRow) (f' : FilingRow)
      → lookup req.command_type command_transitions ≡ some target
      → command_allows_state req.command_type f.state ≡ true
      → ((req.command_type == prepare) ≡ false → operation ≡ coalesce f.provider_operation_id)
      → Move now req target operation db.filings fs
      → find_filing req.filing_id req.tax_year fs ≡ some f'
      → coalesce f'.provider_operation_id ≡ operation
      → Permitted req db.filings f target operation
  unfolding command_allows_state
  Move-Permitted fs f' leads allowed reported move there held =
      elim (known_command req.command_type target leads) [
        | inl (type, to) ↦ elim move [
          | prepared is_type named is rows free after ↦
              let h = subst (λ c. command_allows_state c f.state ≡ true) type allowed in
              let named' : req.provider_operation_id ≢ "" =
                ground (arith, eq_iff req.provider_operation_id "") in
              prepares type
                (ground (arith, eq_iff f.state state_ready, eq_iff f.state state_submitting)) named'
                (own_operation f' fs
                  (subst
                    (λ o.
                      fs ≡ update_where (may_prepare req) (prepare_filing now target o) db.filings)
                    is after)
                  there (held ∙ is) named')
                (subst (λ o. taken_elsewhere o req.filing_id req.tax_year db.filings ≡ false) is
                  free)
                to is
          | marked other after ↦ absurd (ground (arith, eq_iff req.command_type prepare))
        ]
        | inr (inl (type, to)) ↦
            let h = subst (λ c. command_allows_state c f.state ≡ true) type allowed in
            submits type ((eq_iff _ _).0 h) to (reported (rw type refl))
        | inr (inr (inl (type, to))) ↦
            resolves (inl (type, to))
              (open_state f.state (subst (λ c. command_allows_state c f.state ≡ true) type allowed))
              (reported (rw type refl))
        | inr (inr (inr (inl (type, to)))) ↦
            resolves (inr (inl (type, to)))
              (open_state f.state (subst (λ c. command_allows_state c f.state ≡ true) type allowed))
              (reported (rw type refl))
        | inr (inr (inr (inr (type, to)))) ↦
            resolves (inr (inr (type, to)))
              (open_state f.state (subst (λ c. command_allows_state c f.state ≡ true) type allowed))
              (reported (rw type refl))
      ]

  IsApplied-Permitted :
      find_command req.idempotency_key db.commands ≡ none
      → IsApplied now req target operation
          (apply_command no_faults now req db).0
          (apply_command no_faults now req db).1
      → Permitted req db.filings f target operation
  IsApplied-Permitted fresh is = elim (apply_command-Outcome no_faults now req db) [
    | failed e answer same ↦ absurd (let told = is.told in ground arith)
    | replayed res replay answer ↦ absurd (let known = replay.known in ground arith)
    | applied res new_state leads unknown first (inr answer) ↦
        absurd (let told = is.told in ground arith)
    | applied res new_state leads unknown first (inl answer) ↦
        let told = is.told in
        let result = first.result in
        let same_filing : f ≡ first.filing = (let there = first.found in cc) in
        let same : first_result req new_state first.operation ≡ first_result req target operation =
          cc in
        let to : new_state ≡ target = ap (λ (r : CommandResult). r.new_state) same in
        let its : first.operation ≡ operation =
          ap (λ (r : CommandResult). r.provider_operation_id) same in
        let after = (apply_command no_faults now req db).1.filings in
        Move-Permitted after is.filing (leads ∙ ap some to)
          (subst (λ (g : FilingRow). command_allows_state req.command_type g.state ≡ true)
            (sym same_filing) first.allowed)
          (λ other.
            sym its
            ∙ first.reported other
            ∙ ap (λ (g : FilingRow). coalesce g.provider_operation_id) (sym same_filing))
          (subst₂ (λ t o. Move now req t o db.filings after) to its first.moved) is.found is.held
  ]

-- A new command is applied exactly if it is permitted. Where its key is not on record, its filing is
-- found and the database does not fail, `applyCommand` answers that the filing has moved to a state with
-- an operation ID, and the filing is there with both, stamped with the time, and the command is on record
-- under its key, if and only if the command may move the filing so: PrepareFilingSubmission moves one that
-- is ready or submitting to submitting, under a given operation ID that no other filing has and that is
-- the filing's own if it has one; MarkFilingSubmitted one that is submitting to submitted; and
-- MarkFilingAccepted, MarkFilingRejected and MarkFilingNeedsReview one that is submitting, submitted or
-- under review to accepted, rejected and needs_review, the operation ID left as it is.
pub applied_iff_Permitted :
    (now : ℤ) (req : CommandRequest) (db : Db) (f : FilingRow) (target operation : String)
    → find_command req.idempotency_key db.commands ≡ none
    → find_filing req.filing_id req.tax_year db.filings ≡ some f
    → IsApplied now req target operation
        (apply_command no_faults now req db).0
        (apply_command no_faults now req db).1
      ↔ Permitted req db.filings f target operation
applied_iff_Permitted now req db f target operation fresh found = (
  IsApplied-Permitted now req db f target operation found fresh,
  permitted-IsApplied now req db f target operation fresh found,
)
