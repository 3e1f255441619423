-- ===== src/Accountable/Permitted.antt =====
-- Which commands `applyCommand` of internal/accountable/server.go carries out.
use dbos_conformance.Common.{
  ℤ, String, true, false, none, some, List, ◌≡◌, ◌≢◌, ◌⊎◌, string_eq, int_eq, nat_eq, ok, Result,
}
use dbos_conformance.Accountable.Command.{CommandRequest, CommandResult, Error}
use dbos_conformance.Accountable.Tables.{
  readable, FilingRow, CommandRow, Db, find_filing, find_command, coalesce, taken_elsewhere,
}

-- The filing is with the provider, or a person has to look at it.
abbrev pub IsOpen : String → Type 0
IsOpen state = (state ≡ "submitting") ⊎ ((state ≡ "submitted") ⊎ (state ≡ "needs_review"))

-- The command may move the filing to the state, and the filing then has the operation ID (empty: none).
pub data Permitted (req : CommandRequest) (filings : List FilingRow) (f : FilingRow)
    (target operation : String) : Type 0 where
  prepares :
      req.command_type ≡ "PrepareFilingSubmission"
      → (f.state ≡ "ready") ⊎ (f.state ≡ "submitting")
      → req.provider_operation_id ≢ ""
      → (f.provider_operation_id ≡ none)
        ⊎ (f.provider_operation_id ≡ some req.provider_operation_id)
      → taken_elsewhere req.provider_operation_id req.filing_id req.tax_year filings ≡ false
      → target ≡ "submitting"
      → operation ≡ req.provider_operation_id
      → Permitted req filings f target operation
  submits :
      req.command_type ≡ "MarkFilingSubmitted"
      → f.state ≡ "submitting"
      → target ≡ "submitted"
      → operation ≡ coalesce f.provider_operation_id
      → Permitted req filings f target operation
  resolves :
      ((req.command_type ≡ "MarkFilingAccepted") × (target ≡ "accepted"))
        ⊎ (((req.command_type ≡ "MarkFilingRejected") × (target ≡ "rejected"))
            ⊎ ((req.command_type ≡ "MarkFilingNeedsReview") × (target ≡ "needs_review")))
      → IsOpen f.state
      → operation ≡ coalesce f.provider_operation_id
      → Permitted req filings f target operation

-- The service has applied the command: it says so, the filing has moved, and the key is on record.
pub record IsApplied (now : ℤ) (req : CommandRequest) (target operation : String)
    (answer : Result Error CommandResult) (db : Db) : Type 0 where
  pub told :
      answer
      ≡ ok (record {
        filing_id = req.filing_id;
        new_state = target;
        provider_operation_id = operation;
        applied = true;
        duplicate_attempts = 0;
      })
  pub filing : FilingRow
  pub found : find_filing req.filing_id req.tax_year db.filings ≡ some filing
  pub moved : filing.state ≡ target
  pub held : coalesce filing.provider_operation_id ≡ operation
  pub stamped : filing.updated_at ≡ now
  pub row : CommandRow
  pub kept : find_command req.idempotency_key db.commands ≡ some row
  pub payload : row.payload ≡ readable req
