-- ===== src/Workflow/Outcome.antt =====
-- `mapOutcome`, `recordOutcome` and the requests of internal/workflow/filing.go.
use dbos_conformance.Common.{String, ℤ, Bool, ◌==◌, string_eq, if◌then◌else◌, Result}
use dbos_conformance.Domain.{
  FilingInput, FilingResult, state_accepted, state_rejected, state_needs_review,
}
use dbos_conformance.Domain.Identity.{
  workflow_id, provider_operation_id, outcome_command_key, review_command_key,
}
use dbos_conformance.Accountable.Command.{
  CommandRequest, CommandResult, mark_accepted, mark_rejected, mark_needs_review,
}
use dbos_conformance.Workflow.Steps.{Run, return, step, sends_command, ◌>>=◌}

-- The fields of `Config` that the workflow reads.
pub record Config : Type 0 where
  pub callback_url : String
  pub v2 : Bool
  pub status_polls : ℤ

unfoldable pub map_outcome : String → String
map_outcome outcome =
    if outcome == "accepted"
    then state_accepted
    else if outcome == "rejected"
    then state_rejected
    else state_needs_review

-- The map of `recordOutcome`, with Go's zero value.
abbrev pub outcome_command : String → String
outcome_command state =
    if state == state_accepted
    then mark_accepted
    else if state == state_rejected
    then mark_rejected
    else if state == state_needs_review
    then mark_needs_review
    else ""

abbrev pub command_of : FilingInput → String → String → String → String → CommandRequest
command_of input key type operation detail = record {
  idempotency_key = key;
  command_type = type;
  filing_id = input.filing_id;
  tax_year = input.tax_year;
  provider_operation_id = operation;
  detail = detail;
}

abbrev pub canon : FilingInput → String
canon input = workflow_id input.filing_id input.tax_year

abbrev pub operation_of : FilingInput → String
operation_of input = provider_operation_id input.filing_id input.tax_year

unfoldable pub record_outcome :
    Result String CommandResult → FilingInput → String → String → Run (Unit {0})
record_outcome answer input state detail =
    let key =
      if state == state_needs_review
      then review_command_key (canon input)
      else outcome_command_key (canon input) in
    do
      res ← step (sends_command (command_of input key (outcome_command state) "" detail)) answer
      return tt

abbrev pub result_of : FilingInput → String → String → FilingResult
result_of input outcome detail = record {
  filing_id = input.filing_id;
  outcome = outcome;
  detail = detail;
}
