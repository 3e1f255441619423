-- ===== src/Workflow/Entry.antt =====
-- What it means that the service has an outcome on record, in the words of the commands that
-- internal/accountable/server.go understands.
use mathlib.Core.List.{Memᴰ}
use dbos_conformance.Common.{
  String, List, Result, ok, ◌==◌, string_eq, ◌≡◌, ◌≢◌, refl, arith, eq_iff, inl, inr, Bool-cases,
}
use dbos_conformance.Domain.{FilingInput}
use dbos_conformance.Domain.Identity.{outcome_command_key, review_command_key}
use dbos_conformance.Accountable.Command.{CommandRequest, CommandResult}
use dbos_conformance.Workflow.Steps.{Action, sends_command}
use dbos_conformance.Workflow.Outcome.{map_outcome, outcome_command, command_of, canon}
use dbos_conformance.Workflow.Told.{OnRecord, key_of}

-- The command says the outcome: by its type, and by the key that it goes under.
pub data Says (input : FilingInput) (outcome : String) (type key : String) : Type 0 where
  says_accepted :
      outcome ≡ "accepted"
      → type ≡ "MarkFilingAccepted"
      → key ≡ outcome_command_key (canon input)
      → Says input outcome type key
  says_rejected :
      outcome ≡ "rejected"
      → type ≡ "MarkFilingRejected"
      → key ≡ outcome_command_key (canon input)
      → Says input outcome type key
  says_undecided :
      outcome ≢ "accepted"
      → outcome ≢ "rejected"
      → type ≡ "MarkFilingNeedsReview"
      → key ≡ review_command_key (canon input)
      → Says input outcome type key

-- A command that says the outcome of this filing was sent, and answered with a result.
pub record Entered (reply : Result String CommandResult) (input : FilingInput) (outcome : String)
    (actions : List Action) : Type 0 where
  pub command : CommandRequest
  pub sent : Memᴰ (sends_command command) actions
  pub filing : command.filing_id ≡ input.filing_id
  pub year : command.tax_year ≡ input.tax_year
  pub says : Says input outcome command.command_type command.idempotency_key
  pub answer : CommandResult
  pub answered : reply ≡ ok answer

outcome-Says :
    (input : FilingInput) (outcome : String)
    → Says input outcome
        (outcome_command (map_outcome outcome))
        (key_of input (map_outcome outcome))
unfolding map_outcome
outcome-Says input outcome = elim (Bool-cases (outcome == "accepted")) [
  | inl e ↦
      says_accepted ((eq_iff outcome "accepted").0 e) (rw (e, map_outcome) refl)
        (rw (e, map_outcome) refl)
  | inr e ↦ elim (Bool-cases (outcome == "rejected")) [
    | inl k ↦
        says_rejected ((eq_iff outcome "rejected").0 k) (rw (e, k, map_outcome) refl)
          (rw (e, k, map_outcome) refl)
    | inr k ↦
        says_undecided (ground (arith, eq_iff outcome "accepted"))
          (ground (arith, eq_iff outcome "rejected")) (rw (e, k, map_outcome) refl)
          (rw (e, k, map_outcome) refl)
  ]
]

pub OnRecord-Entered :
    (reply : Result String CommandResult) (input : FilingInput) (outcome : String)
    (actions : List Action)
    → OnRecord reply input outcome actions
    → Entered reply input outcome actions
OnRecord-Entered reply input outcome actions on = record {
  command =
      command_of input (key_of input (map_outcome outcome)) (outcome_command (map_outcome outcome))
        "" on.detail;
  sent = on.sent;
  filing = refl;
  year = refl;
  says = outcome-Says input outcome;
  answer = on.answer;
  answered = on.answered;
}
