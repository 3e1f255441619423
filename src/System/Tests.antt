-- ===== src/System/Tests.antt =====
-- Executions of one workflow that run into errors, with a restart of the provider in between.
mod Decided
mod Reported
use mathlib.Core.List.{Memᴰ}
use dbos_conformance.Common.{
  ◌≤◌, pos, true, none, some, List, [], ◌∷◌, ok, err, refl, length, lookup, insert, All,
}
use dbos_conformance.Accountable.Command.{CommandRequest}
use dbos_conformance.Accountable.History.{Call}
use dbos_conformance.Accountable.Tables.{Db}
use dbos_conformance.Accountable.Apply.{no_faults}
use dbos_conformance.Domain.{FilingInput, scenario_ok}
use dbos_conformance.Domain.Identity.{provider_operation_id, review_command_key}
use dbos_conformance.Domain.Decimal.{show_int}
use dbos_conformance.Authority.Ledger.{Timing, stored, unacknowledged, new_persistent_server}
use dbos_conformance.Authority.Submit.{handle_submit, new_submission}
use dbos_conformance.Authority.Events.{Event, submits, restarts, happen, happens}
use dbos_conformance.Workflow.Steps as Steps
use dbos_conformance.Workflow.Steps.{Answers, timed_out}
use dbos_conformance.Workflow.Outcome.{Config, command_of, canon}
use dbos_conformance.Workflow.Filing.{submission_of, filing_workflow}
use dbos_conformance.System.Effects.{commanded, all_effects, filing_effects_bounded}
use dbos_conformance.System.Once.{
  Comes, called, restarted, operations_of, no_duplicate_operations, only_filed_operations,
}

abbrev input : FilingInput
input = record { filing_id = "f1"; tax_year = pos 2024; scenario = scenario_ok }

abbrev config : Config
config = record { callback_url = "http://worker"; v2 = true; status_polls = pos 1 }

-- The submission's answer never comes.
abbrev answers : Answers
answers = record {
  validate = ok (record {
    filing_id = "f1";
    tax_year = pos 2024;
    scenario = scenario_ok;
    state = "submitting";
    provider_operation_id = "";
    updated_at = pos 0;
  });
  patch = ok true;
  risk_precheck = ok "risk-ok";
  prepare_submission = err "unused";
  find_existing = ok (record { submission_id = ""; status = "not_found"; outcome = "" });
  submit = err "timeout";
  resolve_ambiguous = err "unused";
  resubmit = err "unused";
  mark_submitted = err "unused";
  recv = λ i. timed_out;
  poll_status = λ i. err "unused";
  record_outcome = err "down";
  reconcile_final = err "unused";
}

abbrev timing : Timing
timing = record {
  completion_delay = pos 0;
  ambiguous_completion_delay = pos 0;
  delayed_completion_delay = pos 0;
  late_callback_delay = pos 0;
  lost_response_delay = pos 0;
}

abbrev history : List Event
history =
    submits unacknowledged (pos 1) (some (submission_of config input))
    ∷ restarts timing
    ∷ submits stored (pos 2) (some (submission_of config input))
    ∷ []

acted :
    Memᴰ (Steps.submits (submission_of config input)) (filing_workflow config answers input).actions
unfolding filing_workflow
acted = Memᴰ.tail (Memᴰ.tail (Memᴰ.head refl))

come : All (Comes (input ∷ [])) history
come = (
  called config answers input unacknowledged (pos 1) (submission_of config input) (Memᴰ.head refl)
      acted,
  (
    restarted timing,
    (
      called config answers input stored (pos 2) (submission_of config input) (Memᴰ.head refl)
          acted,
      tt,
    ),
  ),
)

no_duplicate_operations_example :
    length (happen history (new_persistent_server timing none)).subs ≤ 1
no_duplicate_operations_example = no_duplicate_operations timing (input ∷ []) history come

-- The outcome of exhausted retries.
abbrev review : CommandRequest
review =
    command_of input (review_command_key (canon input)) "MarkFilingNeedsReview" ""
      "submit retries exhausted: timeout"

abbrev call : Call
call = record { faults = no_faults; now = pos 5; request = review }

reviewed : Memᴰ (Steps.sends_command review) (filing_workflow config answers input).actions
unfolding filing_workflow
reviewed = Memᴰ.tail (Memᴰ.tail (Memᴰ.tail (Memᴰ.head refl)))

abbrev tables : Db
tables = record { filings = []; commands = []; conflicts = [] }

filing_effects_bounded_example : all_effects (call ∷ call ∷ []) tables ≤ 4
filing_effects_bounded_example =
    filing_effects_bounded input (call ∷ call ∷ []) tables
      (commanded config answers reviewed, (commanded config answers reviewed, tt))
