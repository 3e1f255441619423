-- ===== src/System/Tests/Reported.antt =====
-- An accepted filing of which the service tells to the end.
use mathlib.Core.List.{Memᴰ}
use dbos_conformance.Common.{pos, [], ok, ◌≡◌, refl, sym, subst₂, All, inl, arith, eq_iff, lookup}
use dbos_conformance.Domain.{scenario_ok, state_accepted}
use dbos_conformance.Domain.Identity.{
  workflow_id, provider_operation_id, outcome_command_key, submitted_command_key,
}
use dbos_conformance.Domain.Decimal.{show_int}
use dbos_conformance.Accountable.Command.{CommandRequest, CommandResult, command_allows_state}
use dbos_conformance.Accountable.Tables.{Db, find_filing, find_command, rows_affected, update_where}
use dbos_conformance.Accountable.Apply.{
  no_faults, apply_command, first_command, run_command, finish,
}
use dbos_conformance.Accountable.History.{run_calls}
use dbos_conformance.Workflow.Steps.{
  Answers, Action, reads_filing, sends_command, submits, asks_status,
}
use dbos_conformance.Workflow.Outcome.{operation_of, canon}
use dbos_conformance.Workflow.Filing.{filing_workflow}
use dbos_conformance.System.Once.{Mem-All}
use dbos_conformance.System.Reported.{Served, HasState, reported_outcome_stands}
use dbos_conformance.System.Decided.{reported_outcome_is_decided}
use dbos_conformance.System.Honest.{Honest, ledger_after}
use dbos_conformance.Authority.Process.Owed.{IsOnRecord}
use dbos_conformance.System.Tests.Decided.{
  timing, history, input, config, served, answers, command, tables, calls, honest,
}

abbrev recorded : CommandResult
recorded = record (served state_accepted) { provider_operation_id = "filing-f1-y2024" }

-- The same execution, where the service answers to the end.
abbrev answers_on : Answers
answers_on = record answers {
  record_outcome = ok recorded;
  reconcile_final = ok (record {
    filing_id = "f1";
    tax_year = pos 2024;
    scenario = scenario_ok;
    state = state_accepted;
    provider_operation_id = "filing-f1-y2024";
    updated_at = pos 5;
  });
}

-- The only command under the outcome key.
abbrev IsTheOutcome : Action → Type 0
IsTheOutcome (sends_command c) = c.idempotency_key ≡ outcome_command_key (canon input) → c ≡ command
IsTheOutcome (reads_filing id year) = Unit
IsTheOutcome (submits req) = Unit
IsTheOutcome (asks_status id) = Unit

only_command : All IsTheOutcome (filing_workflow config answers_on input).actions
unfolding filing_workflow workflow_id provider_operation_id show_int outcome_command_key
    submitted_command_key
only_command = (
  tt,
  (
    tt,
    (
      tt,
      (
        λ e. absurd (ground (arith, eq_iff "filing-f1-y2024-submitted" "filing-f1-y2024-outcome")),
        (λ e. refl, (tt, tt)),
      ),
    ),
  ),
)

abbrev later_tables : Db
later_tables = run_calls calls tables

answered_now : (apply_command no_faults (pos 5) command tables).0 ≡ ok recorded
unfolding find_filing run_calls apply_command find_command lookup command_allows_state workflow_id
    show_int outcome_command_key finish run_command first_command rows_affected update_where
answered_now = refl

service_answers :
    (c : CommandRequest) (res : CommandResult)
    → Memᴰ (sends_command c) (filing_workflow config answers_on input).actions
    → c.idempotency_key ≡ outcome_command_key (canon input)
    → answers_on.record_outcome ≡ ok res
    → Served tables later_tables c res
unfolding run_calls
service_answers c res at key is =
    let same = Mem-All IsTheOutcome (sends_command c) _ at only_command key in
    let result : recorded ≡ res = cc in
    subst₂ (λ x y. Served tables later_tables x y) (sym same) result
      (record {
        earlier = [];
        later = [];
        faults = no_faults;
        time = pos 5;
        answered = answered_now;
        reached = refl;
      })

reported_outcome_stands_example : HasState input "accepted" later_tables
unfolding filing_workflow provider_operation_id show_int
reported_outcome_stands_example =
    reported_outcome_stands config answers_on input
      (record {
        filing_id = "f1";
        outcome = "accepted";
        detail = "via callback filing-f1-y2024-cb1";
      })
      tables later_tables refl service_answers refl (inl refl)

answers_on-Honest : Honest timing history config answers_on input
answers_on-Honest = record {
  find_existing = honest.find_existing;
  resolve_ambiguous = honest.resolve_ambiguous;
  poll_status = honest.poll_status;
  submit = honest.submit;
  resubmit = honest.resubmit;
  recv = honest.recv;
}

reported_outcome_is_decided_example :
    IsOnRecord (operation_of input) "accepted" (ledger_after timing history)
unfolding filing_workflow provider_operation_id show_int
reported_outcome_is_decided_example =
    reported_outcome_is_decided timing history config answers_on input
      (record {
        filing_id = "f1";
        outcome = "accepted";
        detail = "via callback filing-f1-y2024-cb1";
      })
      answers_on-Honest refl (inl refl)
