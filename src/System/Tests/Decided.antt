-- ===== src/System/Tests/Decided.antt =====
-- A filing that is accepted by the callback of its submission.
use mathlib.Core.List.{Memᴰ}
use dbos_conformance.Common.{
  String, pos, true, none, some, List, [], ◌∷◌, ok, err, ◌≡◌, refl, sym, ap, ◌∙◌, subst, inl, arith,
  eq_iff, get_elem?, set_elem, lookup, insert,
}
use dbos_conformance.Domain.{
  FilingInput, Callback, scenario_ok, state_accepted, state_submitted, state_rejected,
}
use dbos_conformance.Domain.Identity.{workflow_id, provider_operation_id, outcome_command_key}
use dbos_conformance.Domain.Decimal.{show_int}
use dbos_conformance.Accountable.Command.{
  CommandRequest, CommandResult, mark_accepted, command_allows_state,
}
use dbos_conformance.Accountable.Tables.{
  FilingRow, Db, find_filing, find_command, rows_affected, update_where,
}
use dbos_conformance.Accountable.Apply.{
  no_faults, apply_command, first_command, run_command, finish,
}
use dbos_conformance.Accountable.History.{Call, run_calls}
use dbos_conformance.Authority.Ledger.{Timing, stored, new_persistent_server}
use dbos_conformance.Authority.Submit.{StatusResponse, handle_submit, handle_status}
use dbos_conformance.Authority.Client.{submit, status}
use dbos_conformance.Authority.Completion.{accepted_callback, advance}
use dbos_conformance.Authority.Process.{Move, called, ran, move, moves, posts}
use dbos_conformance.Authority.Process.Truthful.{start}
use dbos_conformance.Authority.Process.Owed.{IsOnRecord}
use dbos_conformance.Workflow.Steps.{Answers, received, sends_command}
use dbos_conformance.Workflow.Outcome.{Config, command_of, canon, operation_of}
use dbos_conformance.Workflow.Filing.{submission_of, filing_workflow}
use dbos_conformance.System.Honest.{ledger_after, Honest, answered}
use dbos_conformance.System.Truth.{by_workflow, final_filing_is_decided}

abbrev pub timing : Timing
timing = record {
  completion_delay = pos 0;
  ambiguous_completion_delay = pos 0;
  delayed_completion_delay = pos 0;
  late_callback_delay = pos 0;
  lost_response_delay = pos 0;
}

abbrev pub input : FilingInput
input = record { filing_id = "f1"; tax_year = pos 2024; scenario = scenario_ok }

abbrev pub config : Config
config = record { callback_url = "http://worker"; v2 = true; status_polls = pos 1 }

-- The submission, the completion and the callback.
abbrev pub history : List Move
history =
    called stored (pos 1) (some (submission_of config input))
    ∷ ran 0 (record { code = none; write = stored })
    ∷ ran 0 (record { code = some 202; write = stored })
    ∷ []

abbrev pub callback : Callback
callback = accepted_callback (operation_of input) "-cb1"

abbrev pub served : String → CommandResult
served state = record {
  filing_id = "f1";
  new_state = state;
  provider_operation_id = "";
  applied = true;
  duplicate_attempts = 0;
}

abbrev pub unknown : StatusResponse
unknown = record { submission_id = operation_of input; status = "not_found"; outcome = "" }

abbrev pub answers : Answers
answers = record {
  validate = ok (record {
    filing_id = "f1";
    tax_year = pos 2024;
    scenario = scenario_ok;
    state = "submitting";
    provider_operation_id = "";
    updated_at = pos 0;
  });
  patch = ok true;
  risk_precheck = ok "risk-ok";
  prepare_submission = err "unused";
  find_existing = ok unknown;
  submit = ok (record { result = "accepted"; detail = "" });
  resolve_ambiguous = err "unused";
  resubmit = err "unused";
  mark_submitted = ok (served state_submitted);
  recv = λ i. received callback;
  poll_status = λ i. err "unused";
  record_outcome = ok (served state_accepted);
  reconcile_final = err "down";
}

posted : posts history (start timing) ≡ callback ∷ []
unfolding posts moves move handle_submit new_persistent_server lookup insert get_elem? set_elem
    provider_operation_id show_int advance
posted = refl

read_unknown :
    status (ok (200, some (handle_status (operation_of input) (move [] (start timing)).server)))
    ≡ ok unknown
unfolding status handle_status move new_persistent_server lookup
read_unknown = refl

accepted :
    submit (
      ok
        (handle_submit stored
          (pos 1)
          (some (submission_of config input))
          (move [] (start timing)).server).response)
    ≡ ok (record { result = "accepted"; detail = "" })
unfolding submit handle_submit move new_persistent_server lookup provider_operation_id show_int
accepted = refl

pub honest : Honest timing history config answers input
unfolding workflow_id provider_operation_id
honest = record {
  find_existing = λ st h.
      let same : unknown ≡ st = cc in
      record { before = []; after = history; split = refl; read = read_unknown ∙ ap ok same };
  resolve_ambiguous = λ st h. ground (arith);
  poll_status = λ id i st asked h. ground (arith);
  submit = λ sub h.
      let same : record { result = "accepted"; detail = "" } ≡ sub = cc in
      answered [] _ stored (pos 1) refl (accepted ∙ ap ok same);
  resubmit = λ sub h. ground (arith);
  recv = λ i cb h.
      let same : callback ≡ cb = cc in
      (subst (Memᴰ cb) (sym posted) (Memᴰ.head (sym same)), sym (ap (λ c. c.submission_id) same));
}

abbrev pub command : CommandRequest
command =
    command_of input (outcome_command_key (canon input)) mark_accepted ""
      "via callback filing-f1-y2024-cb1"

sent : Memᴰ (sends_command command) (filing_workflow config answers input).actions
unfolding filing_workflow provider_operation_id show_int
sent = Memᴰ.tail (Memᴰ.tail (Memᴰ.tail (Memᴰ.tail (Memᴰ.head refl))))

abbrev filing : String → FilingRow
filing state = record {
  filing_id = "f1";
  tax_year = pos 2024;
  scenario = scenario_ok;
  state = state;
  provider_operation_id = some "filing-f1-y2024";
  updated_at = pos 5;
}

abbrev pub tables : Db
tables = record { filings = filing state_submitted ∷ []; commands = []; conflicts = [] }

abbrev pub calls : List Call
calls = record { faults = no_faults; now = pos 5; request = command } ∷ []

final_filing_is_decided_example :
    IsOnRecord (provider_operation_id "f1" (pos 2024)) state_accepted (ledger_after timing history)
unfolding find_filing run_calls apply_command find_command lookup command_allows_state workflow_id
    show_int outcome_command_key finish run_command first_command rows_affected update_where
final_filing_is_decided_example =
    final_filing_is_decided timing history calls tables "f1" (pos 2024) (filing state_submitted)
      (filing state_accepted) (by_workflow config answers input honest sent, tt) refl
      (λ h. ground (arith, eq_iff state_submitted state_accepted))
      (λ h. ground (arith, eq_iff state_submitted state_rejected)) refl (inl refl)
