-- ===== src/Accountable/Tests.antt =====
-- The theorems about internal/accountable/server.go at concrete tables, requests and faults.
use dbos_conformance.Common.{
  ◌↔◌, ℕ, String, pos, true, false, Option, none, some, List, [], ◌∷◌, ◌≡◌, refl, ◌⊎◌, inl, lookup,
  ok, err, ◌≤◌,
}
use dbos_conformance.Domain.{state_ready, state_submitting, state_accepted}
use dbos_conformance.Accountable.Command.{
  CommandRequest, CommandResult, database_error, prepare, mark_submitted, mark_accepted,
  command_allows_state,
}
use dbos_conformance.Accountable.Tables.{
  readable, FilingRow, CommandRow, Db, find_filing, find_command, rows_affected, taken_elsewhere,
  update_where,
}
use dbos_conformance.Accountable.Permitted.{Permitted, IsApplied}
use dbos_conformance.Accountable.Applied.{applied_iff_Permitted}
use dbos_conformance.Accountable.Apply.{
  Faults, unacknowledged, no_faults, apply_command, replay_command, first_command, run_command,
  finish, may_prepare,
}
use dbos_conformance.Accountable.History.{Call, run_calls, effects_reported}
use dbos_conformance.Accountable.Finality.{
  LegalPath, legal_history, operation_id_is_kept, final_filing,
}
use dbos_conformance.Accountable.Idempotence.{retry_has_first_result, replayed_result}
use dbos_conformance.Accountable.Effects.{at_most_one_effect}
use dbos_conformance.Accountable.Handlers.{post_command, answer_command}
use dbos_conformance.Accountable.Client.{send_command, client_sees_result}
use dbos_conformance.Accountable.Service.{Request, command, put, serve_all, empty_db}
use dbos_conformance.Accountable.WellFormed.{IsWellFormed, serve_all-IsWellFormed}

abbrev filing : String → Option String → FilingRow
filing state operation = record {
  filing_id = "f1";
  tax_year = pos 2024;
  scenario = "ok";
  state = state;
  provider_operation_id = operation;
  updated_at = pos 0;
}

abbrev tables : FilingRow → Db
tables f = record { filings = f ∷ []; commands = []; conflicts = [] }

abbrev request : String → String → CommandRequest
request key type = record {
  idempotency_key = key;
  command_type = type;
  filing_id = "f1";
  tax_year = pos 2024;
  provider_operation_id = "op";
  detail = "";
}

abbrev call : String → String → Call
call key type = record { faults = no_faults; now = pos 5; request = request key type }

abbrev year_of_work : List Call
year_of_work =
    call "k1" prepare ∷ call "k1" prepare ∷ call "k2" mark_submitted ∷ call "k3" mark_accepted ∷ []

abbrev unheard : Faults
unheard = record no_faults { commit = unacknowledged }

abbrev stored_row : CommandRow
stored_row = record {
  idempotency_key = "k1";
  command_type = prepare;
  filing_id = "f1";
  tax_year = pos 2024;
  payload = readable (request "k1" prepare);
  result = readable (record {
    filing_id = "f1";
    new_state = state_submitting;
    provider_operation_id = "op";
    applied = true;
    duplicate_attempts = 0;
  });
  duplicate_attempts = 0;
  created_at = pos 7;
}

year_of_work_accepts :
    find_filing "f1" (pos 2024) (run_calls year_of_work (tables (filing state_ready none))).filings
    ≡ some (record (filing state_accepted (some "op")) { updated_at = pos 5 })
unfolding find_filing run_calls apply_command lookup finish run_command find_command first_command
    command_allows_state rows_affected may_prepare taken_elsewhere replay_command update_where
year_of_work_accepts = refl

legal_history_example :
    (f' : FilingRow) × (find_filing "f1"
        (pos 2024)
        (run_calls year_of_work (tables (filing state_ready none))).filings
      ≡ some f')
    × LegalPath state_ready f'.state
unfolding find_filing
legal_history_example =
    legal_history year_of_work (tables (filing state_ready none)) "f1" (pos 2024)
      (filing state_ready none) refl

operation_id_is_kept_example :
    (f' : FilingRow) × (find_filing "f1"
        (pos 2024)
        (run_calls year_of_work (tables (filing state_submitting (some "op")))).filings
      ≡ some f')
    × (f'.provider_operation_id ≡ some "op")
unfolding find_filing
operation_id_is_kept_example =
    operation_id_is_kept year_of_work (tables (filing state_submitting (some "op"))) "f1" (pos 2024)
      (filing state_submitting (some "op")) "op" refl refl

final_filing_example :
    find_filing "f1"
      (pos 2024)
      (run_calls year_of_work (tables (filing state_accepted (some "op")))).filings
    ≡ some (filing state_accepted (some "op"))
unfolding find_filing
final_filing_example =
    final_filing year_of_work (tables (filing state_accepted (some "op"))) "f1" (pos 2024)
      (filing state_accepted (some "op")) refl (inl refl)

retry_has_first_result_example :
    let first =
      apply_command unheard (pos 7) (request "k1" prepare) (tables (filing state_ready none)) in
    let before = run_calls year_of_work first.1 in
    let retry = apply_command no_faults (pos 9) (request "k1" prepare) before in
    (res : CommandResult) × (n : ℕ) × ((first.0 ≡ ok res) ⊎ (first.0 ≡ err database_error))
    × (res.applied ≡ true)
    × (retry.0 ≡ ok (replayed_result res n))
    × (retry.1.filings ≡ before.filings)
unfolding find_command apply_command lookup finish run_command first_command find_filing
    command_allows_state rows_affected may_prepare taken_elsewhere
retry_has_first_result_example =
    retry_has_first_result unheard (pos 7) (pos 9) (request "k1" prepare)
      (tables (filing state_ready none)) year_of_work stored_row refl refl

at_most_one_effect_example :
    effects_reported "k1" year_of_work (tables (filing state_ready none)) ≤ 1
at_most_one_effect_example = at_most_one_effect "k1" year_of_work (tables (filing state_ready none))

applied_iff_Permitted_example :
    IsApplied
      (pos 7)
      (request "k1" prepare)
      "submitting"
      (request "k1" prepare).provider_operation_id
      (apply_command no_faults (pos 7) (request "k1" prepare) (tables (filing state_ready none))).0
      (apply_command no_faults (pos 7) (request "k1" prepare) (tables (filing state_ready none))).1
    ↔ Permitted
        (request "k1" prepare)
        (filing state_ready none ∷ [])
        (filing state_ready none)
        "submitting"
        (request "k1" prepare).provider_operation_id
unfolding find_command find_filing
applied_iff_Permitted_example =
    applied_iff_Permitted (pos 7) (request "k1" prepare) (tables (filing state_ready none))
      (filing state_ready none) "submitting" (request "k1" prepare).provider_operation_id refl refl

abbrev requests : List Request
requests =
    put false (pos 1) "f1" (some (pos 2024, "ok"))
    ∷ command no_faults (pos 2) (some (request "k1" prepare))
    ∷ []

serve_all-IsWellFormed_example : IsWellFormed (serve_all requests empty_db)
serve_all-IsWellFormed_example = serve_all-IsWellFormed requests

client_sees_result_example :
    (apply_command no_faults (pos 7) (request "k1" prepare) (tables (filing state_ready none))).0
    ≡ ok (record {
      filing_id = "f1";
      new_state = state_submitting;
      provider_operation_id = "op";
      applied = true;
      duplicate_attempts = 0;
    })
unfolding find_command apply_command lookup finish run_command first_command find_filing
    command_allows_state rows_affected may_prepare taken_elsewhere post_command answer_command
    send_command
client_sees_result_example =
    client_sees_result no_faults (pos 7) (request "k1" prepare) (tables (filing state_ready none)) _
      refl
