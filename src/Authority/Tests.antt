-- ===== src/Authority/Tests.antt =====
-- The theorems about internal/authority/server.go at concrete servers, calls and histories.
use dbos_conformance.Common.{
  String, pos, true, none, some, List, [], ◌∷◌, ◌≡◌, refl, lookup, insert, All,
}
use dbos_conformance.Domain.{scenario_reject, scenario_ok, scenario_transient_server_error}
use dbos_conformance.Domain.Decimal.{show_nat}
use dbos_conformance.Authority.Ledger.{
  Submission, Server, Timing, stored, failed, unacknowledged, snapshot, new_persistent_server,
  new_server,
}
use dbos_conformance.Authority.Submit.{SubmitRequest, handle_submit, new_submission}
use dbos_conformance.Authority.Completion.{sleeping, finishing, ended, Meets}
use dbos_conformance.Authority.Ending.{follow, completion_ends}
use dbos_conformance.Authority.Posting.{posts_along}
use dbos_conformance.Authority.Delivery.{IsDelivered, completion_delivers}
use dbos_conformance.Authority.Client.{submit}
use dbos_conformance.Authority.Events.{Event, submits, advances, restarts, happen, happens}
use dbos_conformance.Authority.Durability.{start-IsSound, happen-Carried}
use dbos_conformance.Authority.Process.{Move, called, ran, restarted, move, posts}
use dbos_conformance.Authority.Process.Truthful as Truthful
use dbos_conformance.Authority.Process.Owed.{IsOnRecord}
use dbos_conformance.Authority.Process.Callbacks.{Tells, callbacks_tell_the_record}
use dbos_conformance.Authority.Process.Attended.{Attends}
use dbos_conformance.Authority.Process.Remembered.{pending_is_attended}
use dbos_conformance.Authority.Process.Verdicts.{rejection_is_recorded}
use dbos_conformance.Authority.Answers.{server_error_rolls_back, acknowledged_is_stored}
use dbos_conformance.Authority.Promises.{
  acknowledged_survives, completed_is_final, retryable_has_no_effect,
}

abbrev no_timing : Timing
no_timing = record {
  completion_delay = pos 0;
  ambiguous_completion_delay = pos 0;
  delayed_completion_delay = pos 0;
  late_callback_delay = pos 0;
  lost_response_delay = pos 0;
}

abbrev request : String → String → SubmitRequest
request id scenario = record {
  submission_id = id;
  filing_id = "f1";
  scenario = scenario;
  callback_url = "http://worker";
}

abbrev start : Server
start = new_persistent_server no_timing none

-- A rejected operation is on record.
abbrev after_one : Server
after_one = (handle_submit stored (pos 1) (some (request "op1" scenario_reject)) start).server

abbrev history : List Event
history =
    submits unacknowledged (pos 2) (some (request "op2" scenario_ok))
    ∷ restarts no_timing
    ∷ advances (record { code = some 200; write = failed })
        (record { id = "op2"; stage = sleeping })
    ∷ advances (record { code = none; write = stored }) (record { id = "op2"; stage = finishing })
    ∷ []

server_error_rolls_back_example :
    let handled = handle_submit unacknowledged (pos 2) (some (request "op2" scenario_ok)) start in
    (snapshot handled.server ≡ snapshot start) × (handled.scheduled ≡ none)
unfolding handle_submit lookup new_persistent_server
server_error_rolls_back_example =
    server_error_rolls_back unacknowledged (pos 2) (request "op2" scenario_ok) start refl

acknowledged_is_stored_example : after_one.pool ≡ some (some (snapshot after_one))
unfolding handle_submit lookup new_persistent_server
acknowledged_is_stored_example =
    acknowledged_is_stored stored (pos 1) (request "op1" scenario_reject) start none refl refl

acknowledged_survives_example :
    (later : Submission) × (lookup "op1" (happen history after_one).subs ≡ some later)
    × (later.filing_id ≡ "f1")
    × (later.scenario ≡ scenario_reject)
unfolding handle_submit lookup new_persistent_server
acknowledged_survives_example =
    acknowledged_survives stored (pos 1) (request "op1" scenario_reject) history start
      (start-IsSound no_timing) refl

abbrev rejected : Submission
rejected = record {
  id = "op1";
  filing_id = "f1";
  scenario = scenario_reject;
  callback_url = "http://worker";
  status = "completed";
  outcome = "rejected";
  attempts = 1;
  created_at = pos 1;
  callback_finished = true;
}

abbrev first_call : List Event
first_call = submits stored (pos 1) (some (request "op1" scenario_reject)) ∷ []

completed_is_final_example :
    (later : Submission) × (lookup "op1" (happen history (happen first_call start)).subs
      ≡ some later)
    × (later.status ≡ "completed")
    × (later.outcome ≡ "rejected")
unfolding lookup happen happens handle_submit new_persistent_server insert
completed_is_final_example =
    completed_is_final "op1" rejected history (happen first_call start)
      (happen-Carried first_call start (start-IsSound no_timing)).sound refl refl

retryable_has_no_effect_example :
    let handled =
      handle_submit stored
        (pos 3)
        (some (request "op3" scenario_transient_server_error))
        after_one in
    (handled.server.subs ≡ after_one.subs) × (handled.scheduled ≡ none)
unfolding lookup handle_submit new_persistent_server insert submit show_nat
retryable_has_no_effect_example =
    retryable_has_no_effect stored (pos 3) (request "op3" scenario_transient_server_error) after_one
      (record { msg = "authority no-effect 5xx: 503" }) refl

abbrev fine : Meets
fine = record { code = some 200; write = stored }

completion_ends_example :
    (follow
      (λ n. record { code = none; write = failed })
      (λ n s. after_one)
      32
      (record { id = "op1"; stage = sleeping })
      after_one).0.stage
    ≡ ended
completion_ends_example =
    completion_ends (λ n. record { code = none; write = failed }) (λ n s. after_one) "op1" after_one

-- An operation whose callback is due.
abbrev pending : Submission
pending = new_submission (pos 1) (request "op3" scenario_ok)

abbrev holding : Server
holding = record start { subs = ("op3", pending) ∷ [] }

completion_delivers_example :
    IsDelivered "op3" pending 0
      (posts_along (λ n. fine) 32 (record { id = "op3"; stage = sleeping }) holding)
      (follow (λ n. fine) (λ n t. t) 32 (record { id = "op3"; stage = sleeping }) holding).1
unfolding lookup new_persistent_server new_server
completion_delivers_example =
    completion_delivers (λ n. fine) "op3" pending holding (λ n. (refl, refl)) refl refl

-- Two goroutines, a failed write, a restart and a callback.
abbrev moved : List Move
moved =
    called stored (pos 1) (some (request "op1" scenario_ok))
    ∷ called unacknowledged (pos 2) (some (request "op2" scenario_ok))
    ∷ ran 0 (record { code = none; write = failed })
    ∷ restarted no_timing
    ∷ ran 0 fine
    ∷ ran 0 fine
    ∷ []

callbacks_tell_the_record_example :
    All
      (Tells (move moved (Truthful.start no_timing)).server.subs)
      (posts moved (Truthful.start no_timing))
callbacks_tell_the_record_example = callbacks_tell_the_record no_timing moved

rejection_is_recorded_example : IsOnRecord "op1" "rejected" after_one.subs
unfolding submit handle_submit new_persistent_server lookup
rejection_is_recorded_example =
    rejection_is_recorded stored (pos 1) (request "op1" scenario_reject) start
      (record { result = "rejected"; detail = "permanent validation failure" }) refl refl

-- The second call's answer is lost in a write that ends unacknowledged, and the restart picks it up.
abbrev resumed : List Move
resumed =
    called stored (pos 1) (some (request "op1" scenario_ok))
    ∷ called unacknowledged (pos 2) (some (request "op2" scenario_ok))
    ∷ restarted no_timing
    ∷ ran 0 fine
    ∷ []

pending_is_attended_example :
    Attends
      (move resumed (Truthful.start no_timing)).server.subs
      (move resumed (Truthful.start no_timing)).tasks
pending_is_attended_example = pending_is_attended no_timing resumed (tt, (tt, (tt, (refl, tt))))
