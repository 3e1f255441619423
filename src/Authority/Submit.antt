-- ===== src/Authority/Submit.antt =====
-- `handleSubmit`, `recordLocked` and `handleStatus` of internal/authority/server.go.
use dbos_conformance.Common.{
  ℕ, ◌+◌, String, ℤ, pos, true, false, ◌&&◌, ◌||◌, Option, none, some, ◌==◌, ◌!=◌, leb, string_eq,
  int_eq, nat_eq, if◌then◌else◌, Dict, lookup, insert, count_at,
}
use dbos_conformance.Domain.{
  scenario_reject, scenario_rate_limit, scenario_rate_limit_exhausted,
  scenario_transient_server_error, scenario_timeout_lost, scenario_timeout_ambiguous,
}
use dbos_conformance.Authority.Ledger.{
  Submission, PersistentState, Server, snapshot, Persist, save_or_fail,
}

pub record SubmitRequest : Type 0 where
  pub submission_id : String
  pub filing_id : String
  pub scenario : String
  pub callback_url : String

pub record SubmitResponse : Type 0 where
  pub submission_id : String
  pub status : String
  pub detail : String

-- What goes back over HTTP: the status code, the header X-Request-Effect ("" where it is not set), the
-- time slept before the answer, and the decoded body (`none` for http.Error's text).
pub record Response : Type 0 where
  pub code : ℕ
  pub request_effect : String
  pub delay : ℤ
  pub body : Option SubmitResponse

abbrev pub http_error : ℕ → Response
http_error code = record { code = code; request_effect = ""; delay = pos 0; body = none }

abbrev pub answer : String → String → String → Response
answer id status detail = record {
  code = 200;
  request_effect = "";
  delay = pos 0;
  body = some (record { submission_id = id; status = status; detail = detail });
}

-- The response, the server after the call, and the submission whose completion is scheduled.
pub record Handled : Type 0 where
  pub response : Response
  pub server : Server
  pub scheduled : Option Submission

-- `if !s.saveOrFailLocked(w, before) { return }`, and then the response.
unfoldable pub save_then :
    Persist → PersistentState → Server → Response → Option Submission → Handled
unfolding save_or_fail
save_then p before s response scheduled =
    let (saved, s') = save_or_fail p before s in
    if saved
    then record { response = response; server = s'; scheduled = scheduled }
    else record { response = http_error 500; server = s'; scheduled = none }

abbrev pub status_from_outcome : Submission → String
status_from_outcome sub =
    if sub.status == "completed" && sub.outcome == "rejected" then "rejected" else "accepted"

abbrev pub new_submission : ℤ → SubmitRequest → Submission
new_submission now req = record {
  id = req.submission_id;
  filing_id = req.filing_id;
  scenario = req.scenario;
  callback_url = req.callback_url;
  status = "processing";
  outcome = "";
  attempts = 1;
  created_at = now;
  callback_finished = false;
}

-- `recordLocked`, with the submission as the caller leaves it.
unfoldable pub record_submission : Submission → Server → Server
record_submission sub s = record s {
  subs = insert sub.id sub s.subs;
  metrics = record (s.metrics) { submissions = s.metrics.submissions + 1 };
}

abbrev pub count_attempt : Server → Server
count_attempt s = record s {
  metrics = record (s.metrics) { submission_attempts = s.metrics.submission_attempts + 1 };
}

abbrev pub count_throttled : Server → Server
count_throttled s = record s {
  metrics = record (s.metrics) { throttled_429 = s.metrics.throttled_429 + 1 };
}

abbrev pub count_transient : Server → Server
count_transient s = record s {
  metrics = record (s.metrics) { transient_5xx = s.metrics.transient_5xx + 1 };
}

-- m[id]++
abbrev pub increment : String → Dict ℕ → Dict ℕ
increment id m = insert id (count_at id m + 1) m

-- The ID is known.
unfoldable pub submit_existing :
    Persist → PersistentState → SubmitRequest → Submission → Server → Handled
unfolding save_then
submit_existing p before req existing s =
    if existing.filing_id != req.filing_id || existing.scenario != req.scenario
    then save_then p before s (http_error 409) none
    else save_then p before
        (record s {
          subs =
              insert req.submission_id (record existing { attempts = existing.attempts + 1 })
                s.subs;
          metrics = record (s.metrics) {
            duplicate_submissions = s.metrics.duplicate_submissions + 1;
          };
        })
        (answer existing.id (status_from_outcome existing) "") none

-- After the switch: the submission is recorded and its completion scheduled. A `timeout_ambiguous`
-- answer comes late.
unfoldable pub submit_accepted : Persist → ℤ → PersistentState → SubmitRequest → Server → Handled
unfolding save_then record_submission
submit_accepted p now before req s =
    let sub = new_submission now req in
    let reply = answer req.submission_id "accepted" "" in
    save_then p before (record_submission sub s)
      (if req.scenario == scenario_timeout_ambiguous
        then record reply { delay = s.timing.lost_response_delay }
        else reply)
      (some sub)

abbrev pub rejected_submission : ℤ → SubmitRequest → Submission
rejected_submission now req = record (new_submission now req) {
  status = "completed";
  outcome = "rejected";
  callback_finished = true;
}

-- case domain.ScenarioRateLimit: the first two attempts are throttled.
unfoldable pub submit_limited : Persist → ℤ → PersistentState → SubmitRequest → Server → Handled
unfolding save_then submit_accepted
submit_limited p now before req s =
    let limited = record s { rl_attempts = increment req.submission_id s.rl_attempts } in
    if leb (count_at req.submission_id limited.rl_attempts) 2
    then save_then p before (count_throttled limited) (http_error 429) none
    else submit_accepted p now before req limited

-- case domain.ScenarioTransientServerError: the first two attempts find the provider down.
unfoldable pub submit_unavailable : Persist → ℤ → PersistentState → SubmitRequest → Server → Handled
unfolding save_then submit_accepted
submit_unavailable p now before req s =
    let unavailable = record s { se_attempts = increment req.submission_id s.se_attempts } in
    if leb (count_at req.submission_id unavailable.se_attempts) 2
    then save_then p before (count_transient unavailable)
        (record (http_error 503) { request_effect = "none" }) none
    else submit_accepted p now before req unavailable

-- case domain.ScenarioTimeoutLost: the first attempt is answered late and has no effect.
unfoldable pub submit_lost : Persist → ℤ → PersistentState → SubmitRequest → Server → Handled
unfolding save_then submit_accepted
submit_lost p now before req s =
    let lost = record s { tl_attempts = increment req.submission_id s.tl_attempts } in
    if count_at req.submission_id lost.tl_attempts == 1
    then save_then p before lost (record (http_error 504) { delay = s.timing.lost_response_delay })
        none
    else submit_accepted p now before req lost

-- case domain.ScenarioReject
unfoldable pub submit_rejected : Persist → ℤ → PersistentState → SubmitRequest → Server → Handled
unfolding save_then record_submission
submit_rejected p now before req s =
    save_then p before (record_submission (rejected_submission now req) s)
      (answer req.submission_id "rejected" "permanent validation failure") none

-- The ID is new: the switch on the scenario.
unfoldable pub submit_new : Persist → ℤ → PersistentState → SubmitRequest → Server → Handled
unfolding save_then submit_accepted submit_limited submit_unavailable submit_lost submit_rejected
submit_new p now before req s =
    if req.scenario == scenario_rate_limit_exhausted
    then save_then p before (count_throttled s) (http_error 429) none
    else if req.scenario == scenario_rate_limit
    then submit_limited p now before req s
    else if req.scenario == scenario_transient_server_error
    then submit_unavailable p now before req s
    else if req.scenario == scenario_timeout_lost
    then submit_lost p now before req s
    else if req.scenario == scenario_reject
    then submit_rejected p now before req s
    else submit_accepted p now before req s

-- POST /submissions. The body is given as what json decoding makes of it.
unfoldable pub handle_submit : Persist → ℤ → Option SubmitRequest → Server → Handled
unfolding submit_existing submit_new
handle_submit p now none s = record { response = http_error 400; server = s; scheduled = none }
handle_submit p now (some req) s =
    if req.submission_id == ""
    then record { response = http_error 400; server = s; scheduled = none }
    else elim (lookup req.submission_id s.subs) [
      | some existing ↦ submit_existing p (snapshot s) req existing (count_attempt s)
      | none ↦ submit_new p now (snapshot s) req (count_attempt s)
    ]

pub record StatusResponse : Type 0 where
  pub submission_id : String
  pub status : String
  pub outcome : String

-- GET /submissions/{id}
unfoldable pub handle_status : String → Server → StatusResponse
handle_status id s = elim (lookup id s.subs) [
  | none ↦ record { submission_id = id; status = "not_found"; outcome = "" }
  | some sub ↦ record { submission_id = id; status = sub.status; outcome = sub.outcome }
]
