-- ===== src/Worker/Callbacks.antt =====
-- `serveCallbacks` of cmd/worker/main.go: POST /callbacks.
use dbos_conformance.Common.{ℕ, String, ◌||◌, Option, none, some, ◌==◌, string_eq, if◌then◌else◌}
use dbos_conformance.Domain.{Callback, callback_topic}

-- The arguments of dbos.Send.
pub record Signal : Type 0 where
  pub workflow_id : String
  pub message : Callback
  pub topic : String
  pub idempotency_key : String

-- How dbos.Send ends: well, with NonExistentWorkflowError, or with another error.
pub data Sent : Type 0 where
  sent unknown_workflow send_failed : Sent

abbrev pub signal_of : Callback → Signal
signal_of cb = record {
  workflow_id = cb.submission_id;
  message = cb;
  topic = callback_topic;
  idempotency_key = cb.callback_id;
}

abbrev pub answer_to : Sent → ℕ
answer_to sent = 202
answer_to unknown_workflow = 503
answer_to send_failed = 500

-- The status code of the answer, for what json decoding makes of the body.
unfoldable pub handle_callback : (Signal → Sent) → Option Callback → ℕ
handle_callback send none = 400
handle_callback send (some cb) =
    if cb.submission_id == "" || cb.callback_id == "" then 400 else answer_to (send (signal_of cb))
