-- ===== src/Operator/Commands.antt =====
-- `send` and `start` of cmd/opsctl/main.go, after the flags are read.
use Prim.Native.String as Text
use dbos_conformance.Common.{String, ℤ, ◌==◌, string_eq, if◌then◌else◌}
use dbos_conformance.Domain.{Callback, FilingInput, callback_topic}
use dbos_conformance.Domain.Identity.{workflow_id}
use dbos_conformance.Worker.Callbacks.{Signal}

-- The key of `send`: by default the workflow's ID and the outcome.
abbrev pub key_or_default : String → String → String → String
key_or_default key id outcome =
    if key == "" then Text.◌++◌ "operator-" (Text.◌++◌ id (Text.◌++◌ "-" outcome)) else key

abbrev pub operator_callback : String → String → String → Callback
operator_callback id outcome key = record {
  callback_id = key_or_default key id outcome;
  submission_id = id;
  outcome = outcome;
  detail = "manually delivered by operator";
}

-- The arguments of client.Send.
unfoldable pub send : String → String → String → Signal
send id outcome key = record {
  workflow_id = id;
  message = operator_callback id outcome key;
  topic = callback_topic;
  idempotency_key = key_or_default key id outcome;
}

-- The ID and the input that `start` enqueues.
abbrev pub start_input : String → ℤ → String → FilingInput
start_input filing year scenario = record {
  filing_id = filing;
  tax_year = year;
  scenario = scenario;
}

abbrev pub start_id : String → ℤ → String
start_id filing year = workflow_id filing year
