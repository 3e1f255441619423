-- ===== src/Worker/Settings.antt =====
-- The settings that `main` of cmd/worker/main.go hands to the workflow. `env` is os.Getenv, and
-- `parse_int` and `parse_duration` are strconv.Atoi and time.ParseDuration, `none` on an error.
use dbos_conformance.Common.{String, ℤ, pos, ◌||◌, Option, ◌==◌, string_eq, env_or, env_parsed}
use dbos_conformance.Authority.Ledger.{seconds}
use dbos_conformance.Workflow.Settings.{Settings}

-- The argument of workflow.Configure; `build_variant` is set when the program is linked.
unfoldable pub worker_settings :
    (String → Option ℤ) → (String → Option ℤ) → (String → String) → String → Settings
unfolding env_parsed
worker_settings parse_int parse_duration env build_variant = record {
  accountable_url = env_or env "ACCOUNTABLE_URL" "http://localhost:8081";
  authority_url = env_or env "AUTHORITY_URL" "http://localhost:8082";
  callback_url = env_or env "CALLBACK_URL" "http://localhost:8080/callbacks";
  v2 = build_variant == "v2" || env "V2_ENABLED" == "1";
  recv_timeout = env_parsed parse_duration env "RECV_TIMEOUT" (seconds 20);
  status_polls = env_parsed parse_int env "STATUS_POLLS" (pos 3);
  http_timeout = env_parsed parse_duration env "WORKFLOW_HTTP_TIMEOUT" (seconds 5);
  submit_retry_base = env_parsed parse_duration env "SUBMIT_RETRY_BASE_INTERVAL" (pos 500000000);
  reconcile_stale_seconds = env_parsed parse_int env "RECONCILE_STALE_SECONDS" (pos 30);
}
