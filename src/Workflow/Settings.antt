-- ===== src/Workflow/Settings.antt =====
-- `Configure` of internal/workflow/filing.go. A duration is an integer, in nanoseconds.
use dbos_conformance.Common.{String, ℤ, pos, Bool, ◌==◌, string_eq, int_eq, if◌then◌else◌}
use dbos_conformance.Authority.Ledger.{seconds}
use dbos_conformance.Workflow.Outcome.{Config}

-- The type `Config`, with all its fields.
pub record Settings : Type 0 where
  pub accountable_url : String
  pub authority_url : String
  pub callback_url : String
  pub v2 : Bool
  pub recv_timeout : ℤ
  pub status_polls : ℤ
  pub http_timeout : ℤ
  pub submit_retry_base : ℤ
  pub reconcile_stale_seconds : ℤ

-- A value that is left out is zero.
abbrev pub default_to : ℤ → ℤ → ℤ
default_to default value = if value == pos 0 then default else value

unfoldable pub configure : Settings → Settings
configure c = record {
  accountable_url = c.accountable_url;
  authority_url = c.authority_url;
  callback_url = c.callback_url;
  v2 = c.v2;
  recv_timeout = default_to (seconds 20) c.recv_timeout;
  status_polls = default_to (pos 3) c.status_polls;
  http_timeout = default_to (seconds 5) c.http_timeout;
  submit_retry_base = default_to (pos 500000000) c.submit_retry_base;
  reconcile_stale_seconds = default_to (pos 30) c.reconcile_stale_seconds;
}

-- The fields that the workflow reads of what Configure has kept.
abbrev pub config_of : Settings → Config
config_of c = record { callback_url = c.callback_url; v2 = c.v2; status_polls = c.status_polls }
