-- ===== src/Domain.antt =====
-- internal/domain/types.go: the messages, the scenario names and the filing states. Go's string
-- constants stay texts, since the program compares and stores them as such.
pub mod Decimal
pub mod Identity
pub mod Json
pub mod Input
mod Tests
use dbos_conformance.Common.{
  String, ℤ, Bool, ◌&&◌, ◌≡◌, ◌↔◌, true, arith, Eq, ◌==◌, string_eq, int_eq, eq_iff, int_beq_iff,
}

pub record FilingEvent : Type 0 where
  pub event_id : String
  pub filing_id : String
  pub tax_year : ℤ
  pub scenario : String

pub record FilingInput : Type 0 where
  pub filing_id : String
  pub tax_year : ℤ
  pub scenario : String

pub record FilingResult : Type 0 where
  pub filing_id : String
  pub outcome : String
  pub detail : String

pub record Callback : Type 0 where
  pub callback_id : String
  pub submission_id : String
  pub outcome : String
  pub detail : String

-- Go's `==` on the struct.
abbrev pub input_beq : FilingInput → FilingInput → Bool
input_beq a b = a.filing_id == b.filing_id && a.tax_year == b.tax_year && a.scenario == b.scenario

pub input_beq_iff : (a b : FilingInput) → (input_beq a b ≡ true) ↔ (a ≡ b)
input_beq_iff a b = ground (
  arith,
  eq_iff a.filing_id b.filing_id,
  int_beq_iff a.tax_year b.tax_year,
  eq_iff a.scenario b.scenario,
)

instance abbrev pub input_eq : Eq FilingInput
input_eq = record { equals = input_beq; equals_iff = input_beq_iff }

abbrev pub callback_topic : String
callback_topic = "authority-callback"

abbrev pub scenario_ok : String
scenario_ok = "ok"

abbrev pub scenario_delayed : String
scenario_delayed = "delayed"

abbrev pub scenario_reject : String
scenario_reject = "reject"

abbrev pub scenario_rate_limit : String
scenario_rate_limit = "rate_limit"

abbrev pub scenario_rate_limit_exhausted : String
scenario_rate_limit_exhausted = "rate_limit_exhausted"

abbrev pub scenario_transient_server_error : String
scenario_transient_server_error = "transient_5xx"

abbrev pub scenario_timeout_lost : String
scenario_timeout_lost = "timeout_lost"

abbrev pub scenario_timeout_ambiguous : String
scenario_timeout_ambiguous = "timeout_ambiguous"

abbrev pub scenario_dup_callback : String
scenario_dup_callback = "dup_callback"

abbrev pub scenario_late_callback : String
scenario_late_callback = "late_callback"

abbrev pub scenario_no_callback_done : String
scenario_no_callback_done = "no_callback_done"

abbrev pub state_ready : String
state_ready = "ready"

abbrev pub state_submitting : String
state_submitting = "submitting"

abbrev pub state_submitted : String
state_submitted = "submitted"

abbrev pub state_accepted : String
state_accepted = "accepted"

abbrev pub state_rejected : String
state_rejected = "rejected"

abbrev pub state_needs_review : String
state_needs_review = "needs_review"
