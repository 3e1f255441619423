-- ===== src/Accountable/Command.antt =====
-- The commands of internal/accountable/server.go: what a request and its answer hold, the state that
-- each command leads to, and the states that permit it.
use dbos_conformance.Common.{
  ℕ, String, ℤ, Bool, true, false, ◌&&◌, ◌||◌, [], ◌∷◌, ◌≡◌, ◌↔◌, arith, Eq, ◌==◌, string_eq,
  int_eq, eq_iff, int_beq_iff, Dict, if◌then◌else◌,
}
use dbos_conformance.Domain.{
  state_ready, state_submitting, state_submitted, state_accepted, state_rejected,
  state_needs_review,
}

pub record CommandRequest : Type 0 where
  pub idempotency_key : String
  pub command_type : String
  pub filing_id : String
  pub tax_year : ℤ
  pub provider_operation_id : String
  pub detail : String

pub record CommandResult : Type 0 where
  pub filing_id : String
  pub new_state : String
  pub provider_operation_id : String
  pub applied : Bool
  pub duplicate_attempts : ℕ

-- Go's `==` on the request struct.
abbrev pub request_beq : CommandRequest → CommandRequest → Bool
request_beq a b =
    a.idempotency_key == b.idempotency_key
    && a.command_type == b.command_type
    && a.filing_id == b.filing_id
    && a.tax_year == b.tax_year
    && a.provider_operation_id == b.provider_operation_id
    && a.detail == b.detail

pub request_beq_iff : (a b : CommandRequest) → (request_beq a b ≡ true) ↔ (a ≡ b)
request_beq_iff a b = ground (
  arith,
  eq_iff a.idempotency_key b.idempotency_key,
  eq_iff a.command_type b.command_type,
  eq_iff a.filing_id b.filing_id,
  int_beq_iff a.tax_year b.tax_year,
  eq_iff a.provider_operation_id b.provider_operation_id,
  eq_iff a.detail b.detail,
)

instance abbrev pub request_eq : Eq CommandRequest
request_eq = record { equals = request_beq; equals_iff = request_beq_iff }

abbrev pub prepare : String
prepare = "PrepareFilingSubmission"

abbrev pub mark_submitted : String
mark_submitted = "MarkFilingSubmitted"

abbrev pub mark_accepted : String
mark_accepted = "MarkFilingAccepted"

abbrev pub mark_rejected : String
mark_rejected = "MarkFilingRejected"

abbrev pub mark_needs_review : String
mark_needs_review = "MarkFilingNeedsReview"

abbrev pub command_transitions : Dict String
command_transitions =
    (prepare, state_submitting)
    ∷ (mark_submitted, state_submitted)
    ∷ (mark_accepted, state_accepted)
    ∷ (mark_rejected, state_rejected)
    ∷ (mark_needs_review, state_needs_review)
    ∷ []

unfoldable pub command_allows_state : String → String → Bool
command_allows_state command_type state =
    if command_type == prepare
    then state == state_ready || state == state_submitting
    else if command_type == mark_submitted
    then state == state_submitting
    else if command_type == mark_accepted
        || command_type == mark_rejected
        || command_type == mark_needs_review
    then state == state_submitting || state == state_submitted || state == state_needs_review
    else false

-- The errors of `applyCommand`. Those of type *conflictError are told apart by `is_conflict`.
pub data Error : Type 0 where
  unknown_command_type : String → Error
  key_reused : String → Error
  filing_not_found : String → ℤ → Error
  cannot_transition : String → String → ℤ → String → Error
  operation_id_required : Error
  no_longer_permits : String → ℤ → String → Error
  database_error : Error
  undecodable : Error

-- errors.As(err, &conflict)
unfoldable pub is_conflict : Error → Bool
is_conflict (key_reused _) = true
is_conflict (cannot_transition _ _ _ _) = true
is_conflict (no_longer_permits _ _ _) = true
is_conflict _ = false
