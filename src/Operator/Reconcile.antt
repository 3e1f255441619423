-- ===== src/Operator/Reconcile.antt =====
-- `reconcile` and `finalCommandType` of cmd/opsctl/main.go. DBOS, the provider and the service are given
-- by what they answer in the round of one filing. An error ends the process, so a round ends with the
-- line that it prints or with an error.
use dbos_conformance.Common.{
  String, ℤ, Bool, not, Option, none, some, List, [], ◌∷◌, ◌++◌, ◌==◌, ◌!=◌, string_eq,
  if◌then◌else◌, Result, ok, err, ◌+ℤ◌, ◌-ℤ◌, int_ltb,
}
use dbos_conformance.Domain.{FilingInput, state_needs_review}
use dbos_conformance.Domain.Identity.{outcome_command_key, provider_operation_id}
use dbos_conformance.Accountable.Command.{
  CommandRequest, CommandResult, mark_accepted, mark_rejected,
}
use dbos_conformance.Accountable.Queries.{Filing as Served}
use dbos_conformance.Authority.Submit.{StatusResponse}
use dbos_conformance.Workflow.Outcome.{canon}
use dbos_conformance.Operator.Enqueue as Enqueue
use dbos_conformance.Operator.Enqueue.{Enqueued}
use dbos_conformance.Workflow.Reconcile.{
  WorkflowStatus, cancelled, pending, enqueued, delayed, success, failed, other, KnownWorkflow,
  input_of,
}

unfoldable pub final_command_type : String → Option String
final_command_type outcome =
    if outcome == "accepted"
    then some mark_accepted
    else if outcome == "rejected"
    then some mark_rejected
    else none

pub record Answers : Type 0 where
  pub listed : Result String (List KnownWorkflow)
  -- auth.Status, by the operation ID that it is asked for.
  pub provider : String → Result String StatusResponse
  pub applied : Result String CommandResult
  pub deleted : Result String (Unit {0})
  pub enqueue : Enqueued

-- The calls that change something. An enqueued workflow carries the application version.
pub data Act : Type 0 where
  sends_command : CommandRequest → Act
  deletes_workflow : String → Act
  enqueues : String → FilingInput → String → Act

-- The lines that are printed, by their first word and, for ESCALATE, the reason.
pub data Line : Type 0 where
  escalate : String → Line
  final finalized healthy recreate recreated_failed missing recreated_missing : Line

pub record Round : Type 0 where
  pub acts : List Act
  pub line : Result String Line

abbrev pub prints : Line → Round
prints line = record { acts = []; line = ok line }

abbrev pub exits : String → Round
exits e = record { acts = []; line = err e }

-- check(err) after the last call.
abbrev pub checked {ℓ} : {A : Type ℓ} → Result String A → Line → Result String Line
checked (ok a) line = ok line
checked (err e) line = err e

-- check(err) after client.Enqueue, which has an error for a conflicting workflow too.
abbrev pub checked_enqueue : Enqueued → Line → Result String Line
checked_enqueue Enqueue.enqueued line = ok line
checked_enqueue (Enqueue.conflicting e) line = err e
checked_enqueue (Enqueue.enqueue_failed e) line = err e

abbrev pub final_command : Served → String → CommandRequest
final_command f type = record {
  idempotency_key = outcome_command_key (canon (input_of f));
  command_type = type;
  filing_id = f.filing_id;
  tax_year = f.tax_year;
  provider_operation_id = "";
  detail = "resolved from completed provider operation";
}

unfoldable pub record_final : Bool → Answers → Served → String → Round
record_final apply ans f type = if not apply then prints final else record {
  acts = sends_command (final_command f type) ∷ [];
  line = checked ans.applied finalized;
}

-- The operation that the provider is asked for.
abbrev pub asked_of : Served → String
asked_of f = provider_operation_id f.filing_id f.tax_year

-- A filing under review: the provider's state decides.
unfoldable pub review : Bool → Answers → Served → StatusResponse → Round
unfolding final_command_type
review apply ans f st =
    if st.status != "completed"
    then prints (escalate "outcome_unresolved")
    else elim (final_command_type st.outcome) [
      | none ↦ prints (escalate "unknown_outcome")
      | some type ↦ record_final apply ans f type
    ]

unfoldable pub inspect_success : Bool → Answers → Served → StatusResponse → Round
unfolding final_command_type
inspect_success apply ans f st = elim (final_command_type st.outcome) [
  | none ↦ prints (escalate "successful_history_without_outcome")
  | some type ↦
      if st.status != "completed"
      then prints (escalate "successful_history_without_outcome")
      else record_final apply ans f type
]

abbrev pub enqueue_of : Served → String → Act
enqueue_of f version = enqueues (canon (input_of f)) (input_of f) version

-- The failed workflow is deleted and enqueued again.
abbrev pub recreate_after : Served → String → Result String (Unit {0}) → Enqueued → Round
recreate_after f version (err e) sent = record {
  acts = deletes_workflow (canon (input_of f)) ∷ [];
  line = err e;
}
recreate_after f version (ok done) sent = record {
  acts = deletes_workflow (canon (input_of f)) ∷ enqueue_of f version ∷ [];
  line = checked_enqueue sent recreated_failed;
}

abbrev pub with_status : Result String StatusResponse → (StatusResponse → Round) → Round
with_status (err e) next = exits e
with_status (ok st) next = next st

unfoldable pub by_status :
    Bool → String → ℤ → ℤ → Answers → Served → WorkflowStatus → KnownWorkflow → Round
unfolding inspect_success
by_status apply version stale now ans f pending w =
    if not (int_ltb (now -ℤ w.updated_at) stale)
    then prints (escalate "stale_active")
    else prints healthy
by_status apply version stale now ans f enqueued w =
    if not (int_ltb (now -ℤ w.updated_at) stale)
    then prints (escalate "stale_active")
    else prints healthy
by_status apply version stale now ans f delayed w =
    if int_ltb now (w.delay_until +ℤ stale)
    then prints healthy
    else prints (escalate "overdue_delay")
by_status apply version stale now ans f cancelled w =
    prints (escalate "cancelled_requires_operator")
by_status apply version stale now ans f failed w =
    if not apply then prints recreate else recreate_after f version ans.deleted ans.enqueue
by_status apply version stale now ans f success w =
    with_status (ans.provider (asked_of f)) (inspect_success apply ans f)
by_status apply version stale now ans f other w = prints (escalate "unsupported_terminal_status")

abbrev pub of_listed : Bool → String → ℤ → ℤ → Answers → Served → List KnownWorkflow → Round
of_listed apply version stale now ans f [] = if not apply then prints missing else record {
  acts = enqueue_of f version ∷ [];
  line = checked_enqueue ans.enqueue recreated_missing;
}
of_listed apply version stale now ans f (w ∷ ws) =
    by_status apply version stale now ans f w.status w

-- The round, once the workflows with the filing's ID are listed.
unfoldable pub examine : Bool → String → ℤ → ℤ → Answers → Served → List KnownWorkflow → Round
unfolding review by_status
examine apply version stale now ans f wfs =
    if f.state == state_needs_review
    then with_status (ans.provider (asked_of f)) (review apply ans f)
    else of_listed apply version stale now ans f wfs

abbrev pub examine_listed :
    Bool → String → ℤ → ℤ → Answers → Served → Result String (List KnownWorkflow) → Round
examine_listed apply version stale now ans f (err e) = exits e
examine_listed apply version stale now ans f (ok wfs) = examine apply version stale now ans f wfs

abbrev pub reconcile_filing : Bool → String → ℤ → ℤ → Answers → Served → Round
reconcile_filing apply version stale now ans f =
    examine_listed apply version stale now ans f ans.listed

-- What the tool has done and printed, and the error that it ended with, if any.
pub record Report : Type 0 where
  pub acts : List Act
  pub lines : List Line
  pub error : Option String

abbrev pub report_after : Round → Report → Report
report_after round rest = elim round.line [
  | err e ↦ record { acts = round.acts; lines = []; error = some e }
  | ok line ↦ record {
    acts = round.acts ++ rest.acts;
    lines = line ∷ rest.lines;
    error = rest.error;
  }
]

-- The loop over the filings that the service lists, each with the answers of its round.
unfoldable pub reconcile : Bool → String → ℤ → ℤ → (Served → Answers) → List Served → Report
unfolding examine
reconcile apply version stale now ans [] = record { acts = []; lines = []; error = none }
reconcile apply version stale now ans (f ∷ fs) =
    report_after (reconcile_filing apply version stale now (ans f) f)
      (reconcile apply version stale now ans fs)
