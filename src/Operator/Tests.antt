-- ===== src/Operator/Tests.antt =====
-- cmd/opsctl/main.go at concrete filings and answers.
use dbos_conformance.Common.{
  String, pos, true, false, Option, none, List, [], ◌∷◌, ok, err, ◌≡◌, ◌↔◌, refl, All,
}
use dbos_conformance.Domain.{FilingInput, scenario_ok, state_needs_review, state_submitted}
use dbos_conformance.Domain.Json.{Json}
use dbos_conformance.Domain.Input.{typed}
use dbos_conformance.Accountable.Queries.{Filing as Served}
use dbos_conformance.Workflow.Reconcile as Net
use dbos_conformance.Workflow.Reconcile.{failed, Counts, input_of, KnownWorkflow}
use dbos_conformance.Operator.Enqueue as Direct
use dbos_conformance.Operator.Enqueue.{enqueued, conflicting, enqueue_filing}
use dbos_conformance.Operator.Start.{Went, Persists, acknowledged_iff_persisted}
use dbos_conformance.Operator.Reconcile.{Answers, reconcile_filing}
use dbos_conformance.Operator.Tool as Tool
use dbos_conformance.Operator.Tool.{Replies, run}
use dbos_conformance.Operator.ReadOnly.{Reads, looking_changes_nothing}
use dbos_conformance.Operator.Evidence.{Proven, acts_on_evidence}

abbrev filing : String → Served
filing state = record {
  filing_id = "f1";
  tax_year = pos 2024;
  scenario = scenario_ok;
  state = state;
  provider_operation_id = "filing-f1-y2024";
  updated_at = pos 0;
}

abbrev broken : List KnownWorkflow
broken = record { status = failed; updated_at = pos 10; delay_until = pos 0 } ∷ []

-- The workflow has failed, and the provider has accepted the operation.
abbrev answers : Answers
answers = record {
  listed = ok broken;
  provider = λ id.
      ok (record { submission_id = "filing-f1-y2024"; status = "completed"; outcome = "accepted" });
  applied = ok (record {
    filing_id = "f1";
    new_state = "accepted";
    provider_operation_id = "filing-f1-y2024";
    applied = true;
    duplicate_attempts = 0;
  });
  deleted = ok tt;
  enqueue = enqueued;
}

-- The failed workflow is deleted, but its ID is taken again.
abbrev refused : Answers
refused = record answers { enqueue = conflicting "conflicting workflow" }

abbrev due : List Served
due = filing state_needs_review ∷ filing state_submitted ∷ []

abbrev replies : Replies
replies = record {
  listed = ok tt;
  retrieved = ok tt;
  status = ok tt;
  steps = err "unused";
  cancelled = err "unused";
  resumed = err "unused";
  sent = err "unused";
  enqueued = record {
    enqueue = λ id input. enqueued;
    listed = λ id. ok [];
    exchange = err "unused";
  };
  filings = ok due;
  round = λ f. answers;
  now = pos 100;
}

looking_changes_nothing_example :
    All Reads
      (run (λ t. none) (λ i. "") (λ t. "") replies (Tool.reconcile false (pos 30) "v1")).calls
looking_changes_nothing_example =
    looking_changes_nothing (λ t. none) (λ i. "") (λ t. "") replies
      (Tool.reconcile false (pos 30) "v1") refl

acts_on_evidence_example :
    All
      (Proven answers (filing state_submitted))
      (reconcile_filing true "v1" (pos 30) (pos 100) answers (filing state_submitted)).acts
acts_on_evidence_example =
    acts_on_evidence true "v1" (pos 30) (pos 100) answers (filing state_submitted)

abbrev no_counts : Counts
no_counts = record { started = 0; finalized = 0; recreated = 0; escalated = 0 }

abbrev parse : String → Option Json
parse s = none

abbrev render : FilingInput → String
render input = "{}"

abbrev digest : String → String
digest s = "00"

abbrev direct : Direct.Answers
direct = record {
  enqueue = λ id input. enqueued;
  listed = λ id. ok (typed (input_of (filing state_submitted)) ∷ []);
  exchange = err "unused";
}

acknowledged_iff_persisted_example :
    ((enqueue_filing parse render digest direct "filing-f1-y2024"
        (input_of (filing state_submitted))).0
      ≡ ok tt)
    ↔ (Went (direct.enqueue "filing-f1-y2024" (input_of (filing state_submitted)))
        × Persists parse (direct.listed "filing-f1-y2024") (input_of (filing state_submitted)))
acknowledged_iff_persisted_example =
    acknowledged_iff_persisted parse render digest direct "filing-f1-y2024"
      (input_of (filing state_submitted))
