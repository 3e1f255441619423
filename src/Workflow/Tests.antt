-- ===== src/Workflow/Tests.antt =====
-- Runs of internal/workflow/filing.go at concrete answers of its steps.
use dbos_conformance.Common.{List, [], ◌∷◌, ◌≤◌, String, pos, true, ok, err, ◌≡◌, refl, All, ◌⊎◌}
use dbos_conformance.Domain.{FilingInput, FilingResult, scenario_ok, state_ready, state_accepted}
use dbos_conformance.Accountable.Command.{CommandResult}
use dbos_conformance.Accountable.Queries.{Filing as Served}
use dbos_conformance.Authority.Submit.{StatusResponse}
use dbos_conformance.Workflow.Steps.{Answers, timed_out}
use dbos_conformance.Workflow.Outcome.{Config, map_outcome}
use dbos_conformance.Workflow.Filing.{filing_workflow}
use dbos_conformance.Workflow.Reconcile.{Looks, started, reconcile, reconcile_filing}
use dbos_conformance.Workflow.Tally.{settled, no_counts, reconcile_counts_bounded}
use dbos_conformance.Workflow.Canonical.{Canonical}
use dbos_conformance.Workflow.Acts.{workflow_acts_canonically}
use dbos_conformance.Workflow.Smooth.{GoesWell, by_poll}
use dbos_conformance.Workflow.Finishes.{workflow_finishes}
use dbos_conformance.Workflow.Told.{FoundFinal}
use dbos_conformance.Workflow.Entry.{Entered}
use dbos_conformance.Workflow.Recorded.{outcome_is_recorded}
use dbos_conformance.Workflow.Evidence.{Backed}
use dbos_conformance.Workflow.Evidence.Whole.{workflow_acts_on_evidence}
use dbos_conformance.Workflow.Evidence.Net.{NetBacked, safety_net_acts_on_evidence}
use dbos_conformance.Workflow.Intent.{NoSubmission, submission_needs_intent}

abbrev input : FilingInput
input = record { filing_id = "f1"; tax_year = pos 2024; scenario = scenario_ok }

abbrev config : Config
config = record { callback_url = "http://worker"; v2 = true; status_polls = pos 3 }

abbrev served : String → String → Served
served state operation = record {
  filing_id = "f1";
  tax_year = pos 2024;
  scenario = scenario_ok;
  state = state;
  provider_operation_id = operation;
  updated_at = pos 0;
}

abbrev moved : String → CommandResult
moved state = record {
  filing_id = "f1";
  new_state = state;
  provider_operation_id = "filing-f1-y2024";
  applied = true;
  duplicate_attempts = 0;
}

abbrev unknown : StatusResponse
unknown = record { submission_id = "filing-f1-y2024"; status = "not_found"; outcome = "" }

-- The submission is accepted, the first wait ends without a callback, and a poll finds the outcome.
abbrev answers : Answers
answers = record {
  validate = ok (served state_ready "");
  patch = ok true;
  risk_precheck = ok "risk-ok";
  prepare_submission = ok (moved "submitting");
  find_existing = ok unknown;
  submit = ok (record { result = "accepted"; detail = "" });
  resolve_ambiguous = ok unknown;
  resubmit = err "unused";
  mark_submitted = ok (moved "submitted");
  recv = λ i. timed_out;
  poll_status = λ i. ok (record unknown { status = "completed"; outcome = "accepted" });
  record_outcome = ok (moved "accepted");
  reconcile_final = ok (served state_accepted "filing-f1-y2024");
}

accepted_by_poll :
    (filing_workflow config answers input).result
    ≡ ok (record {
      filing_id = "f1";
      outcome = "accepted";
      detail = "via status poll (callback missing)";
    })
unfolding filing_workflow
accepted_by_poll = refl

workflow_acts_canonically_example :
    All (Canonical input) (filing_workflow config answers input).actions
workflow_acts_canonically_example = workflow_acts_canonically config answers input

submission_needs_intent_example :
    All NoSubmission
      (filing_workflow config
        (record answers { prepare_submission = err "HTTP 500" })
        input).actions
submission_needs_intent_example =
    submission_needs_intent config (record answers { prepare_submission = err "HTTP 500" }) input
      (served state_ready "") "HTTP 500" refl refl refl

abbrev looks : Looks
looks = record {
  reviewed = ok (record unknown { status = "completed"; outcome = "accepted" });
  listed = ok [];
  inspected = ok unknown;
  recorded = ok (moved "accepted");
  deleted = ok tt;
  start = started;
}

abbrev due : List Served
due = served "needs_review" "filing-f1-y2024" ∷ served state_ready "" ∷ []

reconcile_counts_bounded_example :
    (settled (record no_counts { started = 1; finalized = 1 }) ≤ 2) × (0 ≤ 2)
unfolding reconcile
reconcile_counts_bounded_example =
    reconcile_counts_bounded (pos 30) (pos 100) (λ i. looks) due
      (record no_counts { started = 1; finalized = 1 }) refl

abbrev concluded : FilingResult
concluded = record {
  filing_id = "f1";
  outcome = "accepted";
  detail = "via status poll (callback missing)";
}

outcome_is_recorded_example :
    ((concluded.outcome ≡ "already_final") × FoundFinal answers)
    ⊎ Entered
        (ok (moved "accepted"))
        input
        concluded.outcome
        (filing_workflow config answers input).actions
unfolding filing_workflow
outcome_is_recorded_example = outcome_is_recorded config answers input concluded refl

abbrev smooth : Answers
smooth = record answers { resubmit = ok (record { result = "accepted"; detail = "" }) }

goes_well : GoesWell config smooth input
goes_well = record {
  filing = served state_ready "";
  validate = refl;
  open_state = refl;
  own_operation = refl;
  patched = true;
  patch = refl;
  risk = "risk-ok";
  risk_precheck = refl;
  prepared = moved "submitting";
  prepare_submission = refl;
  existing = unknown;
  find_existing = refl;
  sub = record { result = "accepted"; detail = "" };
  submit = refl;
  resolved = unknown;
  resolve_ambiguous = refl;
  again = record { result = "accepted"; detail = "" };
  resubmit = refl;
  marked = moved "submitted";
  mark_submitted = refl;
  more = 2;
  rounds = refl;
  outcome = "accepted";
  named = refl;
  decides =
      by_poll (record unknown { status = "completed"; outcome = "accepted" }) refl refl refl refl;
  stored = moved "accepted";
  record_outcome = refl;
  final = served state_accepted "filing-f1-y2024";
  reconcile_final = refl;
  agrees = unfold map_outcome in refl;
}

workflow_finishes_example :
    (r : FilingResult) × ((filing_workflow config smooth input).result ≡ ok r)
    × Entered (ok (moved "accepted")) input r.outcome (filing_workflow config smooth input).actions
workflow_finishes_example = workflow_finishes config smooth input goes_well

workflow_acts_on_evidence_example :
    All (Backed answers input) (filing_workflow config answers input).actions
workflow_acts_on_evidence_example = workflow_acts_on_evidence config answers input

safety_net_acts_on_evidence_example :
    All
      (NetBacked looks (served "needs_review" "filing-f1-y2024"))
      (reconcile_filing
        (pos 30)
        (pos 100)
        looks
        (served "needs_review" "filing-f1-y2024")
        no_counts).actions
safety_net_acts_on_evidence_example =
    safety_net_acts_on_evidence (pos 30) (pos 100) looks (served "needs_review" "filing-f1-y2024")
      no_counts
