-- ===== src/Workflow/Acts.antt =====
-- What a run of `Filing` of internal/workflow/filing.go does, and under which identities.
use Prim.Native.String as Text
use dbos_conformance.Common.{
  String, ◌&&◌, ◌||◌, [], ◌==◌, ◌!=◌, string_eq, refl, Bool-cases, Result-cases, inl, inr, All,
}
use dbos_conformance.Domain.{
  FilingInput, state_ready, state_accepted, state_rejected, state_needs_review,
}
use dbos_conformance.Domain.Identity.Distinct.{submission_intent}
use dbos_conformance.Accountable.Handlers.{rounds_of}
use dbos_conformance.Authority.Submit.{StatusResponse}
use dbos_conformance.Authority.Client.{SubmitOutcome}
use dbos_conformance.Workflow.Steps.{Answers, Run, wrap, reads_filing, submits, asks_status}
use dbos_conformance.Workflow.Outcome.{Config, map_outcome, operation_of}
use dbos_conformance.Workflow.Filing.{
  risk_precheck, prepare_submission, after_submission, resolve_submission, submission_of,
  first_submission, continue_from, file_return, filing_workflow,
}
use dbos_conformance.Workflow.Canonical.{
  Canonical, AllCanonical, All-and_then, step-Canonical, command-Canonical,
  record_outcome-Canonical, wait_outcome-Canonical, decided-Canonical, report_submitted-Canonical,
}

module _ (cfg : Config) (ans : Answers) (input : FilingInput) where
  abbrev Acts : {A : Type 0} → Run A → Type 0
  Acts r = AllCanonical ans input r.actions

  submission-Canonical : Canonical input (submits (submission_of cfg input))
  unfolding Canonical
  submission-Canonical = (refl, refl)

  status-Canonical : (id : String) → Canonical input (asks_status id)
  unfolding Canonical
  status-Canonical id = tt

  reads-Canonical : Canonical input (reads_filing input.filing_id input.tax_year)
  unfolding Canonical
  reads-Canonical = (refl, refl)

  after_submission-Canonical :
      (state id : String) (sub : SubmitOutcome) → Acts (after_submission cfg ans input state id sub)
  unfolding after_submission
  after_submission-Canonical state id sub = elim (Bool-cases (sub.result == "rejected")) [
    | inl e ↦
        rw (e, after_submission)
          (All-and_then (Canonical input) _ _ _
            (record_outcome-Canonical ans input state_rejected sub.detail) (λ a h. tt))
    | inr e ↦
        rw (e, after_submission)
          (All-and_then (Canonical input) _ _ _ (report_submitted-Canonical ans input state) (λ a h.
            All-and_then (Canonical input) _ _ _
              (wait_outcome-Canonical ans input id (rounds_of cfg.status_polls) 0)
              (λ found h. decided-Canonical ans input found)))
  ]

  resolve_submission-Canonical :
      (state : String) (sub : SubmitOutcome) → Acts (resolve_submission cfg ans input state sub)
  unfolding resolve_submission
  resolve_submission-Canonical state sub = elim (Bool-cases (sub.result == "ambiguous")) [
    | inl e ↦
        rw (e, resolve_submission)
          (step-Canonical ans input _ ans.resolve_ambiguous _ (status-Canonical _) (λ st.
            elim (Bool-cases (st.status == "not_found")) [
              | inl f ↦ rw f (
                  step-Canonical ans input _ ans.resubmit _ submission-Canonical
                    (λ again. after_submission-Canonical state _ again))
              | inr f ↦ elim (Bool-cases (st.status == "completed")) [
                | inl g ↦
                    rw (f, g)
                      (All-and_then (Canonical input) _ _ _
                        (record_outcome-Canonical ans input (map_outcome st.outcome) _) (λ a h. tt))
                | inr g ↦
                    rw (f, g)
                      (after_submission-Canonical state (operation_of input)
                        (record { result = "accepted"; detail = "confirmed via status check" }))
              ]
            ]))
    | inr e ↦ rw (e, resolve_submission) (after_submission-Canonical state _ sub)
  ]

  first_submission-Canonical : (state : String) → Acts (first_submission cfg ans input state)
  unfolding first_submission
  first_submission-Canonical state = elim (Result-cases ans.submit) [
    | inl (error, e) ↦
        rw (e, first_submission)
          (submission-Canonical, record_outcome-Canonical ans input state_needs_review _)
    | inr (sub, e) ↦
        rw (e, first_submission) (submission-Canonical, resolve_submission-Canonical state sub)
  ]

  continue_from-Canonical :
      (state : String) (existing : StatusResponse)
      → Acts (continue_from cfg ans input state existing)
  unfolding continue_from
  continue_from-Canonical state existing = elim (Bool-cases (existing.status == "completed")) [
    | inl e ↦
        rw (e, continue_from)
          (All-and_then (Canonical input) _ _ _
            (record_outcome-Canonical ans input (map_outcome existing.outcome) _) (λ a h. tt))
    | inr e ↦ elim (Bool-cases (existing.status == "processing")) [
      | inl f ↦
          rw (e, f, continue_from)
            (after_submission-Canonical state existing.submission_id (record {
              result = "accepted";
              detail = Text.◌++◌ "adopted in-flight submission " existing.submission_id;
            }))
      | inr f ↦ rw (e, f, continue_from) (first_submission-Canonical state)
    ]
  ]

  prepare_submission-Canonical : (state : String) → Acts (prepare_submission ans input state)
  unfolding prepare_submission
  prepare_submission-Canonical state = elim (Bool-cases (state == state_ready)) [
    | inl e ↦
        rw (e, prepare_submission)
          (step-Canonical ans input _ ans.prepare_submission _
            (command-Canonical ans input submission_intent _ _ _) (λ a. tt))
    | inr e ↦ rw (e, prepare_submission) tt
  ]

  risk_precheck-Canonical : Acts (risk_precheck cfg ans)
  unfolding risk_precheck
  risk_precheck-Canonical = elim (Bool-cases cfg.v2) [
    | inl e ↦
        rw (e, risk_precheck)
          (All-and_then (Canonical input) [] (wrap "evaluate v2 patch: " ans.patch) _ tt
            (λ patched h. elim (Bool-cases patched) [
              | inl f ↦ rw f (All-and_then (Canonical input) [] ans.risk_precheck _ tt (λ a h. tt))
              | inr f ↦ rw f tt
            ]))
    | inr e ↦ rw (e, risk_precheck) tt
  ]

  file_return-Canonical : (state : String) → Acts (file_return cfg ans input state)
  unfolding file_return
  file_return-Canonical state = All-and_then (Canonical input) _ _ _ risk_precheck-Canonical (λ a h.
      All-and_then (Canonical input) _ _ _ (prepare_submission-Canonical state) (λ prepared h.
        step-Canonical ans input _ ans.find_existing _ (status-Canonical _)
          (λ existing. continue_from-Canonical prepared existing)))

-- Whatever the steps of one execution of the workflow return, each of its calls that can have an
-- effect is under the canonical identities of its input: every command is for the filing and its tax
-- year, under one of the four keys of their workflow ID, and every submission is for the filing, under
-- their provider operation ID. Every read of the filing is of this filing too.
pub workflow_acts_canonically :
    (cfg : Config) (ans : Answers) (input : FilingInput)
    → All (Canonical input) (filing_workflow cfg ans input).actions
unfolding filing_workflow
workflow_acts_canonically cfg ans input =
    step-Canonical ans input _ (wrap "validate: " ans.validate) _ (reads-Canonical cfg ans input)
      (λ filing.
        elim (Bool-cases (filing.state == state_accepted || filing.state == state_rejected)) [
          | inl e ↦ rw e tt
          | inr e ↦
              elim (Bool-cases (
                filing.provider_operation_id != ""
                && filing.provider_operation_id != operation_of input)) [
                  | inl f ↦ rw (e, f) tt
                  | inr f ↦ rw (e, f) (file_return-Canonical cfg ans input filing.state)
                ]
        ])
