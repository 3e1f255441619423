-- ===== src/Workflow/Evidence/Whole.antt =====
-- The whole workflow of internal/workflow/filing.go rests on what the provider shows.
use Prim.Native.String as Text
use dbos_conformance.Common.{
  String, ◌&&◌, ◌||◌, [], ◌∷◌, ◌==◌, ◌!=◌, string_eq, ok, ◌≡◌, refl, arith, eq_iff, inl, inr, All,
  Bool-cases, Result-cases,
}
use dbos_conformance.Domain.{FilingInput, state_accepted, state_rejected}
use dbos_conformance.Authority.Submit.{StatusResponse}
use dbos_conformance.Authority.Client.{SubmitOutcome}
use dbos_conformance.Workflow.Steps.{Answers, wrap, reads_filing, submits, asks_status}
use dbos_conformance.Workflow.Outcome.{Config, operation_of, map_outcome}
use dbos_conformance.Workflow.Filing.{
  risk_precheck, resolve_submission, submission_of, first_submission, continue_from, file_return,
  filing_workflow,
}
use dbos_conformance.Workflow.Canonical.{All-and_then}
use dbos_conformance.Workflow.Evidence.{
  Shows, found, resolved, turned_down, Backed, IsBacked, Shows-Shown, review-Shown,
  record_outcome-Backed,
}
use dbos_conformance.Workflow.Evidence.Waits.{prepare_submission-Backed, after_submission-Backed}

module _ (cfg : Config) (ans : Answers) (input : FilingInput) where
  confirmed : ◌≡◌ {A = String} "accepted" "rejected" → Shows ans input "rejected"
  confirmed e = ground (arith, eq_iff "accepted" "rejected")

  resolve_submission-Backed :
      (state : String) (sub : SubmitOutcome)
      → ans.submit ≡ ok sub
      → IsBacked ans input (resolve_submission cfg ans input state sub)
  unfolding Backed resolve_submission
  resolve_submission-Backed state sub said = elim (Bool-cases (sub.result == "ambiguous")) [
    | inl e ↦
        rw (e, resolve_submission)
          (All-and_then (Backed ans input) (asks_status (operation_of input) ∷ [])
            ans.resolve_ambiguous _ (tt, tt)
            (λ st h. elim (Bool-cases (st.status == "not_found")) [
              | inl f ↦ rw f (
                  All-and_then (Backed ans input) (submits (submission_of cfg input) ∷ [])
                    ans.resubmit _ (tt, tt)
                    (λ again k.
                      after_submission-Backed ans input cfg state (operation_of input) again
                        (inl refl) (λ r. turned_down again (inr k) r refl)))
              | inr f ↦ elim (Bool-cases (st.status == "completed")) [
                | inl g ↦
                    rw (f, g)
                      (All-and_then (Backed ans input) _ _ _
                        (record_outcome-Backed ans input st.outcome _ (
                          Shows-Shown ans input st.outcome
                            (resolved st h ((eq_iff st.status "completed").0 g) refl)))
                        (λ a h. tt))
                | inr g ↦
                    rw (f, g)
                      (after_submission-Backed ans input cfg state (operation_of input)
                        (record { result = "accepted"; detail = "confirmed via status check" })
                        (inl refl) confirmed)
              ]
            ]))
    | inr e ↦
        rw (e, resolve_submission)
          (after_submission-Backed ans input cfg state (operation_of input) sub (inl refl)
            (λ r. turned_down sub (inl said) r refl))
  ]

  first_submission-Backed :
      (state : String) → IsBacked ans input (first_submission cfg ans input state)
  unfolding Backed first_submission map_outcome
  first_submission-Backed state = elim (Result-cases ans.submit) [
    | inl (error, e) ↦
        simp (e, first_submission)
          (tt, record_outcome-Backed ans input "needs_review" _ (review-Shown ans input))
    | inr (sub, e) ↦ simp (e, first_submission) (tt, resolve_submission-Backed state sub e)
  ]

  continue_from-Backed :
      (state : String) (existing : StatusResponse)
      → ans.find_existing ≡ ok existing
      → IsBacked ans input (continue_from cfg ans input state existing)
  unfolding continue_from
  continue_from-Backed state existing told = elim (Bool-cases (existing.status == "completed")) [
    | inl e ↦
        rw (e, continue_from)
          (All-and_then (Backed ans input) _ _ _
            (record_outcome-Backed ans input existing.outcome _ (
              Shows-Shown ans input existing.outcome
                (found existing told ((eq_iff existing.status "completed").0 e) refl)))
            (λ a h. tt))
    | inr e ↦ elim (Bool-cases (existing.status == "processing")) [
      | inl f ↦
          rw (e, f, continue_from)
            (after_submission-Backed ans input cfg state existing.submission_id
              (record {
                result = "accepted";
                detail = Text.◌++◌ "adopted in-flight submission " existing.submission_id;
              })
              (inr (existing, told, refl)) confirmed)
      | inr f ↦ rw (e, f, continue_from) (first_submission-Backed state)
    ]
  ]

  risk_precheck-Backed : IsBacked ans input (risk_precheck cfg ans)
  unfolding risk_precheck
  risk_precheck-Backed = elim (Bool-cases cfg.v2) [
    | inl e ↦
        rw (e, risk_precheck)
          (All-and_then (Backed ans input) [] (wrap "evaluate v2 patch: " ans.patch) _ tt
            (λ patched h. elim (Bool-cases patched) [
              | inl f ↦ rw f (All-and_then (Backed ans input) [] ans.risk_precheck _ tt (λ a h. tt))
              | inr f ↦ rw f tt
            ]))
    | inr e ↦ rw (e, risk_precheck) tt
  ]

  file_return-Backed : (state : String) → IsBacked ans input (file_return cfg ans input state)
  unfolding Backed file_return
  file_return-Backed state = All-and_then (Backed ans input) _ _ _ risk_precheck-Backed (λ a h.
      All-and_then (Backed ans input) _ _ _ (prepare_submission-Backed ans input state)
        (λ prepared h.
          All-and_then (Backed ans input) (asks_status (operation_of input) ∷ []) ans.find_existing
            _ (tt, tt) (λ existing told. continue_from-Backed prepared existing told)))

-- An execution of the workflow commands the service to accept or to reject a filing only on evidence,
-- whatever else its steps return: one of its status answers says that the operation is completed with
-- that outcome, or a callback that it received says so, or, for a rejection, a submission was answered
-- with it.
pub workflow_acts_on_evidence :
    (cfg : Config) (ans : Answers) (input : FilingInput)
    → All (Backed ans input) (filing_workflow cfg ans input).actions
unfolding Backed filing_workflow
workflow_acts_on_evidence cfg ans input =
    All-and_then (Backed ans input) (reads_filing input.filing_id input.tax_year ∷ [])
      (wrap "validate: " ans.validate) _ (tt, tt)
      (λ filing h.
        elim (Bool-cases (filing.state == state_accepted || filing.state == state_rejected)) [
          | inl e ↦ rw e tt
          | inr e ↦
              elim (Bool-cases (
                filing.provider_operation_id != ""
                && filing.provider_operation_id != operation_of input)) [
                  | inl f ↦ rw (e, f) tt
                  | inr f ↦ rw (e, f) (file_return-Backed cfg ans input filing.state)
                ]
        ])
