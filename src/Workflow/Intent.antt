-- ===== src/Workflow/Intent.antt =====
-- The order of effects in a run of `Filing` of internal/workflow/filing.go.
use Prim.Native.String as Text
use dbos_conformance.Common.{
  String, Bool, true, false, ◌&&◌, ◌||◌, [], ◌==◌, ◌!=◌, string_eq, if◌then◌else◌, ok, err, ◌≡◌,
  refl, sym, ◌∙◌, eq_iff, Bool-cases, inl, inr, All, arith,
}
use dbos_conformance.Domain.{FilingInput, state_ready, state_accepted, state_rejected}
use dbos_conformance.Accountable.Queries.{Filing as Served}
use dbos_conformance.Workflow.Steps.{
  Answers, Action, return, raise, wrap, reads_filing, sends_command, submits, asks_status,
}
use dbos_conformance.Workflow.Outcome.{Config, operation_of, result_of}
use dbos_conformance.Workflow.Filing.{
  risk_precheck, prepare_submission, file_return, filing_workflow,
}
use dbos_conformance.Workflow.Canonical.{All-and_then}

abbrev pub is_submission : Action → Bool
is_submission (submits r) = true
is_submission (reads_filing id year) = false
is_submission (sends_command c) = false
is_submission (asks_status id) = false

abbrev pub NoSubmission : Action → Type 0
NoSubmission a = is_submission a ≡ false

prepare_fails :
    (ans : Answers) (input : FilingInput) (state e : String)
    → state ≡ state_ready
    → ans.prepare_submission ≡ err e
    → (All NoSubmission (prepare_submission ans input state).actions)
      × ((prepare_submission ans input state).result ≡ err e)
unfolding prepare_submission
prepare_fails ans input state e ready failed =
    let test : (state == state_ready) ≡ true = (eq_iff state state_ready).1 ready in
    rw (test, failed, prepare_submission) ((refl, tt), refl)

risk_precheck-NoSubmission :
    (cfg : Config) (ans : Answers) → All NoSubmission (risk_precheck cfg ans).actions
unfolding risk_precheck
risk_precheck-NoSubmission cfg ans = elim (Bool-cases cfg.v2) [
  | inl e ↦
      rw (e, risk_precheck)
        (All-and_then NoSubmission [] (wrap "evaluate v2 patch: " ans.patch) _ tt (λ patched h.
          elim (Bool-cases patched) [
            | inl f ↦ rw f (All-and_then NoSubmission [] ans.risk_precheck _ tt (λ a h. tt))
            | inr f ↦ rw f tt
          ]))
  | inr e ↦ rw (e, risk_precheck) tt
]

-- The submission intent comes before the submission: where the service reports the filing as ready
-- and its PrepareFilingSubmission command fails, the workflow sends no submission to the provider,
-- whatever its other steps return.
pub submission_needs_intent :
    (cfg : Config) (ans : Answers) (input : FilingInput) (filing : Served) (e : String)
    → ans.validate ≡ ok filing
    → filing.state ≡ state_ready
    → ans.prepare_submission ≡ err e
    → All NoSubmission (filing_workflow cfg ans input).actions
unfolding filing_workflow file_return
submission_needs_intent cfg ans input filing e valid ready failed =
    rw (valid, filing_workflow) (refl, goes_on)
  where
    goes_on :
        All NoSubmission
          (if filing.state == state_accepted || filing.state == state_rejected
            then return (
                result_of input "already_final" (Text.◌++◌ "filing already in state " filing.state))
            else if filing.provider_operation_id != ""
                && filing.provider_operation_id != operation_of input
            then raise (
                Text.◌++◌ "provider operation mismatch: accountable=" (
                  Text.◌++◌ filing.provider_operation_id
                    (Text.◌++◌ " canonical=" (operation_of input))))
            else file_return cfg ans input filing.state).actions
    goes_on = elim (Bool-cases (filing.state == state_accepted || filing.state == state_rejected)) [
      | inl e ↦ rw e tt
      | inr e ↦
          elim (Bool-cases (
            filing.provider_operation_id != ""
            && filing.provider_operation_id != operation_of input)) [
              | inl f ↦ rw (e, f) tt
              | inr f ↦
                  let (none_sent, stops) = prepare_fails ans input filing.state _ ready failed in
                  rw (e, f)
                    (All-and_then NoSubmission _ _ _ (risk_precheck-NoSubmission cfg ans) (λ a h.
                      All-and_then NoSubmission _ _ _ none_sent
                        (λ prepared h. let bad = sym stops ∙ h in ground arith)))
            ]
    ]
