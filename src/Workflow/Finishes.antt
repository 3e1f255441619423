-- ===== src/Workflow/Finishes.antt =====
-- When a run of internal/workflow/filing.go comes to an end.
use Prim.Native.String as Text
use dbos_conformance.Common.{
  String, false, ◌==◌, ◌!=◌, string_eq, if◌then◌else◌, ok, ◌≡◌, refl, arith, inl, inr, Bool-cases,
}
use dbos_conformance.Domain.{
  FilingInput, FilingResult, state_ready, state_submitted, state_rejected,
}
use dbos_conformance.Accountable.Handlers.{rounds_of}
use dbos_conformance.Authority.Submit.{StatusResponse}
use dbos_conformance.Authority.Client.{SubmitOutcome}
use dbos_conformance.Workflow.Steps.{
  Answers, step, return, wrap, reads_filing, submits, asks_status, ◌>>=◌, ◌>>◌,
}
use dbos_conformance.Workflow.Outcome.{Config, map_outcome, operation_of, record_outcome, result_of}
use dbos_conformance.Workflow.Filing.{
  filing_workflow, file_return, continue_from, first_submission, resolve_submission,
  after_submission, decided, conclude, wait_outcome, poll_round, report_submitted,
  prepare_submission, risk_precheck, submission_of,
}
use dbos_conformance.Workflow.Entry.{Entered}
use dbos_conformance.Workflow.Recorded.{outcome_is_recorded}
use dbos_conformance.Workflow.Smooth.{
  open_not_final, Decides, by_callback, by_poll, GoesWell, Ends, then-Ends,
}

module _ (cfg : Config) (ans : Answers) (input : FilingInput) (well : GoesWell cfg ans input) where
  recorded :
      (state detail : String)
      → (record_outcome ans.record_outcome input state detail).result ≡ ok tt
  unfolding record_outcome
  recorded state detail = rw (well.record_outcome, record_outcome) refl

  settles_as-Ends :
      (state detail : String) (r : FilingResult)
      → Ends (record_outcome ans.record_outcome input state detail >> return r)
  settles_as-Ends state detail r =
      then-Ends (record_outcome ans.record_outcome input state detail) (λ u. return r) tt
        (recorded state detail) (r, refl)

  decided-Ends : (detail : String) → Ends (decided ans input (well.outcome, detail))
  unfolding decided conclude
  decided-Ends detail =
      let agrees = well.agrees in
      let matches : (well.final.state != map_outcome well.outcome) ≡ false = ground arith in
      rw (well.named, decided, conclude)
        (then-Ends (record_outcome ans.record_outcome input (map_outcome well.outcome) detail) _ tt
          (recorded (map_outcome well.outcome) detail)
          (result_of input well.outcome detail, rw (well.reconcile_final, matches) refl))

  wait_outcome-finds :
      (id : String) (d : Decides ans well.outcome)
      → (detail : String) × ((wait_outcome ans id (rounds_of cfg.status_polls) 0).result
          ≡ ok (well.outcome, detail))
  unfolding wait_outcome poll_round
  wait_outcome-finds id (by_callback cb came says) = (
    Text.◌++◌ "via callback " cb.callback_id,
    rw (well.rounds, wait_outcome, came, poll_round, says) refl,
  )
  wait_outcome-finds id (by_poll st late polled done says) = (
    "via status poll (callback missing)",
    rw (well.rounds, wait_outcome, late, poll_round, polled, done, says) refl,
  )

  reported : (state : String) → (report_submitted ans input state).result ≡ ok tt
  unfolding report_submitted
  reported state = elim (Bool-cases (state != state_submitted)) [
    | inl e ↦ rw (e, report_submitted, well.mark_submitted) refl
    | inr e ↦ rw (e, report_submitted) refl
  ]

  after_submission-Ends :
      (state id : String) (sub : SubmitOutcome) → Ends (after_submission cfg ans input state id sub)
  unfolding after_submission
  after_submission-Ends state id sub = elim (Bool-cases (sub.result == "rejected")) [
    | inl e ↦
        rw (e, after_submission)
          (settles_as-Ends state_rejected sub.detail (result_of input "rejected" sub.detail))
    | inr e ↦
        let (detail, found) = wait_outcome-finds id well.decides in
        rw (e, after_submission)
          (then-Ends (report_submitted ans input state)
            (λ u. wait_outcome ans id (rounds_of cfg.status_polls) 0 >>= λ found.
              decided ans input found)
            tt (reported state)
            (then-Ends (wait_outcome ans id (rounds_of cfg.status_polls) 0)
              (λ found. decided ans input found) (well.outcome, detail) found
              (decided-Ends detail)))
  ]

  looked_up-Ends :
      (state : String) (st : StatusResponse)
      → Ends (
          if st.status == "not_found"
          then step (submits (submission_of cfg input)) ans.resubmit
            >>= (λ again. after_submission cfg ans input state (operation_of input) again)
          else if st.status == "completed"
          then record_outcome ans.record_outcome input
              (map_outcome st.outcome)
              "resolved after ambiguous submit"
            >> return (result_of input st.outcome "")
          else after_submission cfg ans input state
              (operation_of input)
              (record { result = "accepted"; detail = "confirmed via status check" }))
  looked_up-Ends state st = elim (Bool-cases (st.status == "not_found")) [
    | inl e ↦ rw e (
        then-Ends (step (submits (submission_of cfg input)) ans.resubmit) _ well.again well.resubmit
          (after_submission-Ends state (operation_of input) well.again))
    | inr e ↦ elim (Bool-cases (st.status == "completed")) [
      | inl k ↦
          rw (e, k)
            (settles_as-Ends (map_outcome st.outcome) "resolved after ambiguous submit"
              (result_of input st.outcome ""))
      | inr k ↦
          rw (e, k)
            (after_submission-Ends state (operation_of input)
              (record { result = "accepted"; detail = "confirmed via status check" }))
    ]
  ]

  resolve_submission-Ends :
      (state : String) (sub : SubmitOutcome) → Ends (resolve_submission cfg ans input state sub)
  unfolding resolve_submission
  resolve_submission-Ends state sub = elim (Bool-cases (sub.result == "ambiguous")) [
    | inl e ↦
        rw (e, resolve_submission)
          (then-Ends (step (asks_status (operation_of input)) ans.resolve_ambiguous) _ well.resolved
            well.resolve_ambiguous (looked_up-Ends state well.resolved))
    | inr e ↦ rw (e, resolve_submission) (after_submission-Ends state (operation_of input) sub)
  ]

  first_submission-Ends : (state : String) → Ends (first_submission cfg ans input state)
  unfolding first_submission
  first_submission-Ends state =
      simp (well.submit, first_submission)
        (then-Ends (step (submits (submission_of cfg input)) (ok well.sub))
          (λ out. resolve_submission cfg ans input state out) well.sub refl
          (resolve_submission-Ends state well.sub))

  continue_from-Ends :
      (state : String) (existing : StatusResponse)
      → Ends (continue_from cfg ans input state existing)
  unfolding continue_from
  continue_from-Ends state existing = elim (Bool-cases (existing.status == "completed")) [
    | inl e ↦ rw (e, continue_from) (settles_as-Ends (map_outcome existing.outcome) _ _)
    | inr e ↦ elim (Bool-cases (existing.status == "processing")) [
      | inl k ↦
          rw (e, k, continue_from)
            (after_submission-Ends state existing.submission_id (record {
              result = "accepted";
              detail = Text.◌++◌ "adopted in-flight submission " existing.submission_id;
            }))
      | inr k ↦ rw (e, k, continue_from) (first_submission-Ends state)
    ]
  ]

  checked_risk : (risk_precheck cfg ans).result ≡ ok tt
  unfolding risk_precheck
  checked_risk = elim (Bool-cases cfg.v2) [
    | inl e ↦ elim (Bool-cases well.patched) [
      | inl k ↦ rw (e, risk_precheck, well.patch, k, well.risk_precheck) refl
      | inr k ↦ rw (e, risk_precheck, well.patch, k) refl
    ]
    | inr e ↦ rw (e, risk_precheck) refl
  ]

  prepares : (state : String) → Ends (prepare_submission ans input state)
  unfolding prepare_submission
  prepares state = elim (Bool-cases (state == state_ready)) [
    | inl e ↦ (well.prepared.new_state, rw (e, prepare_submission, well.prepare_submission) refl)
    | inr e ↦ (state, rw (e, prepare_submission) refl)
  ]

  file_return-Ends : (state : String) → Ends (file_return cfg ans input state)
  unfolding file_return
  file_return-Ends state =
      let (prepared, done) = prepares state in
      then-Ends (risk_precheck cfg ans) _ tt checked_risk (
        then-Ends (prepare_submission ans input state) _ prepared done (
          then-Ends (step (asks_status (operation_of input)) ans.find_existing) _ well.existing
            well.find_existing (continue_from-Ends prepared well.existing)))

  workflow-Ends : Ends (filing_workflow cfg ans input)
  unfolding filing_workflow
  workflow-Ends =
      then-Ends
        (step (reads_filing input.filing_id input.tax_year) (wrap "validate: " ans.validate)) _
        well.filing (rw well.validate refl)
        (rw (well.open_state, well.own_operation) (file_return-Ends well.filing.state))

-- The workflow finishes: when every step succeeds, on a filing that is not final and has no foreign
-- operation, when the first round of the wait finds the provider's outcome and the service then has
-- the state of that outcome, the run returns a result, and its outcome is on record: it sent a command
-- that says this outcome of the filing, which the service answered with a result.
pub workflow_finishes :
    (cfg : Config) (ans : Answers) (input : FilingInput)
    → GoesWell cfg ans input
    → (r : FilingResult) × ((filing_workflow cfg ans input).result ≡ ok r)
      × Entered ans.record_outcome input r.outcome (filing_workflow cfg ans input).actions
workflow_finishes cfg ans input well =
    let (r, returns) = workflow-Ends cfg ans input well in
    (
      r,
      returns,
      elim (outcome_is_recorded cfg ans input r returns) [
        | inl already ↦ absurd (open_not_final cfg ans input well already.1)
        | inr entered ↦ entered
      ],
    )
