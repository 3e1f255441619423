-- ===== src/Workflow/Filing.antt =====
-- `Filing`, `recordOutcome` and `mapOutcome` of internal/workflow/filing.go, cut at their branches.
-- The chaos points end the process; a later execution sees the same answers.
use Prim.Native.String.{◌++◌}
use dbos_conformance.Common.{
  ℕ, zero, suc, ◌+◌, String, ◌&&◌, ◌||◌, [], ◌∷◌, ◌==◌, ◌!=◌, string_eq, if◌then◌else◌, ok, err,
}
use dbos_conformance.Domain.{
  FilingInput, FilingResult, state_ready, state_submitted, state_accepted, state_rejected,
  state_needs_review,
}
use dbos_conformance.Domain.Identity.{submitted_command_key, submission_intent_command_key}
use dbos_conformance.Accountable.Command.{prepare, mark_submitted}
use dbos_conformance.Accountable.Handlers.{rounds_of}
use dbos_conformance.Authority.Submit.{SubmitRequest, StatusResponse}
use dbos_conformance.Authority.Client.{SubmitOutcome}
use dbos_conformance.Workflow.Outcome.{
  Config, map_outcome, command_of, canon, operation_of, record_outcome, result_of,
}
use dbos_conformance.Workflow.Steps.{
  Answers, Received, received, timed_out, broken, Run, return, raise, step, wrap, reads_filing,
  sends_command, submits, asks_status, ◌>>=◌, ◌>>◌,
}

-- The v2 pre-check, behind its patch marker.
unfoldable pub risk_precheck : Config → Answers → Run (Unit {0})
risk_precheck cfg ans =
    if cfg.v2
    then (do
      patched ← record { actions = []; result = wrap "evaluate v2 patch: " ans.patch }
      if patched
          then (do out ← record { actions = []; result = ans.risk_precheck }; return tt)
          else return tt)
    else return tt

-- The submission intent of a filing that is ready; the state afterwards.
unfoldable pub prepare_submission : Answers → FilingInput → String → Run String
prepare_submission ans input state =
    if state == state_ready
    then (do
      res ←
          step
            (sends_command (
              command_of input (submission_intent_command_key (canon input)) prepare
                (operation_of input) ""))
            ans.prepare_submission
      return res.new_state)
    else return state

-- One round of the wait: a callback, or the provider's status after the timeout.
unfoldable pub poll_round :
    Answers → String → ℕ → Run (String × String) → Received → Run (String × String)
poll_round ans id i rest (received cb) = return (cb.outcome, "via callback " ++ cb.callback_id)
poll_round ans id i rest (broken e) = raise e
poll_round ans id i rest timed_out = do
  st ← step (asks_status id) (ans.poll_status i)
  (if st.status == "completed"
      then return (st.outcome, "via status poll (callback missing)")
      else rest)

-- The bounded wait for an outcome: `n` polls are left, the next one is number `i`.
unfoldable pub wait_outcome : Answers → String → ℕ → ℕ → Run (String × String)
unfolding poll_round
wait_outcome ans id zero i = return ("", "")
wait_outcome ans id (suc n) i =
    let rest = wait_outcome ans id n (i + 1) in poll_round ans id i rest (ans.recv i)

-- The outcome goes on record and the service's state is compared with it.
unfoldable pub conclude : Answers → FilingInput → String → String → Run FilingResult
unfolding record_outcome map_outcome
conclude ans input outcome detail = do
  record_outcome ans.record_outcome input (map_outcome outcome) detail
  final ← step (reads_filing input.filing_id input.tax_year) ans.reconcile_final
  (if final.state != map_outcome outcome
      then raise
          ("reconcile mismatch: accountable=" ++ final.state ++ " workflow-outcome=" ++ outcome)
      else return (result_of input outcome detail))

unfoldable pub decided : Answers → FilingInput → String × String → Run FilingResult
unfolding conclude
decided ans input (outcome, detail) =
    if outcome == ""
    then conclude ans input "needs_review" "no callback and authority still processing"
    else conclude ans input outcome detail

unfoldable pub report_submitted : Answers → FilingInput → String → Run (Unit {0})
report_submitted ans input state =
    if state != state_submitted
    then (do
      res ←
          step
            (sends_command
              (command_of input (submitted_command_key (canon input)) mark_submitted "" ""))
            ans.mark_submitted
      return tt)
    else return tt

-- The provider has the operation, or has rejected it.
unfoldable pub after_submission :
    Config → Answers → FilingInput → String → String → SubmitOutcome → Run FilingResult
unfolding record_outcome wait_outcome report_submitted decided
after_submission cfg ans input state id sub =
    if sub.result == "rejected"
    then (do
      record_outcome ans.record_outcome input state_rejected sub.detail
      return (result_of input "rejected" sub.detail))
    else (do
      report_submitted ans input state
      found ← wait_outcome ans id (rounds_of cfg.status_polls) 0
      decided ans input found)

abbrev pub submission_of : Config → FilingInput → SubmitRequest
submission_of cfg input = record {
  submission_id = operation_of input;
  filing_id = input.filing_id;
  scenario = input.scenario;
  callback_url = cfg.callback_url;
}

-- An ambiguous submission is looked up, and repeated only if the provider does not know it.
unfoldable pub resolve_submission :
    Config → Answers → FilingInput → String → SubmitOutcome → Run FilingResult
unfolding record_outcome map_outcome after_submission
resolve_submission cfg ans input state sub =
    if sub.result == "ambiguous"
    then (do
      st ← step (asks_status (operation_of input)) ans.resolve_ambiguous
      if st.status == "not_found"
          then (do
            again ← step (submits (submission_of cfg input)) ans.resubmit
            after_submission cfg ans input state (operation_of input) again)
          else if st.status == "completed"
          then (do
            record_outcome ans.record_outcome input (map_outcome st.outcome)
                "resolved after ambiguous submit"
            return (result_of input st.outcome ""))
          else after_submission cfg ans input state (operation_of input)
              (record { result = "accepted"; detail = "confirmed via status check" }))
    else after_submission cfg ans input state (operation_of input) sub

-- The submission, whose exhausted retries leave the filing for review.
unfoldable pub first_submission : Config → Answers → FilingInput → String → Run FilingResult
unfolding record_outcome resolve_submission
first_submission cfg ans input state = elim ans.submit [
  | ok sub ↦ (do
    out ← step (submits (submission_of cfg input)) (ok sub)
    resolve_submission cfg ans input state out)
  | err e ↦ record {
    actions =
        submits (submission_of cfg input)
        ∷ (record_outcome ans.record_outcome input state_needs_review
            ("submit retries exhausted: " ++ e)).actions;
    result =
        elim (record_outcome ans.record_outcome input state_needs_review
          ("submit retries exhausted: " ++ e)).result [
            | ok done ↦ ok (result_of input "needs_review" e)
            | err f ↦ err ("record exhausted submit retries: " ++ f)
          ];
  }
]

-- What the provider has of the operation decides how to go on.
unfoldable pub continue_from :
    Config → Answers → FilingInput → String → StatusResponse → Run FilingResult
unfolding record_outcome map_outcome after_submission first_submission
continue_from cfg ans input state existing =
    if existing.status == "completed"
    then (do
      record_outcome ans.record_outcome input (map_outcome existing.outcome)
          ("adopted completed submission " ++ existing.submission_id)
      return (result_of input existing.outcome ("adopted submission " ++ existing.submission_id)))
    else if existing.status == "processing"
    then after_submission cfg ans input state existing.submission_id (record {
      result = "accepted";
      detail = "adopted in-flight submission " ++ existing.submission_id;
    })
    else first_submission cfg ans input state

-- A filing that is not final and whose operation ID, if any, is the canonical one.
unfoldable pub file_return : Config → Answers → FilingInput → String → Run FilingResult
unfolding risk_precheck prepare_submission continue_from
file_return cfg ans input state = do
  risk_precheck cfg ans
  prepared ← prepare_submission ans input state
  existing ← step (asks_status (operation_of input)) ans.find_existing
  continue_from cfg ans input prepared existing

-- `Filing`
unfoldable pub filing_workflow : Config → Answers → FilingInput → Run FilingResult
unfolding file_return
filing_workflow cfg ans input = do
  filing ← step (reads_filing input.filing_id input.tax_year) (wrap "validate: " ans.validate)
  (if filing.state == state_accepted || filing.state == state_rejected
      then return (result_of input "already_final" ("filing already in state " ++ filing.state))
      else if filing.provider_operation_id != ""
          && filing.provider_operation_id != operation_of input
      then raise (
          "provider operation mismatch: accountable="
          ++ filing.provider_operation_id
          ++ " canonical="
          ++ operation_of input)
      else file_return cfg ans input filing.state)
