-- ===== src/Workflow/Evidence.antt =====
-- What an execution of internal/workflow/filing.go must have seen of the provider before it commands
-- that a filing is accepted or rejected.
use Prim.Native.String as Text
use dbos_conformance.Common.{
  ℕ, zero, suc, ◌+◌, String, ◌&&◌, ◌||◌, [], ◌∷◌, ◌==◌, ◌!=◌, string_eq, if◌then◌else◌, ok, err,
  ◌≡◌, refl, sym, ◌∙◌, subst, arith, eq_iff, ◌⊎◌, inl, inr, All, Bool-cases, Option-cases,
}
use dbos_conformance.Domain.{
  FilingInput, Callback, state_accepted, state_rejected, state_needs_review, state_ready,
  state_submitted,
}
use dbos_conformance.Domain.Identity.{
  outcome_command_key, review_command_key, submitted_command_key, submission_intent_command_key,
}
use dbos_conformance.Accountable.Command.{
  mark_accepted, mark_rejected, mark_needs_review, prepare, mark_submitted,
}
use dbos_conformance.Authority.Submit.{StatusResponse}
use dbos_conformance.Authority.Client.{SubmitOutcome}
use dbos_conformance.Workflow.Steps.{
  Answers, Received, received, timed_out, broken, Action, Run, reads_filing, sends_command, submits,
  asks_status,
}
use dbos_conformance.Workflow.Outcome.{
  map_outcome, outcome_command, command_of, canon, operation_of, record_outcome,
}
use dbos_conformance.Workflow.Filing.{
  wait_outcome, poll_round, conclude, decided, report_submitted, prepare_submission,
}
use dbos_conformance.Workflow.Canonical.{All-and_then}
pub mod Waits
pub mod Whole
pub mod Net

-- The IDs that the polls ask for: the canonical one, or the one of the submission that is adopted.
abbrev pub Polled : Answers → FilingInput → String → Type 0
Polled ans input id =
    (id ≡ operation_of input)
    ⊎ ((existing : StatusResponse) × (ans.find_existing ≡ ok existing)
        × (id ≡ existing.submission_id))

-- One of the answers tells that the operation has the outcome.
pub data Shows (ans : Answers) (input : FilingInput) (outcome : String) : Type 0 where
  found :
      (st : StatusResponse)
      → ans.find_existing ≡ ok st
      → st.status ≡ "completed"
      → st.outcome ≡ outcome
      → Shows ans input outcome
  resolved :
      (st : StatusResponse)
      → ans.resolve_ambiguous ≡ ok st
      → st.status ≡ "completed"
      → st.outcome ≡ outcome
      → Shows ans input outcome
  polled :
      (id : String) (i : ℕ) (st : StatusResponse)
      → Polled ans input id
      → ans.poll_status i ≡ ok st
      → st.status ≡ "completed"
      → st.outcome ≡ outcome
      → Shows ans input outcome
  called_back :
      (i : ℕ) (cb : Callback)
      → ans.recv i ≡ received cb
      → cb.outcome ≡ outcome
      → Shows ans input outcome
  turned_down :
      (sub : SubmitOutcome)
      → (ans.submit ≡ ok sub) ⊎ (ans.resubmit ≡ ok sub)
      → sub.result ≡ "rejected"
      → outcome ≡ "rejected"
      → Shows ans input outcome

-- An outcome that is final has been shown.
abbrev pub Shown : Answers → FilingInput → String → Type 0
Shown ans input outcome =
    (outcome ≡ "accepted" → Shows ans input "accepted")
    × (outcome ≡ "rejected" → Shows ans input "rejected")

-- A command that accepts or rejects the filing rests on an answer that tells so.
unfoldable pub Backed : Answers → FilingInput → Action → Type 0
Backed ans input (sends_command c) =
    (c.command_type ≡ mark_accepted → Shows ans input "accepted")
    × (c.command_type ≡ mark_rejected → Shows ans input "rejected")
Backed ans input (reads_filing id year) = Unit
Backed ans input (submits req) = Unit
Backed ans input (asks_status id) = Unit

module _ (ans : Answers) (input : FilingInput) where
  abbrev pub IsBacked : {A : Type 0} → Run A → Type 0
  IsBacked r = All (Backed ans input) r.actions

  pub Shows-Shown : (outcome : String) → Shows ans input outcome → Shown ans input outcome
  Shows-Shown outcome shows =
      (λ e. subst (Shows ans input) e shows, λ e. subst (Shows ans input) e shows)

  pub review-Shown : Shown ans input "needs_review"
  review-Shown = (
    λ e. ground (arith, eq_iff "needs_review" "accepted"),
    λ e. ground (arith, eq_iff "needs_review" "rejected"),
  )

  pub map_outcome-Backed :
      (key outcome detail : String)
      → Shown ans input outcome
      → Backed ans input
          (sends_command (command_of input key (outcome_command (map_outcome outcome)) "" detail))
  unfolding Backed map_outcome
  map_outcome-Backed key outcome detail (as_accepted, as_rejected) =
      elim (Bool-cases (outcome == "accepted")) [
        | inl e ↦
            rw (e, map_outcome)
              (
                λ h. as_accepted ((eq_iff outcome "accepted").0 e),
                λ h. ground (arith, eq_iff mark_accepted mark_rejected),
              )
        | inr e ↦ elim (Bool-cases (outcome == "rejected")) [
          | inl f ↦
              rw (e, f, map_outcome)
                (
                  λ h. ground (arith, eq_iff mark_rejected mark_accepted),
                  λ h. as_rejected ((eq_iff outcome "rejected").0 f),
                )
          | inr f ↦
              rw (e, f, map_outcome)
                (
                  λ h. ground (arith, eq_iff mark_needs_review mark_accepted),
                  λ h. ground (arith, eq_iff mark_needs_review mark_rejected),
                )
        ]
      ]

  pub record_outcome-Backed :
      (outcome detail : String)
      → Shown ans input outcome
      → IsBacked (record_outcome ans.record_outcome input (map_outcome outcome) detail)
  unfolding record_outcome
  record_outcome-Backed outcome detail shown =
      All-and_then (Backed ans input) (sends_command _ ∷ []) ans.record_outcome _
        (map_outcome-Backed _ outcome detail shown, tt) (λ a h. tt)
