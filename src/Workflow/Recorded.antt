-- ===== src/Workflow/Recorded.antt =====
-- What a run of internal/workflow/filing.go has put on record when it returns a result.
use Prim.Native.String as Text
use mathlib.Core.List.{Memᴰ}
use dbos_conformance.Common.{
  String, ◌&&◌, ◌||◌, ◌==◌, ◌!=◌, string_eq, if◌then◌else◌, Result, ok, err, ◌≡◌, refl, subst,
  arith, true, eq_iff, ◌⊎◌, inl, inr, Bool-cases, Result-cases,
}
use dbos_conformance.Domain.{FilingInput, FilingResult, state_rejected, state_accepted}
use dbos_conformance.Authority.Submit.{StatusResponse}
use dbos_conformance.Authority.Client.{SubmitOutcome}
use dbos_conformance.Workflow.Steps.{
  Answers, return, step, wrap, reads_filing, submits, asks_status, ◌>>◌, ◌>>=◌,
}
use dbos_conformance.Workflow.Outcome.{Config, map_outcome, operation_of, record_outcome, result_of}
use dbos_conformance.Workflow.Filing.{
  filing_workflow, file_return, continue_from, first_submission, resolve_submission,
  after_submission, prepare_submission, risk_precheck, submission_of,
}
use dbos_conformance.Accountable.Queries.{Filing as Served}
use dbos_conformance.Workflow.Entry.{Entered, OnRecord-Entered}
use dbos_conformance.Workflow.Told.{
  OnRecord, FoundFinal, then-Tells_at, Told, Tells, then-Tells, settles_as, after_submission-Tells,
}

unwrapped :
    (r : Result String Served) (filing : Served) → wrap "validate: " r ≡ ok filing → r ≡ ok filing
unwrapped (err e) filing h = ground arith
unwrapped (ok a) filing h = h

module _ (cfg : Config) (ans : Answers) (input : FilingInput) where
  found_final :
      (filing : Served)
      → ans.validate ≡ ok filing
      → (filing.state == state_accepted || filing.state == state_rejected) ≡ true
      → FoundFinal ans
  found_final filing read e = record {
    filing = filing;
    read = read;
    final = ground (arith, eq_iff filing.state state_accepted, eq_iff filing.state state_rejected);
  }

  resolve_submission-Tells :
      (state : String) (sub : SubmitOutcome)
      → Tells cfg ans input (resolve_submission cfg ans input state sub)
  unfolding resolve_submission
  resolve_submission-Tells state sub = elim (Bool-cases (sub.result == "ambiguous")) [
    | inl e ↦
        rw (e, resolve_submission)
          (then-Tells cfg ans input (step (asks_status (operation_of input)) ans.resolve_ambiguous)
            _ looked_up)
    | inr e ↦
        rw (e, resolve_submission)
          (after_submission-Tells cfg ans input state (operation_of input) sub)
  ]
    where
      looked_up :
          (st : StatusResponse)
          → Tells cfg ans input (
              if st.status == "not_found"
              then step (submits (submission_of cfg input)) ans.resubmit
                >>= (λ again. after_submission cfg ans input state (operation_of input) again)
              else if st.status == "completed"
              then record_outcome ans.record_outcome input
                  (map_outcome st.outcome)
                  "resolved after ambiguous submit"
                >> return (result_of input st.outcome "")
              else after_submission cfg ans input state
                  (operation_of input)
                  (record { result = "accepted"; detail = "confirmed via status check" }))
      looked_up st = elim (Bool-cases (st.status == "not_found")) [
        | inl e ↦ rw e (
            then-Tells cfg ans input (step (submits (submission_of cfg input)) ans.resubmit) _
              (after_submission-Tells cfg ans input state (operation_of input)))
        | inr e ↦ elim (Bool-cases (st.status == "completed")) [
          | inl k ↦
              rw (e, k) (settles_as cfg ans input st.outcome "resolved after ambiguous submit" "")
          | inr k ↦
              rw (e, k)
                (after_submission-Tells cfg ans input state (operation_of input)
                  (record { result = "accepted"; detail = "confirmed via status check" }))
        ]
      ]

  first_submission-Tells :
      (state : String) → Tells cfg ans input (first_submission cfg ans input state)
  unfolding first_submission map_outcome
  first_submission-Tells state = elim (Result-cases ans.submit) [
    | inl (e, f) ↦ elim (Result-cases ans.record_outcome) [
      | inl (x, g) ↦ simp (f, g, first_submission, record_outcome) tt
      | inr (res, g) ↦
          simp (f, g, first_submission, record_outcome)
            (inr (record {
              detail = Text.◌++◌ "submit retries exhausted: " e;
              sent = Memᴰ.tail (Memᴰ.head refl);
              answer = res;
              answered = refl;
            }))
    ]
    | inr (sub, f) ↦
        simp (f, first_submission)
          (then-Tells cfg ans input (step (submits (submission_of cfg input)) (ok sub))
            (λ out. resolve_submission cfg ans input state out) (resolve_submission-Tells state))
  ]

  continue_from-Tells :
      (state : String) (existing : StatusResponse)
      → Tells cfg ans input (continue_from cfg ans input state existing)
  unfolding continue_from
  continue_from-Tells state existing = elim (Bool-cases (existing.status == "completed")) [
    | inl e ↦
        rw (e, continue_from)
          (settles_as cfg ans input existing.outcome
            (Text.◌++◌ "adopted completed submission " existing.submission_id)
            (Text.◌++◌ "adopted submission " existing.submission_id))
    | inr e ↦ elim (Bool-cases (existing.status == "processing")) [
      | inl k ↦
          rw (e, k, continue_from)
            (after_submission-Tells cfg ans input state existing.submission_id (record {
              result = "accepted";
              detail = Text.◌++◌ "adopted in-flight submission " existing.submission_id;
            }))
      | inr k ↦ rw (e, k, continue_from) (first_submission-Tells state)
    ]
  ]

  file_return-Tells : (state : String) → Tells cfg ans input (file_return cfg ans input state)
  unfolding file_return
  file_return-Tells state = then-Tells cfg ans input (risk_precheck cfg ans) _ (λ u.
      then-Tells cfg ans input (prepare_submission ans input state) _ (λ prepared.
        then-Tells cfg ans input (step (asks_status (operation_of input)) ans.find_existing) _
          (λ existing. continue_from-Tells prepared existing)))

  workflow-Tells : Tells cfg ans input (filing_workflow cfg ans input)
  unfolding filing_workflow
  workflow-Tells =
      then-Tells_at cfg ans input
        (step (reads_filing input.filing_id input.tax_year) (wrap "validate: " ans.validate)) _
        (λ filing read.
          elim (Bool-cases (filing.state == state_accepted || filing.state == state_rejected)) [
            | inl e ↦ rw e (inl (refl, found_final filing (unwrapped ans.validate filing read) e))
            | inr e ↦
                elim (Bool-cases (
                  filing.provider_operation_id != ""
                  && filing.provider_operation_id != operation_of input)) [
                    | inl f ↦ rw (e, f) tt
                    | inr f ↦ rw (e, f) (file_return-Tells filing.state)
                  ]
          ])

pub outcome-OnRecord :
    (cfg : Config) (ans : Answers) (input : FilingInput) (r : FilingResult)
    → (filing_workflow cfg ans input).result ≡ ok r
    → ((r.outcome ≡ "already_final") × FoundFinal ans)
      ⊎ OnRecord ans.record_outcome input r.outcome (filing_workflow cfg ans input).actions
outcome-OnRecord cfg ans input r returns = told _ returns (workflow-Tells cfg ans input)
  where
    told :
        (result : Result String FilingResult)
        → result ≡ ok r
        → Told cfg ans input result (filing_workflow cfg ans input).actions
        → ((r.outcome ≡ "already_final") × FoundFinal ans)
          ⊎ OnRecord ans.record_outcome input r.outcome (filing_workflow cfg ans input).actions
    told (err e) is h = ground arith
    told (ok r') is h =
        let same : r' ≡ r = cc in
        subst
          (λ x.
            ((x.outcome ≡ "already_final") × FoundFinal ans)
            ⊎ OnRecord ans.record_outcome input x.outcome (filing_workflow cfg ans input).actions)
          same h

-- A run of the workflow that returns a result either returns already_final, where its first step read
-- that the filing is accepted or rejected, or has put its outcome on record: it sent a command for the
-- filing that the service answered with a result, and the command is MarkFilingAccepted or
-- MarkFilingRejected under the outcome key for the outcome accepted or rejected, and
-- MarkFilingNeedsReview under the review key for every other outcome.
pub outcome_is_recorded :
    (cfg : Config) (ans : Answers) (input : FilingInput) (r : FilingResult)
    → (filing_workflow cfg ans input).result ≡ ok r
    → ((r.outcome ≡ "already_final") × FoundFinal ans)
      ⊎ Entered ans.record_outcome input r.outcome (filing_workflow cfg ans input).actions
outcome_is_recorded cfg ans input r returns = elim (outcome-OnRecord cfg ans input r returns) [
  | inl already ↦ inl already
  | inr on ↦ inr (
      OnRecord-Entered ans.record_outcome input r.outcome (filing_workflow cfg ans input).actions
        on)
]
