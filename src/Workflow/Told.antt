-- ===== src/Workflow/Told.antt =====
-- Runs of internal/workflow/filing.go that return a result only with its outcome on record.
use Prim.Native.String as Text
use mathlib.Core.List.{Memᴰ}
use mathlib.Core.List.Memᴰ as Member
use dbos_conformance.Common.{
  String, List, ◌++◌, ◌==◌, ◌!=◌, string_eq, if◌then◌else◌, Result, ok, err, ◌≡◌, refl, arith, ◌⊎◌,
  inl, inr, Bool-cases, Result-cases,
}
use dbos_conformance.Domain.{FilingInput, FilingResult, state_needs_review}
use dbos_conformance.Domain.Identity.{outcome_command_key, review_command_key}
use dbos_conformance.Accountable.Command.{CommandResult}
use dbos_conformance.Authority.Client.{SubmitOutcome}
use dbos_conformance.Accountable.Handlers.{rounds_of}
use dbos_conformance.Accountable.Queries.{Filing as Served}
use dbos_conformance.Workflow.Steps.{
  Answers, Action, Run, sends_command, and_then, return, raise, step, reads_filing, ◌>>◌, ◌>>=◌,
}
use dbos_conformance.Workflow.Outcome.{
  Config, map_outcome, outcome_command, command_of, canon, record_outcome, result_of,
}
use dbos_conformance.Workflow.Filing.{
  after_submission, decided, conclude, wait_outcome, report_submitted,
}

-- The key of the state that the outcome stands for.
abbrev pub key_of : FilingInput → String → String
key_of input state =
    if state == state_needs_review
    then review_command_key (canon input)
    else outcome_command_key (canon input)

-- The command for the outcome was sent, and the service has answered it with a result.
pub record OnRecord (reply : Result String CommandResult) (input : FilingInput) (outcome : String)
    (actions : List Action) : Type 0 where
  pub detail : String
  pub sent :
      Memᴰ
        (sends_command (
          command_of input
            (key_of input (map_outcome outcome))
            (outcome_command (map_outcome outcome))
            ""
            detail))
        actions
  pub answer : CommandResult
  pub answered : reply ≡ ok answer

-- The service answered the first step with a filing that is accepted or rejected.
pub record FoundFinal (ans : Answers) : Type 0 where
  pub filing : Served
  pub read : ans.validate ≡ ok filing
  pub final : (filing.state ≡ "accepted") ⊎ (filing.state ≡ "rejected")

module _ (cfg : Config) (ans : Answers) (input : FilingInput) where
  -- A run that returns a result has its outcome on record, or has read that the filing is final.
  abbrev pub Told : Result String FilingResult → List Action → Type 0
  Told (err e) actions = Unit
  Told (ok r) actions =
      ((r.outcome ≡ "already_final") × FoundFinal ans)
      ⊎ OnRecord ans.record_outcome input r.outcome actions

  abbrev pub Tells : Run FilingResult → Type 0
  Tells run = Told run.result run.actions

  later :
      (r : Result String FilingResult) (first rest : List Action)
      → Told r rest
      → Told r (first ++ rest)
  later (err e) first rest told = tt
  later (ok r) first rest (inl final) = inl final
  later (ok r) first rest (inr on) = inr (record {
    detail = on.detail;
    sent = Member.append_right first on.sent;
    answer = on.answer;
    answered = on.answered;
  })

  -- The rest of the run may use what the first part returned.
  pub then-Tells_at :
      {A : Type 0} (m : Run A) (next : A → Run FilingResult)
      → ((a : A) → m.result ≡ ok a → Tells (next a))
      → Tells (m >>= next)
  then-Tells_at {A = A} m next h = after m.result h
    where
      after :
          (r : Result String A)
          → ((a : A) → r ≡ ok a → Tells (next a))
          → Tells (and_then m.actions r next)
      after (err e) k = tt
      after (ok a) k = later (next a).result m.actions (next a).actions (k a refl)

  pub then-Tells :
      {A : Type 0} (m : Run A) (next : A → Run FilingResult)
      → ((a : A) → Tells (next a))
      → Tells (m >>= next)
  then-Tells m next h = then-Tells_at m next (λ a e. h a)

  recorded_now :
      (outcome detail : String) (next : Run FilingResult) (answer : Result String CommandResult)
      → ans.record_outcome ≡ answer
      → ((r : FilingResult) → next.result ≡ ok r → r.outcome ≡ outcome)
      → Tells (record_outcome ans.record_outcome input (map_outcome outcome) detail >> next)
  unfolding record_outcome
  recorded_now outcome detail next (err e) at same = rw (at, record_outcome) tt
  recorded_now outcome detail next (ok res) at same = elim (Result-cases next.result) [
    | inl (e, f) ↦ rw (at, record_outcome, f) tt
    | inr (r, f) ↦
        rw (at, record_outcome, f)
          (inr (record {
            detail = detail;
            sent = rw (same r f) (Memᴰ.head refl);
            answer = res;
            answered = refl;
          }))
  ]

  returned :
      (outcome detail : String) (r : FilingResult)
      → (return (result_of input outcome detail)).result ≡ ok r
      → r.outcome ≡ outcome
  returned outcome detail r e = ground arith

  pub settles_as :
      (outcome detail after : String)
      → Tells (
          record_outcome ans.record_outcome input (map_outcome outcome) detail
          >> return (result_of input outcome after))
  settles_as outcome detail after =
      recorded_now outcome detail (return (result_of input outcome after)) ans.record_outcome refl
        (returned outcome after)

  checked-outcome :
      (outcome detail : String) (read : Result String Served) (r : FilingResult)
      → (step (reads_filing input.filing_id input.tax_year) read >>= λ final.
          if final.state != map_outcome outcome
          then raise (
              Text.◌++◌ "reconcile mismatch: accountable="
                (Text.◌++◌ final.state (Text.◌++◌ " workflow-outcome=" outcome)))
          else return (result_of input outcome detail)).result
        ≡ ok r
      → r.outcome ≡ outcome
  checked-outcome outcome detail (err e) r h = ground arith
  checked-outcome outcome detail (ok final) r h =
      elim (Bool-cases (final.state != map_outcome outcome)) [
        | inl e ↦ let bad = rw e at h in ground arith
        | inr e ↦ returned outcome detail r (rw e at h)
      ]

  conclude-Tells : (outcome detail : String) → Tells (conclude ans input outcome detail)
  unfolding conclude
  conclude-Tells outcome detail =
      recorded_now outcome detail _ ans.record_outcome refl
        (checked-outcome outcome detail ans.reconcile_final)

  decided-Tells : (found : String × String) → Tells (decided ans input found)
  unfolding decided
  decided-Tells (outcome, detail) = elim (Bool-cases (outcome == "")) [
    | inl e ↦
        rw (e, decided) (conclude-Tells "needs_review" "no callback and authority still processing")
    | inr e ↦ rw (e, decided) (conclude-Tells outcome detail)
  ]

  pub after_submission-Tells :
      (state id : String) (sub : SubmitOutcome)
      → Tells (after_submission cfg ans input state id sub)
  unfolding after_submission map_outcome
  after_submission-Tells state id sub = elim (Bool-cases (sub.result == "rejected")) [
    | inl e ↦ rw (e, after_submission) (settles_as "rejected" sub.detail sub.detail)
    | inr e ↦
        rw (e, after_submission)
          (then-Tells (report_submitted ans input state)
            (λ u. wait_outcome ans id (rounds_of cfg.status_polls) 0 >>= λ found.
              decided ans input found)
            (λ u.
              then-Tells (wait_outcome ans id (rounds_of cfg.status_polls) 0)
                (λ found. decided ans input found) decided-Tells))
  ]
