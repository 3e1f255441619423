-- ===== src/System/Honest/Shown.antt =====
-- What honest answers show of the provider of internal/authority/server.go is on record.
use dbos_conformance.Common.{
  String, ℤ, some, List, [], ◌∷◌, ◌++◌, ok, err, ◌≡◌, refl, sym, ◌∙◌, ap, subst, inl, inr, arith,
  eq_iff,
}
use dbos_conformance.Domain.{FilingInput}
use dbos_conformance.Domain.Identity.{workflow_id, provider_operation_id}
use dbos_conformance.Authority.Ledger.{Timing, Persist}
use dbos_conformance.Authority.Submit.{SubmitRequest, StatusResponse, handle_submit}
use dbos_conformance.Authority.Client.{SubmitOutcome, submit}
use dbos_conformance.Authority.Grows.{Grows}
use dbos_conformance.Authority.Process.{Process, Move, called, moves, move, posts}
use dbos_conformance.Authority.Process.Truthful.{
  IsTruthful, moves-IsTruthful, move-Grows, start, start-IsTruthful,
}
use dbos_conformance.Authority.Process.Owed.{IsOnRecord, Grows-IsOnRecord}
use dbos_conformance.Authority.Process.Callbacks.{Tells, callbacks_tell_the_record}
use dbos_conformance.Authority.Process.Verdicts.{
  rejection_is_recorded, status_is_recorded, status_names,
}
use dbos_conformance.Workflow.Steps.{Answers}
use dbos_conformance.Workflow.Outcome.{Config, canon, operation_of}
use dbos_conformance.Workflow.Filing.{submission_of}
use dbos_conformance.Workflow.Evidence.{
  Polled, Shows, found, resolved, polled, called_back, turned_down,
}
use dbos_conformance.System.Once.{Mem-All}
use dbos_conformance.System.Honest.{ledger_after, Asked, Exchanged, answered, lost, Honest}

move-append :
    (before after : List Move) (s : Process) → move (before ++ after) s ≡ move after (move before s)
unfolding move
move-append [] after s = refl
move-append (m ∷ before) after s = move-append before after (moves m s)

move-IsTruthful : (ms : List Move) (s : Process) → IsTruthful s → IsTruthful (move ms s)
unfolding move
move-IsTruthful [] s truthful = truthful
move-IsTruthful (m ∷ ms) s truthful = move-IsTruthful ms (moves m s) (moves-IsTruthful m s truthful)

-- What was on record is on record at the end of the history.
later-Grows :
    (timing : Timing) (ms before after : List Move)
    → before ++ after ≡ ms
    → Grows (move before (start timing)).server.subs (ledger_after timing ms)
later-Grows timing ms before after split =
    let whole : move after (move before (start timing)) ≡ move ms (start timing) =
      sym (move-append before after (start timing)) ∙ ap (λ l. move l (start timing)) split in
    subst (λ s. Grows (move before (start timing)).server.subs s.server.subs) whole
      (move-Grows after (move before (start timing))
        (move-IsTruthful before (start timing) (start-IsTruthful timing)))

-- What a submission has put on record is there at the end of the history.
submitted-Grows :
    (timing : Timing) (ms before after : List Move) (p : Persist) (now : ℤ) (req : SubmitRequest)
    → before ++ called p now (some req) ∷ after ≡ ms
    → Grows
        (handle_submit p now (some req) (move before (start timing)).server).server.subs
        (ledger_after timing ms)
unfolding move moves
submitted-Grows timing ms before after p now req split =
    let there = move before (start timing) in
    let first = called p now (some req) in
    let whole : move after (moves first there) ≡ move ms (start timing) =
      sym (move-append before (first ∷ after) (start timing))
      ∙ ap (λ l. move l (start timing)) split in
    subst (λ s. Grows (moves first there).server.subs s.server.subs) whole
      (move-Grows after (moves first there) (
        moves-IsTruthful first there
          (move-IsTruthful before (start timing) (start-IsTruthful timing))))

-- A filing's workflow has the name of its operation.
canon-operation_of : (input : FilingInput) → canon input ≡ operation_of input
unfolding workflow_id provider_operation_id
canon-operation_of input = refl

module _ (timing : Timing) (ms : List Move) where
  pub Asked-IsOnRecord :
      (id : String) (st : StatusResponse)
      → Asked timing ms id st
      → st.status ≡ "completed"
      → IsOnRecord id st.outcome (ledger_after timing ms)
  Asked-IsOnRecord id st asked done =
      Grows-IsOnRecord id st.outcome _ (ledger_after timing ms)
        (later-Grows timing ms asked.before asked.after asked.split)
        (status_is_recorded id (move asked.before (start timing)).server st asked.read done)

  Exchanged-IsOnRecord :
      (req : SubmitRequest) (sub : SubmitOutcome)
      → Exchanged timing ms req sub
      → sub.result ≡ "rejected"
      → IsOnRecord req.submission_id "rejected" (ledger_after timing ms)
  unfolding submit
  Exchanged-IsOnRecord req sub (answered before after p now split read) verdict =
      Grows-IsOnRecord req.submission_id "rejected" _ (ledger_after timing ms)
        (submitted-Grows timing ms before after p now req split)
        (rejection_is_recorded p now req (move before (start timing)).server sub read verdict)
  Exchanged-IsOnRecord req sub (lost error read) verdict =
      absurd (lost_is_not_rejected error sub read verdict)
    where
      lost_is_not_rejected :
          (error : String) (sub : SubmitOutcome)
          → submit (err error) ≡ ok sub
          → ¬ (sub.result ≡ "rejected")
      lost_is_not_rejected error sub read = λ verdict. ground (arith, eq_iff "ambiguous" "rejected")

module _ (timing : Timing) (ms : List Move) (cfg : Config) (ans : Answers) (input : FilingInput)
    (honest : Honest timing ms cfg ans input) where
  Polled-operation_of : (id : String) → Polled ans input id → id ≡ operation_of input
  Polled-operation_of id (inl e) = e
  Polled-operation_of id (inr (existing, told, e)) =
      let asked = honest.find_existing existing told in
      e ∙ status_names (operation_of input) _ existing asked.read

  -- What the answers show is on record.
  pub Shows-IsOnRecord :
      (outcome : String)
      → Shows ans input outcome
      → IsOnRecord (operation_of input) outcome (ledger_after timing ms)
  Shows-IsOnRecord outcome (found st told done same) =
      subst (λ o. IsOnRecord (operation_of input) o (ledger_after timing ms)) same
        (Asked-IsOnRecord timing ms (operation_of input) st (honest.find_existing st told) done)
  Shows-IsOnRecord outcome (resolved st told done same) =
      subst (λ o. IsOnRecord (operation_of input) o (ledger_after timing ms)) same
        (Asked-IsOnRecord timing ms (operation_of input) st (honest.resolve_ambiguous st told) done)
  Shows-IsOnRecord outcome (polled id i st asked told done same) =
      subst (λ k. IsOnRecord k outcome (ledger_after timing ms)) (Polled-operation_of id asked)
        (subst (λ o. IsOnRecord id o (ledger_after timing ms)) same
          (Asked-IsOnRecord timing ms id st (honest.poll_status id i st asked told) done))
  Shows-IsOnRecord outcome (called_back i cb told same) =
      let (posted, signalled) = honest.recv i cb told in
      let on =
        Mem-All (Tells (ledger_after timing ms)) cb (posts ms (start timing)) posted
          (callbacks_tell_the_record timing ms) in
      subst (λ o. IsOnRecord (operation_of input) o (ledger_after timing ms)) same
        (subst (λ k. IsOnRecord k cb.outcome (ledger_after timing ms))
          (signalled ∙ canon-operation_of input) on)
  Shows-IsOnRecord outcome (turned_down sub (inl told) verdict same) =
      subst (λ o. IsOnRecord (operation_of input) o (ledger_after timing ms)) (sym same)
        (Exchanged-IsOnRecord timing ms (submission_of cfg input) sub (honest.submit sub told)
          verdict)
  Shows-IsOnRecord outcome (turned_down sub (inr told) verdict same) =
      subst (λ o. IsOnRecord (operation_of input) o (ledger_after timing ms)) (sym same)
        (Exchanged-IsOnRecord timing ms (submission_of cfg input) sub (honest.resubmit sub told)
          verdict)
