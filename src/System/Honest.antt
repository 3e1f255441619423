-- ===== src/System/Honest.antt =====
-- The workflow of internal/workflow/filing.go with the provider of internal/authority/server.go: what
-- its steps return where each answer is one that the provider gave earlier in its history, or was lost.
use mathlib.Core.List.{Memᴰ}
use dbos_conformance.Common.{
  ℕ, String, ℤ, Option, none, some, List, [], ◌∷◌, ◌++◌, Result, ok, err, ◌≡◌, refl, sym, ◌∙◌, ap,
  subst, inl, inr, All, Dict, arith, eq_iff,
}
use dbos_conformance.Domain.{FilingInput, Callback}
use dbos_conformance.Domain.Identity.{workflow_id, provider_operation_id}
use dbos_conformance.Authority.Ledger.{Submission, Timing, Persist}
use dbos_conformance.Authority.Submit.{
  SubmitRequest, Response, StatusResponse, handle_submit, handle_status,
}
use dbos_conformance.Authority.Client.{SubmitOutcome, submit, status}
use dbos_conformance.Authority.Grows.{Grows}
use dbos_conformance.Authority.Process.{Process, Move, called, moves, move, posts}
use dbos_conformance.Authority.Process.Truthful.{
  IsTruthful, moves-IsTruthful, move-Grows, start, start-IsTruthful,
}
use dbos_conformance.Authority.Process.Owed.{IsOnRecord, Grows-IsOnRecord}
use dbos_conformance.Authority.Process.Callbacks.{Tells, callbacks_tell_the_record}
use dbos_conformance.Authority.Process.Verdicts.{
  rejection_is_recorded, status_is_recorded, status_names,
}
use dbos_conformance.Worker.Callbacks.{signal_of}
use dbos_conformance.Workflow.Steps.{Answers, received}
use dbos_conformance.Workflow.Outcome.{Config, canon, operation_of}
use dbos_conformance.Workflow.Filing.{submission_of}
use dbos_conformance.Workflow.Evidence.{
  Polled, Shows, found, resolved, polled, called_back, turned_down,
}
use dbos_conformance.System.Once.{Mem-All}
pub mod Shown

module _ (timing : Timing) (ms : List Move) where
  -- The provider's ledger at the end of the history.
  abbrev pub ledger_after : Dict Submission
  ledger_after = (move ms (start timing)).server.subs

  -- The client has read the status at some time of the history.
  pub record Asked (id : String) (st : StatusResponse) : Type 0 where
    pub before : List Move
    pub after : List Move
    pub split : before ++ after ≡ ms
    pub read :
        status (ok (200, some (handle_status id (move before (start timing)).server))) ≡ ok st

  -- The client has submitted the request at some time of the history and read the answer, or the answer
  -- was lost.
  pub data Exchanged (req : SubmitRequest) (sub : SubmitOutcome) : Type 0 where
    answered :
        (before after : List Move) (p : Persist) (now : ℤ)
        → before ++ called p now (some req) ∷ after ≡ ms
        → submit (ok (handle_submit p now (some req) (move before (start timing)).server).response)
          ≡ ok sub
        → Exchanged req sub
    lost : (error : String) → submit (err error) ≡ ok sub → Exchanged req sub

  -- Each status that the steps return was read from the provider, each result of a submission comes of
  -- the submission, and each callback is one that the provider POSTed and the worker's endpoint signals
  -- to the filing's workflow.
  pub record Honest (cfg : Config) (ans : Answers) (input : FilingInput) : Type 0 where
    pub find_existing :
        (st : StatusResponse) → ans.find_existing ≡ ok st → Asked (operation_of input) st
    pub resolve_ambiguous :
        (st : StatusResponse) → ans.resolve_ambiguous ≡ ok st → Asked (operation_of input) st
    pub poll_status :
        (id : String) (i : ℕ) (st : StatusResponse)
        → Polled ans input id
        → ans.poll_status i ≡ ok st
        → Asked id st
    pub submit :
        (sub : SubmitOutcome) → ans.submit ≡ ok sub → Exchanged (submission_of cfg input) sub
    pub resubmit :
        (sub : SubmitOutcome) → ans.resubmit ≡ ok sub → Exchanged (submission_of cfg input) sub
    pub recv :
        (i : ℕ) (cb : Callback)
        → ans.recv i ≡ received cb
        → Memᴰ cb (posts ms (start timing)) × ((signal_of cb).workflow_id ≡ canon input)
