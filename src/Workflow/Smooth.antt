-- ===== src/Workflow/Smooth.antt =====
-- Executions of internal/workflow/filing.go in which nothing goes wrong.
use dbos_conformance.Common.{
  ℕ, suc, String, Bool, true, false, ◌&&◌, ◌||◌, ◌==◌, ◌!=◌, string_eq, Result, ok, err, ◌≡◌, subst,
  arith, ap, eq_iff,
}
use dbos_conformance.Domain.{Callback, FilingInput, state_accepted, state_rejected}
use dbos_conformance.Accountable.Command.{CommandResult}
use dbos_conformance.Accountable.Handlers.{rounds_of}
use dbos_conformance.Accountable.Queries.{Filing as Served}
use dbos_conformance.Authority.Submit.{StatusResponse}
use dbos_conformance.Authority.Client.{SubmitOutcome}
use dbos_conformance.Workflow.Steps.{Answers, received, timed_out, Run, and_then, ◌>>=◌}
use dbos_conformance.Workflow.Told.{FoundFinal}
use dbos_conformance.Workflow.Outcome.{Config, map_outcome, operation_of}

-- The first round of the wait finds the outcome, by a callback or by a poll after the timeout.
pub data Decides (ans : Answers) (outcome : String) : Type 0 where
  by_callback :
      (cb : Callback) → ans.recv 0 ≡ received cb → cb.outcome ≡ outcome → Decides ans outcome
  by_poll :
      (st : StatusResponse)
      → ans.recv 0 ≡ timed_out
      → ans.poll_status 0 ≡ ok st
      → (st.status == "completed") ≡ true
      → st.outcome ≡ outcome
      → Decides ans outcome

-- Every step succeeds, on a filing that is not final and has no foreign operation; the provider decides
-- within the first round, and the service then has the state that the outcome stands for.
pub record GoesWell (cfg : Config) (ans : Answers) (input : FilingInput) : Type 0 where
  pub filing : Served
  pub validate : ans.validate ≡ ok filing
  pub open_state : (filing.state == state_accepted || filing.state == state_rejected) ≡ false
  pub own_operation :
      (filing.provider_operation_id != "" && filing.provider_operation_id != operation_of input)
      ≡ false
  pub patched : Bool
  pub patch : ans.patch ≡ ok patched
  pub risk : String
  pub risk_precheck : ans.risk_precheck ≡ ok risk
  pub prepared : CommandResult
  pub prepare_submission : ans.prepare_submission ≡ ok prepared
  pub existing : StatusResponse
  pub find_existing : ans.find_existing ≡ ok existing
  pub sub : SubmitOutcome
  pub submit : ans.submit ≡ ok sub
  pub resolved : StatusResponse
  pub resolve_ambiguous : ans.resolve_ambiguous ≡ ok resolved
  pub again : SubmitOutcome
  pub resubmit : ans.resubmit ≡ ok again
  pub marked : CommandResult
  pub mark_submitted : ans.mark_submitted ≡ ok marked
  pub more : ℕ
  pub rounds : rounds_of cfg.status_polls ≡ suc more
  pub outcome : String
  pub named : (outcome == "") ≡ false
  pub decides : Decides ans outcome
  pub stored : CommandResult
  pub record_outcome : ans.record_outcome ≡ ok stored
  pub final : Served
  pub reconcile_final : ans.reconcile_final ≡ ok final
  pub agrees : (final.state == map_outcome outcome) ≡ true

-- What the first step read of a filing that is open is not that it is final.
pub open_not_final :
    (cfg : Config) (ans : Answers) (input : FilingInput) → GoesWell cfg ans input → ¬ FoundFinal ans
open_not_final cfg ans input well found =
    let same : found.filing ≡ well.filing = (let a = found.read in let b = well.validate in cc) in
    let state : found.filing.state ≡ well.filing.state = ap (λ (f : Served). f.state) same in
    let is_open = well.open_state in
    let final = found.final in
    ground (arith, eq_iff well.filing.state "accepted", eq_iff well.filing.state "rejected")

abbrev pub Ends : {A : Type 0} → Run A → Type 0
Ends {A = A} run = (a : A) × (run.result ≡ ok a)

pub then-Ends :
    {A B : Type 0} (m : Run A) (next : A → Run B) (a : A)
    → m.result ≡ ok a
    → Ends (next a)
    → Ends (m >>= next)
then-Ends {A = A} {B = B} m next a e ends = after m.result e
  where
    after : (r : Result String A) → r ≡ ok a → Ends (and_then m.actions r next)
    after (err x) is = ground arith
    after (ok a') is = let same : a ≡ a' = cc in subst (λ x. Ends (next x)) same ends
