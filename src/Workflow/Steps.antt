-- ===== src/Workflow/Steps.antt =====
-- The steps of internal/workflow/filing.go. The DBOS runtime keeps the result of a step, so one
-- execution of the workflow sees one result per step, however often the step is tried and the process
-- restarted: the results are a parameter. A run has the calls that its steps make, in order, and a
-- result.
use Prim.Native.String as Text
use dbos_conformance.Common.{ℕ, String, ℤ, Bool, List, [], ◌∷◌, ◌++◌, Result, ok, err}
use dbos_conformance.Domain.{Callback}
use dbos_conformance.Accountable.Command.{CommandRequest, CommandResult}
use dbos_conformance.Accountable.Queries.{Filing}
use dbos_conformance.Authority.Submit.{SubmitRequest, StatusResponse}
use dbos_conformance.Authority.Client.{SubmitOutcome}

-- dbos.Recv: a callback, a *dbos.DBOSError such as the timeout, or another error.
pub data Received : Type 0 where
  received : Callback → Received
  timed_out : Received
  broken : String → Received

-- What the steps return in one execution. The polls are numbered.
pub record Answers : Type 0 where
  pub validate : Result String Filing
  pub patch : Result String Bool
  pub risk_precheck : Result String String
  pub prepare_submission : Result String CommandResult
  pub find_existing : Result String StatusResponse
  pub submit : Result String SubmitOutcome
  pub resolve_ambiguous : Result String StatusResponse
  pub resubmit : Result String SubmitOutcome
  pub mark_submitted : Result String CommandResult
  pub recv : ℕ → Received
  pub poll_status : ℕ → Result String StatusResponse
  pub record_outcome : Result String CommandResult
  pub reconcile_final : Result String Filing

-- The calls of a step.
pub data Action : Type 0 where
  reads_filing : String → ℤ → Action
  sends_command : CommandRequest → Action
  submits : SubmitRequest → Action
  asks_status : String → Action

pub record Run {ℓ} (A : Type ℓ) : Type ℓ where
  pub actions : List Action
  pub result : Result String A

abbrev pub return {ℓ} : {A : Type ℓ} → A → Run A
return a = record { actions = []; result = ok a }

abbrev pub raise {ℓ} : {A : Type ℓ} → String → Run A
raise e = record { actions = []; result = err e }

-- dbos.RunAsStep
abbrev pub step {ℓ} : {A : Type ℓ} → Action → Result String A → Run A
step action answer = record { actions = action ∷ []; result = answer }

abbrev pub wrap {ℓ} : {A : Type ℓ} → String → Result String A → Result String A
wrap prefix (ok a) = ok a
wrap prefix (err e) = err (Text.◌++◌ prefix e)

abbrev pub and_then {ℓ κ} :
    {A : Type ℓ} {B : Type κ} → List Action → Result String A → (A → Run B) → Run B
and_then actions (err e) f = record { actions = actions; result = err e }
and_then actions (ok a) f = record { actions = actions ++ (f a).actions; result = (f a).result }

-- `if err != nil { return …, err }` between two calls.
infixl 5 ◌>>=◌ ◌>>◌
abbrev pub ◌>>=◌ {ℓ κ} : {A : Type ℓ} {B : Type κ} → Run A → (A → Run B) → Run B
m >>= f = and_then m.actions m.result f

abbrev pub ◌>>◌ {ℓ κ} : {A : Type ℓ} {B : Type κ} → Run A → Run B → Run B
m >> k = m >>= λ _. k
