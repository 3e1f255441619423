-- ===== src/Operator/Tool.antt =====
-- `main` of cmd/opsctl/main.go: the calls that a subcommand makes (of `reconcile`, its first one and
-- those that change something) and the code that the process exits with. The flags are given as the flag package reads them, the clients by what they answer.
use dbos_conformance.Common.{
  ℕ, suc, ◌*◌, ◌-◌, String, ℤ, pos, negsuc, Bool, Option, none, some, List, [], ◌∷◌, ◌++◌, map,
  ◌!=◌, string_eq, if◌then◌else◌, Result, ok, err,
}
use dbos_conformance.Domain.{FilingInput}
use dbos_conformance.Domain.Json.{Json}
use dbos_conformance.Accountable.Handlers.{WorkflowStartConflict}
use dbos_conformance.Accountable.Queries.{Filing as Served}
use dbos_conformance.Worker.Callbacks.{Signal}
use dbos_conformance.Operator.Commands as Commands
use dbos_conformance.Operator.Enqueue as Enqueue
use dbos_conformance.Operator.Enqueue.{EnqueueError, enqueue_filing}
use dbos_conformance.Operator.Reconcile as Reconcile
use dbos_conformance.Operator.Reconcile.{Act, Report}

-- The subcommands; `none` stands for a missing argument, `other` for an unknown name.
pub data Command : Type 0 where
  list : String → ℤ → Bool → Command
  inspect : Option String → Command
  cancel : Option String → Command
  resume : Option String → Command
  send : Option String → String → String → Command
  start : Option String → ℤ → String → String → Command
  reconcile : Bool → ℤ → String → Command
  other : Command

-- dbos.ListWorkflowsOption
pub data ListOption : Type 0 where
  with_limit : ℤ → ListOption
  with_sort_desc : ListOption
  with_status : String → ListOption
  with_queues_only : ListOption

unfoldable pub list_options : String → ℤ → Bool → List ListOption
list_options status limit queues =
    with_limit limit
    ∷ with_sort_desc
    ∷ ((if status != "" then with_status status ∷ [] else [])
        ++ (if queues then with_queues_only ∷ [] else []))

pub data ClientCall : Type 0 where
  lists_workflows : List ListOption → ClientCall
  retrieves : String → ClientCall
  gets_status : String → ClientCall
  gets_steps : String → ClientCall
  cancels : String → ClientCall
  resumes : String → ClientCall
  signals : Signal → ClientCall
  enqueues : String → FilingInput → String → ClientCall
  reports : WorkflowStartConflict → ClientCall
  lists_filings : String → ClientCall
  acts : Act → ClientCall

-- What the calls are answered, each read only where it is made.
pub record Replies : Type 0 where
  pub listed : Result String (Unit {0})
  pub retrieved : Result String (Unit {0})
  pub status : Result String (Unit {0})
  pub steps : Result String (Unit {0})
  pub cancelled : Result String (Unit {0})
  pub resumed : Result String (Unit {0})
  pub sent : Result String (Unit {0})
  pub enqueued : Enqueue.Answers
  pub filings : Result String (List Served)
  pub round : Served → Reconcile.Answers
  pub now : ℤ

pub record Ran : Type 0 where
  pub calls : List ClientCall
  pub exit : ℕ

-- usage, or requireArg
abbrev pub usage : Ran
usage = record { calls = []; exit = 2 }

-- check(err)
abbrev pub exit_of {ℓ κ} : {E : Type κ} {A : Type ℓ} → Result E A → ℕ
exit_of (ok a) = 0
exit_of (err e) = 1

-- One call and its check.
abbrev pub one_call : ClientCall → Result String (Unit {0}) → Ran
one_call call answer = record { calls = call ∷ []; exit = exit_of answer }

-- time.Duration(n)*time.Second
unfoldable pub duration_of : ℤ → ℤ
duration_of (pos n) = pos (n * 1000000000)
duration_of (negsuc n) = negsuc (suc n * 1000000000 - 1)

abbrev pub inspect_workflow : Replies → String → Ran
inspect_workflow replies id = elim replies.retrieved [
  | err e ↦ record { calls = retrieves id ∷ []; exit = 1 }
  | ok handle ↦ elim replies.status [
    | err e ↦ record { calls = retrieves id ∷ gets_status id ∷ []; exit = 1 }
    | ok done ↦ record {
      calls = retrieves id ∷ gets_status id ∷ gets_steps id ∷ [];
      exit = exit_of replies.steps;
    }
  ]
]

abbrev pub reported : Option WorkflowStartConflict → List ClientCall
reported none = []
reported (some conflict) = reports conflict ∷ []

abbrev pub exit_after : Report → ℕ
exit_after report = elim report.error [ none ↦ 0 | some e ↦ 1 ]

-- `reconcile`, from the list of the filings on.
unfoldable pub reconcile_all : Replies → Bool → ℤ → String → Ran
unfolding duration_of
reconcile_all replies apply stale_seconds version = elim replies.filings [
  | err e ↦ record { calls = lists_filings "reconcilable=1" ∷ []; exit = 1 }
  | ok filings ↦
      (let report =
          Reconcile.reconcile apply version (duration_of stale_seconds) replies.now replies.round
            filings in
        record {
          calls = lists_filings "reconcilable=1" ∷ map acts report.acts;
          exit = exit_after report;
        })
]

module _ (parse : String → Option Json) (render : FilingInput → String)
    (digest : String → String) where
  abbrev pub start_filing : Replies → String → ℤ → String → String → Ran
  start_filing replies filing year scenario version =
      let input = Commands.start_input filing year scenario in
      let (result, conflict) =
        enqueue_filing parse render digest replies.enqueued (Commands.start_id filing year) input in
      record {
        calls = enqueues (Commands.start_id filing year) input version ∷ reported conflict;
        exit = exit_of result;
      }

  -- The switch on the name of the subcommand.
  unfoldable pub run : Replies → Command → Ran
  unfolding list_options reconcile_all Commands.send
  run replies (list status limit queues) =
      one_call (lists_workflows (list_options status limit queues)) replies.listed
  run replies (inspect none) = usage
  run replies (inspect (some id)) = inspect_workflow replies id
  run replies (cancel none) = usage
  run replies (cancel (some id)) = one_call (cancels id) replies.cancelled
  run replies (resume none) = usage
  run replies (resume (some id)) = one_call (resumes id) replies.resumed
  run replies (send none outcome key) = usage
  run replies (send (some id) outcome key) =
      one_call (signals (Commands.send id outcome key)) replies.sent
  run replies (start none year scenario version) = usage
  run replies (start (some filing) year scenario version) =
      start_filing replies filing year scenario version
  run replies (reconcile apply stale_seconds version) =
      reconcile_all replies apply stale_seconds version
  run replies other = usage
