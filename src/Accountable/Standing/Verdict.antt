-- ===== src/Accountable/Standing/Verdict.antt =====
-- A decision of internal/accountable/server.go that was answered without an error stands.
use dbos_conformance.Common.{
  String, ℤ, none, some, List, [], ◌≡◌, refl, sym, subst, ap, ◌∙◌, arith, string_eq, int_eq, nat_eq,
  inl, inr, ◌⊎◌, Result, ok,
}
use dbos_conformance.Domain.{state_accepted, state_rejected}
use dbos_conformance.Accountable.Command.{CommandRequest, CommandResult, Error}
use dbos_conformance.Accountable.Tables.{Db, find_command}
use dbos_conformance.Accountable.Apply.{Faults, apply_command}
use dbos_conformance.Accountable.Outcome.{Outcome, failed, replayed, applied, apply_command-Outcome}
use dbos_conformance.Accountable.Finality.{final_filing}
use dbos_conformance.Accountable.History.{Call, run_calls, run_calls-induction}
use dbos_conformance.Accountable.Standing.{
  Stands, Decision, AllStand, still-Decision, applied-Decision, Outcome-AllStand,
}

pub run_calls-AllStand : (cs : List Call) (db : Db) → AllStand db → AllStand (run_calls cs db)
run_calls-AllStand = run_calls-induction AllStand (λ faults now call db all.
    Outcome-AllStand faults now call db (still-Decision faults now call db)
      (apply_command-Outcome faults now call db) all)

-- A command that was answered without an error has its decision in the tables.
answered-Decision :
    (now : ℤ) (req : CommandRequest) (db : Db) {answer : Result Error CommandResult} {db' : Db}
    (res : CommandResult)
    → ((c : CommandRequest) → Decision c db.filings → Decision c db'.filings)
    → Outcome now req db answer db'
    → AllStand db
    → answer ≡ ok res
    → Decision req db'.filings
answered-Decision now req db res still (failed e told same) all is = ground arith
answered-Decision now req db res still (replayed r replay told) all is =
    still req (all req.idempotency_key replay.row req replay.known replay.same_request)
answered-Decision now req db {db' = db'} res still (applied r new_state leads fresh first told) all
      is =
    applied-Decision now req new_state db db' r leads first

-- A decision that the service has answered stands. Over tables that start without commands, let any
-- commands run, with any faults, and then a command be answered without an error. If it is the one that
-- accepts (or rejects) its filing, the filing is accepted (or rejected) after every further sequence of
-- commands and faults, also where the answer was the replay of an earlier one.
pub answered_verdict_lasts :
    (cs later : List Call) (faults : Faults) (now : ℤ) (req : CommandRequest) (res : CommandResult)
    (db : Db)
    → db.commands ≡ []
    → (apply_command faults now req (run_calls cs db)).0 ≡ ok res
    → Decision req (run_calls later (apply_command faults now req (run_calls cs db)).1).filings
unfolding find_command
answered_verdict_lasts cs later faults now req res db fresh answered =
    let before = run_calls cs db in
    let all = run_calls-AllStand cs db (none_stored db fresh) in
    let (as_accepted, as_rejected) =
      answered-Decision now req before res (still-Decision faults now req before)
        (apply_command-Outcome faults now req before) all answered in
    (
      λ is.
          for_good (apply_command faults now req before).1 state_accepted (inl refl)
            (as_accepted is),
      λ is.
          for_good (apply_command faults now req before).1 state_rejected (inr refl)
            (as_rejected is),
    )
  where
    none_stored : (db : Db) → db.commands ≡ [] → AllStand db
    none_stored db fresh key row c found payload =
        let bad : none ≡ some row = sym (ap (find_command key) fresh) ∙ found in ground arith

    for_good :
        (db : Db) (state : String)
        → (state ≡ state_accepted) ⊎ (state ≡ state_rejected)
        → Stands req state db.filings
        → Stands req state (run_calls later db).filings
    for_good db state final stands = record {
      filing = stands.filing;
      found =
          final_filing later db req.filing_id req.tax_year stands.filing stands.found
            (subst (λ s. (s ≡ state_accepted) ⊎ (s ≡ state_rejected)) (sym stands.same) final);
      same = stands.same;
    }
