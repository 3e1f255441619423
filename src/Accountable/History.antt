-- ===== src/Accountable/History.antt =====
-- Sequences of commands, each with its own faults and time: every order in which the service's
-- serializable transactions can run.
use dbos_conformance.Common.{
  ℤ, ℕ, ◌+◌, String, Bool, false, ◌&&◌, List, [], ◌∷◌, ◌==◌, string_eq, if◌then◌else◌, Result, ok,
  err,
}
use dbos_conformance.Accountable.Command.{CommandRequest, CommandResult, Error}
use dbos_conformance.Accountable.Tables.{Db}
use dbos_conformance.Accountable.Apply.{Faults, apply_command}

pub record Call : Type 0 where
  pub faults : Faults
  pub now : ℤ
  pub request : CommandRequest

unfoldable pub run_calls : List Call → Db → Db
run_calls [] db = db
run_calls (c ∷ cs) db = run_calls cs (apply_command c.faults c.now c.request db).1

-- The answer says that the command took effect.
abbrev pub reports_effect : Result Error CommandResult → Bool
reports_effect (ok res) = res.applied
reports_effect (err e) = false

-- How many calls with the key are answered so.
unfoldable pub effects_reported : String → List Call → Db → ℕ
effects_reported key [] db = 0
effects_reported key (c ∷ cs) db =
    let (answer, db') = apply_command c.faults c.now c.request db in
    let rest = effects_reported key cs db' in
    if c.request.idempotency_key == key && reports_effect answer then rest + 1 else rest

-- An invariant of one call is one of every history.
pub run_calls-induction :
    (P : Db → Type 0)
    → ((faults : Faults) (now : ℤ) (req : CommandRequest) (db : Db)
        → P db
        → P (apply_command faults now req db).1)
    → (cs : List Call) (db : Db) → P db
    → P (run_calls cs db)
unfolding run_calls
run_calls-induction P step [] db h = h
run_calls-induction P step (c ∷ cs) db h =
    run_calls-induction P step cs _ (step c.faults c.now c.request db h)
