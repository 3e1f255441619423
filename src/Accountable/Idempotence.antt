-- ===== src/Accountable/Idempotence.antt =====
-- Idempotency keys: a command takes effect once, and a retry has the result of the first call.
use mathlib.Core.Option
use mathlib.Core.Option.{some-injective}
use dbos_conformance.Common.{
  ℕ, ◌+◌, String, ℤ, true, false, none, some, List, ◌≡◌, refl, sym, subst, arith, eq_iff, eq_refl,
  int_beq_iff, string_eq, int_eq, nat_eq, ap, ◌∙◌, ◌⊎◌, lookup, Result, ok, err,
}
use dbos_conformance.Accountable.Command.{
  CommandRequest, CommandResult, Error, database_error, command_transitions, request_beq_iff,
}
use dbos_conformance.Accountable.Tables.{readable, CommandRow, Db, find_command, update_where}
use dbos_conformance.Accountable.Tables.Laws.{find_command-update_where, updated}
use dbos_conformance.Accountable.Apply.{
  Faults, no_faults, bump, has_key, replay_command, run_command, finish, apply_command,
}
use dbos_conformance.Accountable.First.{First, first_row}
use dbos_conformance.Accountable.Outcome.{Outcome, failed, replayed, applied, apply_command-Outcome}
use dbos_conformance.Accountable.History.{Call, run_calls, run_calls-induction}

-- The tables hold the request and its result under its key.
pub record Remembers (req : CommandRequest) (res : CommandResult) (db : Db) : Type 0 where
  pub row : CommandRow
  pub known : find_command req.idempotency_key db.commands ≡ some row
  pub payload : row.payload ≡ readable req
  pub result : row.result ≡ readable res
  pub command_type : row.command_type ≡ req.command_type
  pub filing_id : row.filing_id ≡ req.filing_id
  pub tax_year : row.tax_year ≡ req.tax_year

-- A bumped counter hides nothing.
bump-Remembers :
    (req : CommandRequest) (res : CommandResult) (db : Db) (key : String)
    → Remembers req res db
    → Remembers req res (record db { commands = update_where (has_key key) bump db.commands })
bump-Remembers req res db key m = record {
  row = updated (has_key key) bump m.row;
  known =
      find_command-update_where (has_key key) bump req.idempotency_key db.commands (λ c. refl)
      ∙ ap (Option.map (updated (has_key key) bump)) m.known;
  payload = ground arith;
  result = ground arith;
  command_type = ground arith;
  filing_id = ground arith;
  tax_year = ground arith;
}

First-Remembers :
    (now : ℤ) (req : CommandRequest) (new_state : String) (db : Db) (res : CommandResult) (db' : Db)
    → First now req new_state db res db'
    → Remembers req res db'
unfolding find_command
First-Remembers now req new_state db res db' first = record {
  row = first_row now req res;
  known = rw first.stored (ground (arith, eq_refl req.idempotency_key));
  payload = refl;
  result = refl;
  command_type = refl;
  filing_id = refl;
  tax_year = refl;
}

-- Another command beside it hides nothing.
later-Remembers :
    (now : ℤ) (req other : CommandRequest) (new_state : String) (db : Db) (res new : CommandResult)
    (db' : Db)
    → find_command other.idempotency_key db.commands ≡ none
    → First now other new_state db new db'
    → Remembers req res db
    → Remembers req res db'
unfolding find_command
later-Remembers now req other new_state db res new db' fresh first m = record {
  row = m.row;
  known = rw first.stored (ground (arith, eq_iff other.idempotency_key req.idempotency_key));
  payload = m.payload;
  result = m.result;
  command_type = m.command_type;
  filing_id = m.filing_id;
  tax_year = m.tax_year;
}

Outcome-Remembers :
    (now : ℤ) (req other : CommandRequest) (res : CommandResult) (db : Db)
    {answer : Result Error CommandResult} {db' : Db}
    → Outcome now other db answer db'
    → Remembers req res db
    → Remembers req res db'
Outcome-Remembers now req other res db (failed e told same) m =
    subst (Remembers req res) (sym same) m
Outcome-Remembers now req other res db (replayed new r told) m =
    subst (Remembers req res) (sym r.counted) (bump-Remembers req res db other.idempotency_key m)
Outcome-Remembers now req other res db {db' = db'} (applied new new_state leads fresh first told)
      m =
    later-Remembers now req other new_state db res new db' fresh first m

run_calls-Remembers :
    (req : CommandRequest) (res : CommandResult) (cs : List Call) (db : Db)
    → Remembers req res db
    → Remembers req res (run_calls cs db)
run_calls-Remembers req res = run_calls-induction (Remembers req res) λ faults now other db m.
    Outcome-Remembers now req other res db (apply_command-Outcome faults now other db) m

-- The answer to a request that is remembered, where nothing fails.
abbrev pub replayed_result : CommandResult → ℕ → CommandResult
replayed_result res n = record res { applied = false; duplicate_attempts = n }

replay-Remembers :
    (req : CommandRequest) (res : CommandResult) (db : Db) (m : Remembers req res db)
    → replay_command no_faults req m.row db
      ≡ ok (
        replayed_result res (m.row.duplicate_attempts + 1),
        record db { commands = update_where (has_key req.idempotency_key) bump db.commands },
      )
unfolding replay_command
replay-Remembers req res db m = ground (
  arith,
  request_beq_iff req req,
  eq_iff m.row.command_type req.command_type,
  eq_iff m.row.filing_id req.filing_id,
  int_beq_iff m.row.tax_year req.tax_year,
)

apply-Remembers :
    (req : CommandRequest) (res : CommandResult) (db : Db) (now : ℤ) (new_state : String)
    → lookup req.command_type command_transitions ≡ some new_state
    → (m : Remembers req res db)
    → apply_command no_faults now req db ≡ (
      ok (replayed_result res (m.row.duplicate_attempts + 1)),
      record db { commands = update_where (has_key req.idempotency_key) bump db.commands },
    )
unfolding apply_command run_command
apply-Remembers req res db now new_state leads m =
    rw (leads, apply_command)
      (rw (m.known, run_command) (rw (replay-Remembers req res db m) (unfold finish in refl)))

-- A call under a key that the tables did not have, and have afterwards, whatever its caller was
-- told, stored a first application.
stored-First :
    (now : ℤ) (req : CommandRequest) (db : Db) {answer : Result Error CommandResult} {db' : Db}
    {row : CommandRow}
    → find_command req.idempotency_key db.commands ≡ none
    → find_command req.idempotency_key db'.commands ≡ some row
    → Outcome now req db answer db'
    → (res : CommandResult) × (new_state : String) × (lookup req.command_type command_transitions
        ≡ some new_state)
      × First now req new_state db res db'
      × ((answer ≡ ok res) ⊎ (answer ≡ err database_error))
stored-First now req db fresh stored (failed e told same) =
    absurd (ground (arith, ap (λ (d : Db). find_command req.idempotency_key d.commands) same))
stored-First now req db fresh stored (replayed res r told) = absurd (ground (arith, r.known))
stored-First now req db fresh stored (applied res new_state leads _ first told) =
    (res, new_state, leads, first, told)

-- A first call, whatever failed in it and whatever its caller was told, whose key the tables did not
-- have before and have afterwards, fixes the answer for good: after any other calls, a retry of the
-- same request in which nothing fails returns the first call's result, marked as not applied, and
-- moves no filing. The first caller had that result, marked as applied, or a database error.
pub retry_has_first_result :
    (faults : Faults) (now later : ℤ) (req : CommandRequest) (db : Db) (cs : List Call)
    (row : CommandRow)
    → find_command req.idempotency_key db.commands ≡ none
    → find_command req.idempotency_key (apply_command faults now req db).1.commands ≡ some row
    → let first = apply_command faults now req db in
      let before = run_calls cs first.1 in
      let retry = apply_command no_faults later req before in
      (res : CommandResult) × (n : ℕ) × ((first.0 ≡ ok res) ⊎ (first.0 ≡ err database_error))
      × (res.applied ≡ true)
      × (retry.0 ≡ ok (replayed_result res n))
      × (retry.1.filings ≡ before.filings)
retry_has_first_result faults now later req db cs row fresh stored =
    let (res, new_state, leads, first, told) =
      stored-First now req db fresh stored (apply_command-Outcome faults now req db) in
    let m = run_calls-Remembers req res cs _ (First-Remembers now req new_state db res _ first) in
    let again = apply-Remembers req res _ later new_state leads m in
    (
      res,
      m.row.duplicate_attempts + 1,
      told,
      ground arith,
      ap (λ t. t.0) again,
      ap (λ t. t.1.filings) again,
    )
