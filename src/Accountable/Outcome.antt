-- ===== src/Accountable/Outcome.antt =====
-- What one call of `apply_command` does to the tables: nothing, one more duplicate, or one move of
-- a filing with the command stored beside it. The later proofs go by these three cases.
use dbos_conformance.Common.{
  ◌+◌, Result-cases, String, ℤ, false, Option, none, some, ◌≡◌, refl, ◌⊎◌, inl, inr, arith,
  string_eq, int_eq, nat_eq, Result, ok, err, lookup,
}
use dbos_conformance.Accountable.First.{First, first_command-First}
use dbos_conformance.Accountable.Command.{
  CommandRequest, CommandResult, command_transitions, Error, unknown_command_type, database_error,
  request_beq_iff,
}
use dbos_conformance.Accountable.Tables.{
  Document, readable, unreadable, CommandRow, Db, find_command, update_where,
}
use dbos_conformance.Accountable.Apply.{
  Faults, Commit, committed, refused, unacknowledged, bump, has_key, replay_command, run_command,
  finish, apply_command,
}

-- A known key that was not refused: it is the same request, and its stored result comes back.
pub record Replayed (req : CommandRequest) (db : Db) (res : CommandResult) (db' : Db) : Type 0 where
  pub row : CommandRow
  pub original : CommandResult
  pub known : find_command req.idempotency_key db.commands ≡ some row
  pub same_request : row.payload ≡ readable req
  pub same_result : row.result ≡ readable original
  pub result :
      res ≡ record original { applied = false; duplicate_attempts = row.duplicate_attempts + 1 }
  pub counted :
      db' ≡ record db { commands = update_where (has_key req.idempotency_key) bump db.commands }

-- The three outcomes of a call. A stored change may come with an error: the commit's answer was
-- lost.
pub data Outcome (now : ℤ) (req : CommandRequest) (db : Db) (answer : Result Error CommandResult)
    (db' : Db) : Type 0 where
  failed : (e : Error) → answer ≡ err e → db' ≡ db → Outcome now req db answer db'
  replayed :
      (res : CommandResult)
      → Replayed req db res db'
      → (answer ≡ ok res) ⊎ (answer ≡ err database_error)
      → Outcome now req db answer db'
  applied :
      (res : CommandResult) (new_state : String)
      → lookup req.command_type command_transitions ≡ some new_state
      → find_command req.idempotency_key db.commands ≡ none
      → First now req new_state db res db'
      → (answer ≡ ok res) ⊎ (answer ≡ err database_error)
      → Outcome now req db answer db'

module _ (faults : Faults) (req : CommandRequest) (row : CommandRow) (db : Db) where
  readable_documents :
      {res : CommandResult} {db' : Db} (payload : Document CommandRequest)
      (result : Document CommandResult)
      → row.payload ≡ payload
      → row.result ≡ result
      → replay_command faults req row db ≡ ok (res, db')
      → (p : CommandRequest) × (original : CommandResult) × (row.payload ≡ readable p)
        × (row.result ≡ readable original)
  unfolding replay_command
  readable_documents (readable p) (readable original) e f h = (p, original, e, f)
  readable_documents unreadable _ e f h = absurd (ground arith)
  readable_documents (readable p) unreadable e f h = absurd (ground arith)

  replay_command-Replayed :
      {res : CommandResult} {db' : Db}
      → find_command req.idempotency_key db.commands ≡ some row
      → replay_command faults req row db ≡ ok (res, db')
      → Replayed req db res db'
  replay_command-Replayed {res} {db'} known h =
      let (p, original, e, f) = readable_documents row.payload row.result refl refl h in
      record {
        row = row;
        original = original;
        known = known;
        same_request = unfold replay_command in ground (arith, request_beq_iff p req);
        same_result = f;
        result = unfold replay_command in ground arith;
        counted = unfold replay_command in ground arith;
      }

module _ (faults : Faults) (now : ℤ) (req : CommandRequest) (db : Db) where
  -- A transaction that reached its commit, whatever the caller is told of it.
  stored-Outcome :
      (new_state : String) (found : Option CommandRow) {res : CommandResult} {db' : Db}
      {answer : Result Error CommandResult}
      → lookup req.command_type command_transitions ≡ some new_state
      → find_command req.idempotency_key db.commands ≡ found
      → run_command faults now new_state req db ≡ ok (res, db')
      → (answer ≡ ok res) ⊎ (answer ≡ err database_error)
      → Outcome now req db answer db'
  unfolding run_command
  stored-Outcome new_state (some row) {res} known found h told =
      replayed res (replay_command-Replayed faults req row db found (ground arith)) told
  stored-Outcome new_state none {res} known found h told =
      applied res new_state known found
        (first_command-First faults now new_state req db (ground arith)) told

  finish-Outcome :
      (c : Commit) (new_state : String) {res : CommandResult} {db' : Db}
      → lookup req.command_type command_transitions ≡ some new_state
      → run_command faults now new_state req db ≡ ok (res, db')
      → let after = finish c db (ok (res, db')) in Outcome now req db after.0 after.1
  unfolding finish
  finish-Outcome committed new_state known h = stored-Outcome new_state _ known refl h (inl refl)
  finish-Outcome refused new_state known h = failed database_error refl refl
  finish-Outcome unacknowledged new_state known h =
      stored-Outcome new_state _ known refl h (inr refl)

  run-Outcome :
      (new_state : String)
      → lookup req.command_type command_transitions ≡ some new_state
      → let after = finish faults.commit db (run_command faults now new_state req db) in
        Outcome now req db after.0 after.1
  run-Outcome new_state known = elim (Result-cases (run_command faults now new_state req db)) [
    | inl (e, h) ↦ rw h (failed e (unfold finish in refl) (unfold finish in refl))
    | inr ((res, db'), h) ↦ rw h (finish-Outcome faults.commit new_state known h)
  ]

  known-Outcome :
      (target : Option String)
      → lookup req.command_type command_transitions ≡ target
      → let after = apply_command faults now req db in Outcome now req db after.0 after.1
  unfolding apply_command
  known-Outcome none e =
      rw (e, apply_command) (failed (unknown_command_type req.command_type) refl refl)
  known-Outcome (some new_state) e = rw (e, apply_command) (run-Outcome new_state e)

  -- Every call ends in one of the three outcomes.
  pub apply_command-Outcome :
      let after = apply_command faults now req db in Outcome now req db after.0 after.1
  apply_command-Outcome = known-Outcome _ refl
