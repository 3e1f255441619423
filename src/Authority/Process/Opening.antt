-- ===== src/Authority/Process/Opening.antt =====
-- `NewPersistentServer` of internal/authority/server.go with its errors: the database is opened, its
-- schema applied, the ledger read, and what is pending in it scheduled.
use Prim.Native.String as Text
use dbos_conformance.Common.{String, Option, none, some, Result, ok, err, ◌≡◌, refl}
use dbos_conformance.Authority.Ledger.{PersistentState, Timing, new_persistent_server}
use dbos_conformance.Authority.Completion.{resume_pending}
use dbos_conformance.Authority.Process.{Process, restarted, moves}

-- What the database answers: to pgxpool.New, to the schema, and to the SELECT, with what json.Unmarshal
-- makes of the row, if there is one.
pub record Opening : Type 0 where
  pub connect : Result String (Unit {0})
  pub schema : Result String (Unit {0})
  pub row : Result String (Option (Result String PersistentState))

abbrev opened : Timing → Option PersistentState → Process
opened timing row =
    let server = new_persistent_server timing row in
    record { server = server; tasks = resume_pending server.subs }

abbrev load : Timing → Option (Result String PersistentState) → Result String Process
load timing none = ok (opened timing none)
load timing (some (err e)) = err (Text.◌++◌ "decode authority state: " e)
load timing (some (ok state)) = ok (opened timing (some state))

unfoldable pub open_server : Timing → Opening → Result String Process
unfolding new_persistent_server resume_pending
open_server timing opening = elim opening.connect [
  | err e ↦ err e
  | ok done ↦ elim opening.schema [
    | err e ↦ err (Text.◌++◌ "apply authority schema: " e)
    | ok applied ↦ elim opening.row [
      | err e ↦ err (Text.◌++◌ "load authority state: " e)
      | ok row ↦ load timing row
    ]
  ]
]

-- The answers of a database that is up, with or without a row.
abbrev pub answers_with : Option PersistentState → Opening
answers_with none = record { connect = ok tt; schema = ok tt; row = ok none }
answers_with (some state) = record { connect = ok tt; schema = ok tt; row = ok (some (ok state)) }

-- A restart of the process is an opening that the database answers.
pub restart-open_server :
    (timing : Timing) (s : Process) (row : Option PersistentState)
    → s.server.pool ≡ some row
    → open_server timing (answers_with row) ≡ ok (moves (restarted timing) s)
unfolding moves open_server
restart-open_server timing s none e = rw (e, moves) refl
restart-open_server timing s (some state) e = rw (e, moves) refl
