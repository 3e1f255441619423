-- ===== src/Accountable/Service.antt =====
-- The requests that change the tables of internal/accountable/server.go, as one type, and the service
-- as a function of a sequence of them.
use dbos_conformance.Common.{ℕ, ℤ, String, Bool, Option, List, [], ◌∷◌}
use dbos_conformance.Accountable.Command.{CommandRequest}
use dbos_conformance.Accountable.Tables.{Db}
use dbos_conformance.Accountable.Apply.{Faults}
use dbos_conformance.Accountable.Handlers.{
  WorkflowStartConflict, SeedRequest, post_command, post_conflict, post_seed, put_filing,
}

pub data Request : Type 0 where
  command : Faults → ℤ → Option CommandRequest → Request
  conflict : Bool → ℤ → Option WorkflowStartConflict → Request
  seed : (ℕ → Bool) → ℤ → Option SeedRequest → Request
  put : Bool → ℤ → String → Option (ℤ × String) → Request

unfoldable pub serve : Request → Db → Db
serve (command faults now req) db = (post_command faults now req db).1
serve (conflict fails now c) db = (post_conflict fails now c db).1
serve (seed fails now req) db = (post_seed fails now req db).1
serve (put fails now id req) db = (put_filing fails now id req db).1

unfoldable pub serve_all : List Request → Db → Db
serve_all [] db = db
serve_all (r ∷ rs) db = serve_all rs (serve r db)

abbrev pub empty_db : Db
empty_db = record { filings = []; commands = []; conflicts = [] }
