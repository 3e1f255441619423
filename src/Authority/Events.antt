-- ===== src/Authority/Events.antt =====
-- What changes the server of internal/authority/server.go, as one type: calls of `handleSubmit`, the
-- steps of the goroutines that `scheduleCompletion` starts, and restarts of the process.
use dbos_conformance.Common.{ℤ, Option, none, some, List, [], ◌∷◌}
use dbos_conformance.Authority.Ledger.{
  Timing, PersistentState, Server, Persist, new_server, new_persistent_server,
}
use dbos_conformance.Authority.Submit.{SubmitRequest, handle_submit}
use dbos_conformance.Authority.Completion.{Task, Meets, advance}

pub data Event : Type 0 where
  submits : Persist → ℤ → Option SubmitRequest → Event
  advances : Meets → Task → Event
  restarts : Timing → Event

-- NewPersistentServer reads the row back; without a database NewServer starts empty.
abbrev pub restart : Timing → Option (Option PersistentState) → Server
restart timing none = new_server timing
restart timing (some row) = new_persistent_server timing row

unfoldable pub happens : Event → Server → Server
happens (submits p now req) s = (handle_submit p now req s).server
happens (advances m t) s = (advance m t s).1
happens (restarts timing) s = restart timing s.pool

unfoldable pub happen : List Event → Server → Server
happen [] s = s
happen (e ∷ es) s = happen es (happens e s)
