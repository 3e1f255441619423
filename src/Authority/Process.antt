-- ===== src/Authority/Process.antt =====
-- The provider's process in internal/authority/server.go: the server together with the goroutines that
-- `scheduleCompletion` has started, and the callbacks that they POST.
use dbos_conformance.Common.{ℕ, ℤ, Option, none, some, List, [], ◌∷◌, ◌++◌, get_elem?, set_elem}
use dbos_conformance.Domain.{Callback}
use dbos_conformance.Authority.Ledger.{Submission, Timing, Server, Persist}
use dbos_conformance.Authority.Submit.{SubmitRequest, handle_submit}
use dbos_conformance.Authority.Completion.{
  Stage, sleeping, delivering, finishing, ended, Task, Meets, advance, resume_pending,
}
use dbos_conformance.Authority.Events.{restart}
pub mod Ledgered
pub mod Owed
pub mod Truthful
pub mod Callbacks
pub mod Verdicts
pub mod Attended
pub mod Named
pub mod Opening
pub mod Remembered

pub record Process : Type 0 where
  pub server : Server
  pub tasks : List Task

-- A call of `handleSubmit`, the next step of one of the goroutines, and a restart of the process.
pub data Move : Type 0 where
  called : Persist → ℤ → Option SubmitRequest → Move
  ran : ℕ → Meets → Move
  restarted : Timing → Move

-- `scheduleCompletion`: one more goroutine.
abbrev pub spawn : Option Submission → List Task → List Task
spawn none tasks = tasks
spawn (some sub) tasks = record { id = sub.id; stage = sleeping } ∷ tasks

unfoldable pub run_task : ℕ → Meets → Option Task → Process → Process
unfolding set_elem
run_task i m none s = s
run_task i m (some t) s =
    let (t', server') = advance m t s.server in
    record { server = server'; tasks = set_elem s.tasks i t' }

-- The goroutines do not survive a restart: `NewPersistentServer` starts those of the submissions that
-- are pending in the ledger that it has read.
unfoldable pub moves : Move → Process → Process
unfolding run_task resume_pending
moves (called p now req) s =
    let handled = handle_submit p now req s.server in
    record { server = handled.server; tasks = spawn handled.scheduled s.tasks }
moves (ran i m) s = run_task i m (get_elem? s.tasks i) s
moves (restarted timing) s =
    let server' = restart timing s.server.pool in
    record { server = server'; tasks = resume_pending server'.subs }

unfoldable pub move : List Move → Process → Process
unfolding moves
move [] s = s
move (m ∷ ms) s = move ms (moves m s)

-- The POST that a goroutine's step makes, if any.
abbrev pub posted_by : Stage → List Callback
posted_by sleeping = []
posted_by (delivering url [] attempt delivered) = []
posted_by (delivering url (cb ∷ rest) attempt delivered) = cb ∷ []
posted_by finishing = []
posted_by ended = []

abbrev pub posted_at : Option Task → List Callback
posted_at none = []
posted_at (some t) = posted_by t.stage

unfoldable pub posted : Move → Process → List Callback
posted (called p now req) s = []
posted (ran i m) s = posted_at (get_elem? s.tasks i)
posted (restarted timing) s = []

-- All callbacks that are POSTed on the way, each attempt counted, in order.
unfoldable pub posts : List Move → Process → List Callback
unfolding posted
posts [] s = []
posts (m ∷ ms) s = posted m s ++ posts ms (moves m s)
