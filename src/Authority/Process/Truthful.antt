-- ===== src/Authority/Process/Truthful.antt =====
-- The invariant of the provider's process in internal/authority/server.go.
use dbos_conformance.Common.{
  ℕ, String, ℤ, Option, none, some, List, [], ◌∷◌, get_elem?, get_elem-All, set_elem-All, ◌≡◌, refl,
  subst, All, All-map, Dict, inl, inr, ◌==◌, string_eq, not, ◌||◌, Bool-cases,
}
use dbos_conformance.Authority.Ledger.{
  Submission, Timing, Server, Persist, new_server, new_persistent_server,
}
use dbos_conformance.Authority.Submit.{SubmitRequest, handle_submit}
use dbos_conformance.Authority.Completion.{
  Stage, sleeping, delivering, finishing, ended, Task, Meets, resume_pending,
}
use dbos_conformance.Authority.Events.{submits, advances, restarts, happens, restart}
use dbos_conformance.Authority.Sound.{IsSound}
use dbos_conformance.Authority.Grows.{Grows, Grows-refl, Grows-trans}
use dbos_conformance.Authority.Durability.{happens-Carried, start-IsSound}
use dbos_conformance.Authority.Keeps.{Keeps, MayAdvance}
use dbos_conformance.Authority.Keeps.Events.{happens-Keeps}
use dbos_conformance.Authority.Process.{
  Process, Move, called, ran, restarted, spawn, run_task, moves, move,
}
use dbos_conformance.Authority.Process.Ledgered.{pending, accepted, rejected, legitimate}
use dbos_conformance.Authority.Process.Owed.{Owes, Grows-Owes, advance-Owes}

abbrev pub HasTask : Dict Submission → Task → Type 0
HasTask subs t = Owes t.id t.stage subs

-- The ledger and its row have legitimate entries only, what is recorded is safe against restarts, and
-- each goroutine owes its callbacks to an accepted operation.
pub record IsTruthful (s : Process) : Type 0 where
  pub sound : IsSound s.server
  pub legit : Keeps legitimate s.server
  pub tasks : All (HasTask s.server.subs) s.tasks

Grows-tasks :
    (a b : Dict Submission) (tasks : List Task)
    → Grows a b
    → All (HasTask a) tasks
    → All (HasTask b) tasks
Grows-tasks a b tasks grows owed =
    All-map (HasTask a) (HasTask b) tasks (λ t. Grows-Owes t.id t.stage a b grows) owed

spawn-tasks :
    (subs : Dict Submission) (scheduled : Option Submission) (tasks : List Task)
    → All (HasTask subs) tasks
    → All (HasTask subs) (spawn scheduled tasks)
spawn-tasks subs none tasks owed = owed
spawn-tasks subs (some sub) tasks owed = (tt, owed)

resumed-tasks : (subs entries : Dict Submission) → All (HasTask subs) (resume_pending entries)
unfolding resume_pending
resumed-tasks subs [] = tt
resumed-tasks subs ((key, sub) ∷ entries) =
    let rest = resumed-tasks subs entries in
    elim (Bool-cases (sub.status == "processing" || not sub.callback_finished)) [
      | inl e ↦ rw (e, resume_pending) (tt, rest)
      | inr e ↦ rw (e, resume_pending) rest
    ]

-- A goroutine takes off the mark of an accepted operation only.
owed-MayAdvance :
    (id : String) (stage : Stage) (s : Server)
    → Owes id stage s.subs
    → MayAdvance legitimate id stage s
owed-MayAdvance id sleeping s owes = tt
owed-MayAdvance id (delivering url cbs attempt delivered) s owes = tt
owed-MayAdvance id finishing s on = λ sub there.
    let same : on.sub ≡ sub = cc (on.known, there) in
    accepted (subst (λ x. x.status ≡ "completed") same on.done)
      (subst (λ x. x.outcome ≡ "accepted") same on.same)
owed-MayAdvance id ended s owes = tt

called-IsTruthful :
    (p : Persist) (now : ℤ) (req : Option SubmitRequest) (s : Process)
    → IsTruthful s
    → IsTruthful (moves (called p now req) s)
unfolding moves happens
called-IsTruthful p now req s truthful =
    let carried = happens-Carried (submits p now req) s.server truthful.sound in
    record {
      sound = carried.sound;
      legit = by_request req;
      tasks =
          spawn-tasks _ (handle_submit p now req s.server).scheduled s.tasks
            (Grows-tasks _ _ s.tasks carried.grown truthful.tasks);
    }
  where
    by_request :
        (body : Option SubmitRequest) → Keeps legitimate (happens (submits p now body) s.server)
    by_request none = happens-Keeps legitimate (submits p now none) s.server tt truthful.legit
    by_request (some r) =
        happens-Keeps legitimate (submits p now (some r)) s.server
          (pending refl, rejected refl refl refl) truthful.legit

ran-IsTruthful :
    (i : ℕ) (m : Meets) (s : Process) (t : Option Task)
    → get_elem? s.tasks i ≡ t
    → IsTruthful s
    → IsTruthful (run_task i m t s)
unfolding run_task happens
ran-IsTruthful i m s none at truthful = truthful
ran-IsTruthful i m s (some t) at truthful =
    let owes = get_elem-All (HasTask s.server.subs) s.tasks i t at truthful.tasks in
    let may = owed-MayAdvance t.id t.stage s.server owes in
    let carried = happens-Carried (advances m t) s.server truthful.sound in
    record {
      sound = carried.sound;
      legit = happens-Keeps legitimate (advances m t) s.server may truthful.legit;
      tasks =
          set_elem-All _ s.tasks i _ (advance-Owes t.id m t.stage s.server truthful.legit.0 owes)
            (Grows-tasks _ _ s.tasks carried.grown truthful.tasks);
    }

restarted-IsTruthful :
    (timing : Timing) (s : Process) → IsTruthful s → IsTruthful (moves (restarted timing) s)
unfolding moves happens
restarted-IsTruthful timing s truthful = record {
  sound = (happens-Carried (restarts timing) s.server truthful.sound).sound;
  legit = happens-Keeps legitimate (restarts timing) s.server tt truthful.legit;
  tasks = resumed-tasks _ (restart timing s.server.pool).subs;
}

pub moves-IsTruthful : (m : Move) (s : Process) → IsTruthful s → IsTruthful (moves m s)
unfolding moves
moves-IsTruthful (called p now req) s truthful = called-IsTruthful p now req s truthful
moves-IsTruthful (ran i m) s truthful = ran-IsTruthful i m s (get_elem? s.tasks i) refl truthful
moves-IsTruthful (restarted timing) s truthful = restarted-IsTruthful timing s truthful

run_task-Grows :
    (i : ℕ) (m : Meets) (s : Process) (t : Option Task)
    → IsSound s.server
    → Grows s.server.subs (run_task i m t s).server.subs
unfolding run_task happens
run_task-Grows i m s none sound = Grows-refl s.server.subs
run_task-Grows i m s (some t) sound = (happens-Carried (advances m t) s.server sound).grown

moves-Grows :
    (m : Move) (s : Process) → IsSound s.server → Grows s.server.subs (moves m s).server.subs
unfolding moves happens
moves-Grows (called p now req) s sound = (happens-Carried (submits p now req) s.server sound).grown
moves-Grows (ran i m) s sound = run_task-Grows i m s (get_elem? s.tasks i) sound
moves-Grows (restarted timing) s sound = (happens-Carried (restarts timing) s.server sound).grown

pub move-Grows :
    (ms : List Move) (s : Process) → IsTruthful s → Grows s.server.subs (move ms s).server.subs
unfolding move
move-Grows [] s truthful = Grows-refl s.server.subs
move-Grows (m ∷ ms) s truthful =
    Grows-trans s.server.subs (moves m s).server.subs _ (moves-Grows m s truthful.sound)
      (move-Grows ms (moves m s) (moves-IsTruthful m s truthful))

-- The process as it starts on an empty database.
abbrev pub start : Timing → Process
start timing = record { server = new_persistent_server timing none; tasks = [] }

pub start-IsTruthful : (timing : Timing) → IsTruthful (start timing)
unfolding new_persistent_server new_server
start-IsTruthful timing = record { sound = start-IsSound timing; legit = (tt, tt); tasks = tt }
