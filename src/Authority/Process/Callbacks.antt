-- ===== src/Authority/Process/Callbacks.antt =====
-- The callbacks of internal/authority/server.go tell what is on record.
use dbos_conformance.Common.{
  String, List, [], ◌∷◌, get_elem?, get_elem-All, All, All-append, All-map, Dict, Option-cases, inl,
  inr, string_eq,
}
use dbos_conformance.Domain.{Callback}
use dbos_conformance.Authority.Ledger.{Submission, Timing}
use dbos_conformance.Authority.Completion.{Stage, sleeping, delivering, finishing, ended}
use dbos_conformance.Authority.Grows.{Grows}
use dbos_conformance.Authority.Process.{
  Process, Move, called, ran, restarted, moves, move, posted, posts, posted_by,
}
use dbos_conformance.Authority.Process.Owed.{IsOnRecord, Grows-IsOnRecord, Owes}
use dbos_conformance.Authority.Process.Truthful.{
  HasTask, IsTruthful, moves-IsTruthful, move-Grows, start, start-IsTruthful,
}

-- The callback tells the outcome that is on record.
abbrev pub Tells : Dict Submission → Callback → Type 0
Tells subs cb = IsOnRecord cb.submission_id cb.outcome subs

Grows-Tells :
    (a b : Dict Submission) (cbs : List Callback)
    → Grows a b
    → All (Tells a) cbs
    → All (Tells b) cbs
Grows-Tells a b cbs grows told =
    All-map (Tells a) (Tells b) cbs (λ cb. Grows-IsOnRecord cb.submission_id cb.outcome a b grows)
      told

stage-Tells :
    (id : String) (stage : Stage) (subs : Dict Submission)
    → Owes id stage subs
    → All (Tells subs) (posted_by stage)
stage-Tells id sleeping subs owes = tt
stage-Tells id (delivering url [] attempt delivered) subs owes = tt
stage-Tells id (delivering url (cb ∷ rest) attempt delivered) subs (on, ((named, outcome), all)) =
    (rw (named, outcome) on, tt)
stage-Tells id finishing subs owes = tt
stage-Tells id ended subs owes = tt

posted-Tells : (m : Move) (s : Process) → IsTruthful s → All (Tells s.server.subs) (posted m s)
unfolding posted
posted-Tells (called p now req) s truthful = tt
posted-Tells (ran i m) s truthful = elim (Option-cases (get_elem? s.tasks i)) [
  | inl e ↦ rw e tt
  | inr (t, e) ↦ rw e (
      stage-Tells t.id t.stage s.server.subs
        (get_elem-All (HasTask s.server.subs) s.tasks i t e truthful.tasks))
]
posted-Tells (restarted timing) s truthful = tt

pub posts-Tells :
    (ms : List Move) (s : Process) → IsTruthful s → All (Tells (move ms s).server.subs) (posts ms s)
unfolding move posts
posts-Tells [] s truthful = tt
posts-Tells (m ∷ ms) s truthful =
    let last = (move (m ∷ ms) s).server.subs in
    All-append (Tells last) (posted m s) (posts ms (moves m s))
      (Grows-Tells s.server.subs last (posted m s) (move-Grows (m ∷ ms) s truthful)
        (posted-Tells m s truthful))
      (posts-Tells ms (moves m s) (moves-IsTruthful m s truthful))

-- A provider that starts on an empty database never sends a false callback: after every sequence of
-- calls, of steps of its goroutines in any interleaving, and of restarts, whatever its POSTs are
-- answered and whatever becomes of its writes, each callback that was POSTed on the way names an
-- operation that is on record as completed with the callback's outcome.
pub callbacks_tell_the_record :
    (timing : Timing) (ms : List Move)
    → All (Tells (move ms (start timing)).server.subs) (posts ms (start timing))
callbacks_tell_the_record timing ms = posts-Tells ms (start timing) (start-IsTruthful timing)
