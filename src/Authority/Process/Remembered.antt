-- ===== src/Authority/Process/Remembered.antt =====
-- Through calls, goroutine steps and restarts of internal/authority/server.go, what is being processed
-- keeps its goroutine.
use mathlib.Core.List.{Memᴰ}
use dbos_conformance.Common.{
  ℕ, ◌+◌, ℤ, true, not, ◌||◌, Option, none, some, List, [], ◌∷◌, ◌==◌, string_eq, get_elem?,
  set_elem-Mem, ◌≡◌, refl, sym, ap, ◌∙◌, subst, arith, eq_iff, inl, inr, All, Dict, lookup,
  Bool-cases,
}
use dbos_conformance.Authority.Ledger.{
  Submission, Timing, Server, Persist, stored, new_server, new_persistent_server,
}
use dbos_conformance.Authority.Submit.{SubmitRequest, Response, handle_submit}
use dbos_conformance.Authority.Attempt.{Attempt, refused, repeated, recorded}
use dbos_conformance.Authority.Saves.{saved, unsaved}
use dbos_conformance.Authority.Answers.{answered, unnamed, same_subs}
use dbos_conformance.Authority.Completion.{Task, Meets, resume_pending}
use dbos_conformance.Authority.Events.{submits, advances, restarts, happens}
use dbos_conformance.Authority.Keeps.{Keeps}
use dbos_conformance.Authority.Keeps.Events.{happens-Keeps}
use dbos_conformance.Authority.Process.{
  Process, Move, called, ran, restarted, spawn, run_task, moves, move,
}
use dbos_conformance.Authority.Process.Attended.{
  IsPending, sleeper, Attends, put-IsPending, advance-IsPending,
}
use dbos_conformance.Authority.Process.Truthful.{start}
use dbos_conformance.Authority.Process.Named.{Named, under_own_ids, own-MayAdvance}

-- A restart starts a goroutine for each operation that is being processed.
resume_pending-Attends : (subs : Dict Submission) → Named subs → Attends subs (resume_pending subs)
unfolding resume_pending lookup
resume_pending-Attends [] named id pending = ground (arith, pending.known)
resume_pending-Attends ((key, sub) ∷ entries) (own, named) id pending =
    elim (Bool-cases (key == id)) [
      | inl e ↦
          let known : some sub ≡ some pending.sub = rw (e, lookup) at pending.known in
          let test : (sub.status == "processing" || not sub.callback_finished) ≡ true =
            ground (arith, pending.processing, eq_iff sub.status "processing") in
          let same : id ≡ sub.id = sym (own ∙ (eq_iff key id).0 e) in
          rw (test, resume_pending) (Memᴰ.head (ap (λ x. sleeper x) same))
      | inr e ↦
          let rest = resume_pending-Attends entries named id (record {
            sub = pending.sub;
            known = rw (e, lookup) at pending.known;
            processing = pending.processing;
          }) in
          elim (Bool-cases (sub.status == "processing" || not sub.callback_finished)) [
            | inl f ↦ rw (f, resume_pending) (Memᴰ.tail rest)
            | inr f ↦ rw (f, resume_pending) rest
          ]
    ]

-- Every entry stands under its ID, and what is being processed has a goroutine that has yet to complete
-- it.
pub record IsAttended (s : Process) : Type 0 where
  pub named : Keeps under_own_ids s.server
  pub attends : Attends s.server.subs s.tasks

spawn-Mem :
    (t : Task) (scheduled : Option Submission) (tasks : List Task)
    → Memᴰ t tasks
    → Memᴰ t (spawn scheduled tasks)
spawn-Mem t none tasks at = at
spawn-Mem t (some sub) tasks at = Memᴰ.tail at

Attempt-Attends :
    (now : ℤ) (req : SubmitRequest) (s t : Server) (r : Response) (scheduled : Option Submission)
    (tasks : List Task)
    → Attempt now req s t r scheduled
    → Attends s.subs tasks
    → Attends t.subs (spawn scheduled tasks)
Attempt-Attends now req s t r scheduled tasks (refused refusal e f g) attends id pending =
    spawn-Mem (sleeper id) scheduled tasks (attends id (subst (IsPending id) e pending))
Attempt-Attends now req s t r scheduled tasks (repeated old there e f g h i j) attends id pending =
    let again = record old { attempts = old.attempts + 1 } in
    let before =
      put-IsPending id req.submission_id again s.subs
        (λ k is.
          subst (λ x. IsPending x s.subs) k (record { sub = old; known = there; processing = is }))
        (subst (IsPending id) g pending) in
    spawn-Mem (sleeper id) scheduled tasks (attends id before)
Attempt-Attends now req s t r scheduled tasks (recorded sub fresh (inl (e, e', e'')) f g h) attends
      id pending =
    elim (Bool-cases (req.submission_id == id)) [
      | inl k ↦
          let own : id ≡ sub.id =
            sym (ap (λ (x : Submission). x.id) e ∙ (eq_iff req.submission_id id).0 k) in
          rw e' (Memᴰ.head (ap (λ x. sleeper x) own))
      | inr k ↦ spawn-Mem (sleeper id) scheduled tasks (
          attends id (
            put-IsPending id req.submission_id sub s.subs
              (λ same is. absurd (ground (arith, eq_iff req.submission_id id)))
              (subst (IsPending id) f pending)))
    ]
Attempt-Attends now req s t r scheduled tasks (recorded sub fresh (inr (e, e', e'')) f g h) attends
      id pending =
    spawn-Mem (sleeper id) scheduled tasks (
      attends id (
        put-IsPending id req.submission_id sub s.subs
          (λ same is.
            let done : "completed" ≡ "processing" =
              sym (ap (λ (x : Submission). x.status) e) ∙ is in
            absurd (ground (arith, eq_iff "completed" "processing")))
          (subst (IsPending id) f pending)))

called-Attends :
    (p : Persist) (now : ℤ) (req : SubmitRequest) (s : Server) (tasks : List Task)
    → Attends s.subs tasks
    → Attends
        (handle_submit p now (some req) s).server.subs
        (spawn (handle_submit p now (some req) s).scheduled tasks)
called-Attends p now req s tasks attends = elim (Bool-cases (req.submission_id == "")) [
  | inl e ↦ rw (unnamed p now req s e) attends
  | inr e ↦
      let u = handle_submit p now (some req) s in
      let a = answered p now req s e in
      elim a.saves [
        | saved f g k l ↦
            subst (λ m. Attends u.server.subs (spawn m tasks)) (sym k)
              (subst (λ m. Attends m (spawn a.scheduled tasks)) (sym (same_subs a.after u.server g))
                (Attempt-Attends now req s a.after a.response a.scheduled tasks a.attempt attends))
        | unsaved f g k ↦
            subst (λ m. Attends u.server.subs (spawn m tasks)) (sym k)
              (subst (λ m. Attends m tasks) (sym (same_subs s u.server g)) attends)
      ]
]

-- The writes of the goroutines are stored.
abbrev pub Stores : Move → Type 0
Stores (called p now req) = Unit
Stores (ran i m) = m.write ≡ stored
Stores (restarted timing) = Unit

called-IsAttended :
    (p : Persist) (now : ℤ) (req : Option SubmitRequest) (s : Process)
    → IsAttended s
    → IsAttended (moves (called p now req) s)
unfolding moves happens handle_submit
called-IsAttended p now none s attended = record {
  named = attended.named;
  attends = attended.attends;
}
called-IsAttended p now (some req) s attended = record {
  named =
      happens-Keeps under_own_ids (submits p now (some req)) s.server (refl, refl) attended.named;
  attends = called-Attends p now req s.server s.tasks attended.attends;
}

ran-IsAttended :
    (i : ℕ) (m : Meets) (s : Process) (t : Option Task)
    → m.write ≡ stored
    → get_elem? s.tasks i ≡ t
    → IsAttended s
    → IsAttended (run_task i m t s)
unfolding run_task happens
ran-IsAttended i m s none stores at attended = attended
ran-IsAttended i m s (some t) stores at attended = record {
  named =
      happens-Keeps under_own_ids (advances m t) s.server
        (own-MayAdvance t.id t.stage s.server attended.named) attended.named;
  attends = λ id pending.
      let (before, apart) = advance-IsPending t.id m t.stage id s.server stores pending in
      set_elem-Mem (sleeper id) t _ s.tasks i (attended.attends id before) at apart;
}

restarted-IsAttended :
    (timing : Timing) (s : Process) → IsAttended s → IsAttended (moves (restarted timing) s)
unfolding moves happens
restarted-IsAttended timing s attended =
    let named = happens-Keeps under_own_ids (restarts timing) s.server tt attended.named in
    record { named = named; attends = resume_pending-Attends _ named.0 }

pub moves-IsAttended : (m : Move) (s : Process) → Stores m → IsAttended s → IsAttended (moves m s)
unfolding moves
moves-IsAttended (called p now req) s stores attended = called-IsAttended p now req s attended
moves-IsAttended (ran i m) s stores attended =
    ran-IsAttended i m s (get_elem? s.tasks i) stores refl attended
moves-IsAttended (restarted timing) s stores attended = restarted-IsAttended timing s attended

move-IsAttended :
    (ms : List Move) (s : Process) → All Stores ms → IsAttended s → IsAttended (move ms s)
unfolding move
move-IsAttended [] s stores attended = attended
move-IsAttended (m ∷ ms) s stores attended =
    move-IsAttended ms (moves m s) stores.1 (moves-IsAttended m s stores.0 attended)

start-Attends : (timing : Timing) → IsAttended (start timing)
unfolding new_persistent_server new_server lookup
start-Attends timing = record {
  named = (tt, tt);
  attends = λ id pending. ground (arith, pending.known);
}

-- No operation is forgotten. Where a provider that starts on an empty database has all writes of its
-- goroutines stored, then after every sequence of calls, of goroutine steps in any interleaving, and of
-- restarts, whatever its POSTs are answered and whatever becomes of the writes of the calls, each
-- operation that is on record as being processed has a goroutine that is yet to wake and complete it.
pub pending_is_attended :
    (timing : Timing) (ms : List Move)
    → All Stores ms
    → Attends (move ms (start timing)).server.subs (move ms (start timing)).tasks
pending_is_attended timing ms stores =
    (move-IsAttended ms (start timing) stores (start-Attends timing)).attends
