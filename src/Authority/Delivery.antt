-- ===== src/Authority/Delivery.antt =====
-- What the goroutine of `scheduleCompletion` of internal/authority/server.go achieves when the worker
-- takes its callbacks and the database its writes.
use Prim.Native.String as Text
use dbos_conformance.Common.{
  eq_iff, ◌≢◌, ◌⊎◌, ℕ, ◌+◌, String, true, false, some, List, [], ◌∷◌, ◌==◌, string_eq, ◌≡◌, refl,
  inl, inr, arith, length, lookup, Bool-cases,
}
use dbos_conformance.Domain.{Callback, scenario_no_callback_done, scenario_dup_callback}
use dbos_conformance.Authority.Ledger.{Submission, Server}
use dbos_conformance.Authority.Completion.{sleeping, Meets, callbacks, completed}
use dbos_conformance.Authority.Ending.{follow}
use dbos_conformance.Authority.Posting.{GoesWell, posts_along, completes, goes_on}

-- What the provider tells of an operation that it has accepted.
abbrev pub acceptance : String → String → Callback
acceptance id suffix = record {
  callback_id = Text.◌++◌ id suffix;
  submission_id = id;
  outcome = "accepted";
  detail = "";
}

-- The callbacks that a scenario asks for: none, the first one twice with a second one, or one.
pub data Due (id scenario : String) (posts : List Callback) : Type 0 where
  silent : scenario ≡ "no_callback_done" → posts ≡ [] → Due id scenario posts
  repeated :
      scenario ≡ "dup_callback"
      → posts ≡ acceptance id "-cb1" ∷ acceptance id "-cb1" ∷ acceptance id "-cb2" ∷ []
      → Due id scenario posts
  single :
      scenario ≢ "no_callback_done"
      → scenario ≢ "dup_callback"
      → posts ≡ acceptance id "-cb1" ∷ []
      → Due id scenario posts

-- An operation that was processing is completed as accepted, and any other keeps its status and outcome;
-- its callbacks are marked as finished, and nothing else of it has changed.
abbrev pub Settles : Submission → Submission → Type 0
Settles before after =
    ((before.status ≡ "processing")
      × (after
          ≡ record before { status = "completed"; outcome = "accepted"; callback_finished = true }))
    ⊎ ((before.status ≢ "processing") × (after ≡ record before { callback_finished = true }))

-- The operation is settled, the callbacks of its scenario are POSTed, each once and in order, and the
-- metric counts them.
pub record IsDelivered (id : String) (before : Submission) (counted : ℕ) (posts : List Callback)
    (s : Server) : Type 0 where
  pub sub : Submission
  pub known : lookup id s.subs ≡ some sub
  pub settled : Settles before sub
  pub due : Due id before.scenario posts
  pub metric : s.metrics.callbacks_sent ≡ counted + length posts

callbacks-Due : (id scenario : String) → Due id scenario (callbacks scenario id)
unfolding callbacks
callbacks-Due id scenario = elim (Bool-cases (scenario == scenario_no_callback_done)) [
  | inl e ↦ silent (ground (arith, eq_iff scenario "no_callback_done")) (rw (e, callbacks) refl)
  | inr e ↦ elim (Bool-cases (scenario == scenario_dup_callback)) [
    | inl k ↦ repeated (ground (arith, eq_iff scenario "dup_callback")) (rw (e, k, callbacks) refl)
    | inr k ↦
        single (ground (arith, eq_iff scenario "no_callback_done"))
          (ground (arith, eq_iff scenario "dup_callback")) (rw (e, k, callbacks) refl)
  ]
]

-- When every POST is answered below 300, every write is stored and no other call comes in between, the
-- goroutine of a known operation whose callbacks are due settles it and tells of it. An operation that was
-- processing is completed as accepted, any other keeps its status and outcome, and its callbacks are
-- marked as finished. The goroutine POSTs nothing in the scenario no_callback_done, its first callback
-- twice and its second once in the scenario dup_callback, and its first callback once in any other; all
-- say that the operation is accepted, and the metric counts them.
pub completion_delivers :
    (meets : ℕ → Meets) (id : String) (sub : Submission) (s : Server)
    → ((n : ℕ) → GoesWell (meets n))
    → lookup id s.subs ≡ some sub
    → sub.callback_finished ≡ false
    → IsDelivered id sub s.metrics.callbacks_sent
        (posts_along meets 32 (record { id = id; stage = sleeping }) s)
        (follow meets (λ n t. t) 32 (record { id = id; stage = sleeping }) s).1
completion_delivers meets id sub s well known due = elim (Bool-cases (sub.status == "processing")) [
  | inl e ↦
      let (left, posted, counted) = completes meets well id 31 sub s e due known (omega arith) in
      record {
        sub = record (completed sub) { callback_finished = true };
        known = left;
        settled = inl ((eq_iff sub.status "processing").0 e, refl);
        due = rw posted (callbacks-Due id sub.scenario);
        metric = rw posted counted;
      }
  | inr e ↦
      let (left, posted, counted) = goes_on meets well id 31 sub s e due known (omega arith) in
      record {
        sub = record sub { callback_finished = true };
        known = left;
        settled = inr (ground (arith, eq_iff sub.status "processing"), refl);
        due = rw posted (callbacks-Due id sub.scenario);
        metric = rw posted counted;
      }
]
