-- ===== src/Authority/Posting.antt =====
-- The steps of the goroutine of `scheduleCompletion` of internal/authority/server.go when the worker
-- takes its callbacks and the database its writes: what they POST and what they leave.
use dbos_conformance.Common.{
  ◌++◌, ap, ◌∙◌, ℕ, zero, suc, ◌+◌, ◌≤◌, String, Bool, true, false, some, List, [], ◌∷◌, ◌==◌,
  string_eq, ◌≡◌, refl, inl, inr, arith, eq_refl, length, lookup, lookup-insert, Option-cases,
}
use dbos_conformance.Domain.{Callback}
use dbos_conformance.Authority.Ledger.{Submission, Server, Persist, stored, persist}
use dbos_conformance.Authority.Completion.{
  sleeping, delivering, finishing, ended, Task, Meets, advance, wake, deliver, finish, callbacks,
  next_stage, put_sub, completed, after_completion, count_callback, is_delivered,
}
use dbos_conformance.Authority.Process.{posted_by}
use dbos_conformance.Authority.Ending.{follow, callbacks_few}

-- The worker answers the POST below 300, and the write is stored.
abbrev pub GoesWell : Meets → Type 0
GoesWell m = (is_delivered m.code ≡ true) × (m.write ≡ stored)

-- The callbacks that the goroutine POSTs in these steps, each attempt counted, in order, when nothing
-- else comes in between.
unfoldable pub posts_along : (ℕ → Meets) → ℕ → Task → Server → List Callback
unfolding advance
posts_along meets zero t s = []
posts_along meets (suc n) t s =
    let (t', s') = advance (meets n) t s in posted_by t.stage ++ posts_along meets n t' s'

record Kept (t : Server) (result : Bool × Server) : Type 0 where
  saved : result.0 ≡ true
  subs : result.1.subs ≡ t.subs
  metrics : result.1.metrics ≡ t.metrics

stored-Kept : (p : Persist) (t : Server) → p ≡ stored → Kept t (persist p t)
unfolding persist
stored-Kept p t e = elim (Option-cases t.pool) [
  | inl h ↦ record {
    saved = rw (h, persist) refl;
    subs = rw (h, persist) refl;
    metrics = rw (h, persist) refl;
  }
  | inr (row, h) ↦ record {
    saved = rw (h, persist, e) refl;
    subs = rw (h, persist, e) refl;
    metrics = rw (h, persist, e) refl;
  }
]

-- What the steps come to: the callbacks that they POST, the submission that they leave, and the metric.
abbrev pub Comes : String → Submission → List Callback → ℕ → List Callback → Server → Type 0
Comes id sub cbs count posts s =
    (lookup id s.subs ≡ some (record sub { callback_finished = true }))
    × (posts ≡ cbs)
    × (s.metrics.callbacks_sent ≡ count)

module _ (meets : ℕ → Meets) (well : (n : ℕ) → GoesWell (meets n)) (id : String) where
  abbrev pub alone : ℕ → Task → Server → Task × Server
  alone = follow meets (λ n s. s)

  abbrev pub posts : ℕ → Task → Server → List Callback
  posts = posts_along meets

  abbrev pub ComesTo : Submission → List Callback → ℕ → ℕ → Task → Server → Type 0
  ComesTo sub cbs count n t s = Comes id sub cbs count (posts n t s) (alone n t s).1

  stays_ended : (n : ℕ) (s : Server) → (alone n (record { id = id; stage = ended }) s).1 ≡ s
  unfolding follow
  stays_ended zero s = refl
  stays_ended (suc n) s = stays_ended n s

  posts_nothing : (n : ℕ) (s : Server) → posts n (record { id = id; stage = ended }) s ≡ []
  unfolding posts_along
  posts_nothing zero s = refl
  posts_nothing (suc n) s = posts_nothing n s

  finishes :
      (n : ℕ) (sub : Submission) (s : Server)
      → lookup id s.subs ≡ some sub
      → ComesTo sub [] s.metrics.callbacks_sent (suc n) (record { id = id; stage = finishing }) s
  unfolding follow posts_along finish
  finishes n sub s known =
      let (answered, is_stored) = well n in
      let marked = record sub { callback_finished = true } in
      let k = stored-Kept (meets n).write (put_sub marked s id) is_stored in
      let s' = (persist (meets n).write (put_sub marked s id)).1 in
      let last : alone (suc n) (record { id = id; stage = finishing }) s
          ≡ alone n (record { id = id; stage = ended }) s' =
        rw (known, follow, finish, k.saved) refl in
      let quiet : posts (suc n) (record { id = id; stage = finishing }) s
          ≡ posts n (record { id = id; stage = ended }) s' =
        rw (known, posts_along, finish, k.saved) refl in
      rw (last, quiet, stays_ended n s', posts_nothing n s')
        (rw (k.subs, lookup-insert id id marked s.subs, eq_refl id) refl, refl, rw k.metrics refl)

  delivers :
      (url : String) (cbs : List Callback) (n : ℕ) (sub : Submission) (s : Server)
      → lookup id s.subs ≡ some sub
      → length cbs + 1 ≤ n
      → ComesTo sub cbs
          (s.metrics.callbacks_sent + length cbs)
          n
          (record { id = id; stage = next_stage url cbs true })
          s
  unfolding follow posts_along deliver
  delivers url cbs zero sub s known h = absurd (omega arith)
  delivers url [] (suc n) sub s known h =
      let e : s.metrics.callbacks_sent + 0 ≡ s.metrics.callbacks_sent = omega arith in
      rw e (finishes n sub s known)
  delivers url (cb ∷ rest) (suc n) sub s known h =
      let (answered, is_stored) = well n in
      let k = stored-Kept (meets n).write (count_callback s) is_stored in
      let s' = (persist (meets n).write (count_callback s)).1 in
      let next : Task = record { id = id; stage = next_stage url rest true } in
      let step : alone (suc n) (record { id = id; stage = delivering url (cb ∷ rest) 1 true }) s
          ≡ alone n next s' =
        rw (answered, follow, deliver, k.saved) refl in
      let post : posts (suc n) (record { id = id; stage = delivering url (cb ∷ rest) 1 true }) s
          ≡ cb ∷ posts n next s' =
        rw (answered, posts_along, deliver, k.saved) refl in
      let (left, posted, counted) = delivers url rest n sub s' (rw k.subs known) (omega arith) in
      let sent : s'.metrics.callbacks_sent + length rest
          ≡ s.metrics.callbacks_sent + length (cb ∷ rest) =
        rw k.metrics (omega arith) in
      rw (step, post) (left, ap (λ l. cb ∷ l) posted, counted ∙ sent)

  after_delivers :
      (n : ℕ) (sub : Submission) (s : Server)
      → sub.callback_finished ≡ false
      → lookup id s.subs ≡ some sub
      → 4 ≤ n
      → ComesTo sub
          (callbacks sub.scenario id)
          (s.metrics.callbacks_sent + length (callbacks sub.scenario id))
          n
          (after_completion id sub s).0
          (after_completion id sub s).1
  after_delivers n sub s due known h =
      let few = callbacks_few sub.scenario id in
      rw due (delivers sub.callback_url (callbacks sub.scenario id) n sub s known (omega arith))

  abbrev pub begins : Task
  begins = record { id = id; stage = sleeping }

  -- The completion of a submission that is processing.
  pub completes :
      (n : ℕ) (sub : Submission) (s : Server)
      → (sub.status == "processing") ≡ true
      → sub.callback_finished ≡ false
      → lookup id s.subs ≡ some sub
      → 4 ≤ n
      → ComesTo
          (completed sub)
          (callbacks sub.scenario id)
          (s.metrics.callbacks_sent + length (callbacks sub.scenario id))
          (suc n)
          begins
          s
  unfolding follow posts_along wake
  completes n sub s e due known h =
      let (answered, is_stored) = well n in
      let s' = (persist (meets n).write (put_sub (completed sub) s id)).1 in
      let k = stored-Kept (meets n).write (put_sub (completed sub) s id) is_stored in
      let next = after_completion id (completed sub) s' in
      let step : alone (suc n) begins s ≡ alone n next.0 next.1 =
        rw (known, e, follow, wake, k.saved) refl in
      let quiet : posts (suc n) begins s ≡ posts n next.0 next.1 =
        rw (known, e, posts_along, wake, k.saved) refl in
      let there : lookup id s'.subs ≡ some (completed sub) =
        rw (k.subs, lookup-insert id id (completed sub) s.subs, eq_refl id) refl in
      let (left, posted, counted) = after_delivers n (completed sub) s' due there h in
      rw (step, quiet)
        (
          left,
          posted,
          counted ∙ ap (λ m. m.callbacks_sent + length (callbacks sub.scenario id)) k.metrics,
        )

  -- A submission that is not processing any more.
  pub goes_on :
      (n : ℕ) (sub : Submission) (s : Server)
      → (sub.status == "processing") ≡ false
      → sub.callback_finished ≡ false
      → lookup id s.subs ≡ some sub
      → 4 ≤ n
      → ComesTo sub
          (callbacks sub.scenario id)
          (s.metrics.callbacks_sent + length (callbacks sub.scenario id))
          (suc n)
          begins
          s
  unfolding follow posts_along wake
  goes_on n sub s e due known h =
      let next = after_completion id sub s in
      let step : alone (suc n) begins s ≡ alone n next.0 next.1 =
        rw (known, e, follow, wake) refl in
      let quiet : posts (suc n) begins s ≡ posts n next.0 next.1 =
        rw (known, e, posts_along, wake) refl in
      rw (step, quiet) (after_delivers n sub s due known h)
