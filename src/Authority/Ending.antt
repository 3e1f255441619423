-- ===== src/Authority/Ending.antt =====
-- How long the goroutine of `scheduleCompletion` of internal/authority/server.go lasts, whatever the
-- answers to its POSTs and the ends of its writes.
use dbos_conformance.Common.{
  ℕ, zero, suc, ◌+◌, ◌-◌, ◌*◌, ◌≤◌, String, Bool, true, false, Option, List, [], ◌∷◌, ◌==◌, ltb,
  string_eq, nat_eq, ◌≡◌, refl, inl, inr, arith, length, lookup, Bool-cases, Option-cases,
}
use dbos_conformance.Domain.{Callback}
use dbos_conformance.Authority.Ledger.{Submission, Server, Persist, persist}
use dbos_conformance.Authority.Completion.{
  Stage, sleeping, delivering, finishing, ended, Task, Meets, advance, wake, deliver, finish,
  callbacks, next_stage, put_sub, completed, after_completion, count_callback, is_delivered,
}

-- The goroutine's steps, one after the other, each numbered by the steps that follow it. Before a step,
-- other calls and goroutines may have changed the server.
unfoldable pub follow : (ℕ → Meets) → (ℕ → Server → Server) → ℕ → Task → Server → Task × Server
unfolding advance
follow meets others zero t s = (t, s)
follow meets others (suc n) t s =
    let (t', s') = advance (meets n) t (others n s) in follow meets others n t' s'

-- The most steps that are left: each callback has ten attempts.
abbrev pub steps_left : Stage → ℕ
steps_left sleeping = 32
steps_left (delivering url [] attempt delivered) = 2
steps_left (delivering url (cb ∷ rest) attempt delivered) = 10 * length rest + (10 - attempt) + 2
steps_left finishing = 1
steps_left ended = 0

pub callbacks_few : (scenario id : String) → length (callbacks scenario id) ≤ 3
unfolding callbacks
callbacks_few scenario id = ground arith

next_few :
    (url : String) (cbs : List Callback) (delivered : Bool)
    → steps_left (next_stage url cbs delivered) ≤ 10 * length cbs + 1
next_few url [] true = omega arith
next_few url [] false = omega arith
next_few url (cb ∷ rest) delivered = omega arith

after_few :
    (id : String) (sub : Submission) (s : Server)
    → steps_left (after_completion id sub s).0.stage ≤ 31
after_few id sub s =
    let few = callbacks_few sub.scenario id in
    let next = next_few sub.callback_url (callbacks sub.scenario id) true in
    elim (Bool-cases sub.callback_finished) [
      | inl e ↦ rw e (omega arith)
      | inr e ↦ rw e (omega arith)
    ]

wake_few : (p : Persist) (id : String) (s : Server) → steps_left (wake p id s).0.stage ≤ 31
unfolding wake
wake_few p id s = elim (Option-cases (lookup id s.subs)) [
  | inl e ↦ rw (e, wake) (omega arith)
  | inr (sub, e) ↦ elim (Bool-cases (sub.status == "processing")) [
    | inl k ↦ elim (Bool-cases (persist p (put_sub (completed sub) s id)).0) [
      | inl f ↦ rw (e, k, wake, f) (after_few id (completed sub) _)
      | inr f ↦ rw (e, k, wake, f) (omega arith)
    ]
    | inr k ↦ rw (e, k, wake) (after_few id sub s)
  ]
]

finish_ends : (p : Persist) (id : String) (s : Server) → (finish p id s).0.stage ≡ ended
unfolding finish
finish_ends p id s = elim (Option-cases (lookup id s.subs)) [
  | inl e ↦ rw (e, finish) refl
  | inr (sub, e) ↦
      elim (Bool-cases (persist p (put_sub (record sub { callback_finished = true }) s id)).0) [
        | inl f ↦ rw (e, finish, f) refl
        | inr f ↦ rw (e, finish, f) refl
      ]
]

deliver_few :
    (code : Option ℕ) (p : Persist) (id url : String) (cb : Callback) (rest : List Callback)
    (attempt : ℕ) (delivered : Bool) (s : Server)
    → steps_left (deliver code p id url cb rest attempt delivered s).0.stage + 1
      ≤ 10 * length rest + (10 - attempt) + 2
unfolding deliver
deliver_few code p id url cb rest attempt delivered s =
    let next = next_few url rest delivered in
    let next' = next_few url rest false in
    elim (Bool-cases (is_delivered code)) [
      | inl e ↦ elim (Bool-cases (persist p (count_callback s)).0) [
        | inl f ↦ rw (e, deliver, f) (omega arith)
        | inr f ↦ rw (e, deliver, f) (omega arith)
      ]
      | inr e ↦ elim (Bool-cases (ltb attempt 10)) [
        | inl f ↦ rw (e, deliver, f) (ground arith)
        | inr f ↦ rw (e, deliver, f) (omega arith)
      ]
    ]

advance_lowers :
    (m : Meets) (id : String) (stage : Stage) (s : Server)
    → steps_left (advance m (record { id = id; stage = stage }) s).0.stage ≤ steps_left stage - 1
unfolding advance
advance_lowers m id sleeping s = wake_few m.write id s
advance_lowers m id (delivering url [] attempt true) s = omega arith
advance_lowers m id (delivering url [] attempt false) s = omega arith
advance_lowers m id (delivering url (cb ∷ rest) attempt delivered) s =
    let h = deliver_few m.code m.write id url cb rest attempt delivered s in omega arith
advance_lowers m id finishing s = let h = finish_ends m.write id s in rw h (omega arith)
advance_lowers m id ended s = omega arith

none_left : (stage : Stage) → steps_left stage ≤ 0 → stage ≡ ended
none_left sleeping h = absurd (omega arith)
none_left (delivering url [] attempt delivered) h = absurd (omega arith)
none_left (delivering url (cb ∷ rest) attempt delivered) h = absurd (omega arith)
none_left finishing h = absurd (omega arith)
none_left ended h = refl

follow_ends :
    (meets : ℕ → Meets) (others : ℕ → Server → Server) (n : ℕ) (t : Task) (s : Server)
    → steps_left t.stage ≤ n
    → (follow meets others n t s).0.stage ≡ ended
unfolding follow
follow_ends meets others zero t s h = none_left t.stage h
follow_ends meets others (suc n) t s h =
    let once = advance_lowers (meets n) t.id t.stage (others n s) in
    follow_ends meets others n (advance (meets n) t (others n s)).0
      (advance (meets n) t (others n s)).1 (omega arith)

-- The completion of a submission ends: a goroutine that begins is over after 32 steps, whatever its
-- POSTs are answered, its writes end with and other calls do to the server between its steps.
pub completion_ends :
    (meets : ℕ → Meets) (others : ℕ → Server → Server) (id : String) (s : Server)
    → (follow meets others 32 (record { id = id; stage = sleeping }) s).0.stage ≡ ended
completion_ends meets others id s =
    follow_ends meets others 32 (record { id = id; stage = sleeping }) s (omega arith)
