-- ===== src/Authority/Answers.antt =====
-- What a caller of `handleSubmit` of internal/authority/server.go may conclude from its answer.
use dbos_conformance.Common.{
  ℤ, true, false, Option, none, some, ◌==◌, string_eq, ◌≡◌, ◌≢◌, refl, sym, ◌∙◌, ap, subst, inl,
  inr, arith, Bool-cases,
}
use dbos_conformance.Authority.Ledger.{
  Submission, PersistentState, Server, snapshot, Persist, unless_nil,
}
use dbos_conformance.Authority.Submit.{SubmitRequest, Response, Handled, handle_submit, http_error}
use dbos_conformance.Authority.Attempt.{
  conflict, throttled, no_effect, timed_out, Attempt, refused, repeated, recorded,
  handle_submit-Tries,
}
use dbos_conformance.Authority.Saves.{Saves, saved, unsaved, save_then-Saves}

-- The attempt that a call makes, and what its write made of it.
pub record Answered (now : ℤ) (req : SubmitRequest) (s : Server) (h : Handled) : Type 0 where
  pub after : Server
  pub response : Response
  pub scheduled : Option Submission
  pub attempt : Attempt now req s after response scheduled
  pub same_pool : after.pool ≡ s.pool
  pub saves : Saves s after response scheduled h

pub answered :
    (p : Persist) (now : ℤ) (req : SubmitRequest) (s : Server)
    → (req.submission_id == "") ≡ false
    → Answered now req s (handle_submit p now (some req) s)
answered p now req s named =
    let tries = handle_submit-Tries p now req s named in
    record {
      after = tries.after;
      response = tries.response;
      scheduled = tries.scheduled;
      attempt = tries.attempt;
      same_pool = tries.same_pool;
      saves =
          subst (λ h. Saves s tries.after tries.response tries.scheduled h) (sym tries.handled)
            (save_then-Saves p s tries.after tries.response tries.scheduled _ refl);
    }

-- A call without an identity is refused before anything else.
pub unnamed :
    (p : Persist) (now : ℤ) (req : SubmitRequest) (s : Server)
    → (req.submission_id == "") ≡ true
    → handle_submit p now (some req) s
      ≡ record { response = http_error 400; server = s; scheduled = none }
unfolding handle_submit
unnamed p now req s e = rw (e, handle_submit) refl

-- What `s` and `u` hold in memory is the same.
pub same_subs : (s u : Server) → snapshot u ≡ snapshot s → u.subs ≡ s.subs
same_subs s u e = ap (λ x. unless_nil x.submissions s.subs) e

pub same_count :
    (s u : Server) → snapshot u ≡ snapshot s → u.metrics.submissions ≡ s.metrics.submissions
same_count s u e = ap (λ x. x.metrics.submissions) e

Attempt-code :
    (now : ℤ) (req : SubmitRequest) (s t : Server) (r : Response) (scheduled : Option Submission)
    → Attempt now req s t r scheduled
    → r.code ≢ 500
Attempt-code now req s t r scheduled (refused (conflict e _) f g h) = λ k. omega arith
Attempt-code now req s t r scheduled (refused (throttled e _) f g h) = λ k. omega arith
Attempt-code now req s t r scheduled (refused (no_effect e e' _) f g h) = λ k. omega arith
Attempt-code now req s t r scheduled (refused (timed_out e _) f g h) = λ k. omega arith
Attempt-code now req s t r scheduled (repeated old known e f g h i j) =
    λ k. ground (arith, ap (λ x. x.code) i)
Attempt-code now req s t r scheduled (recorded sub fresh e f g h) = λ k. omega arith

-- A call of `handleSubmit` that is answered with 500 leaves no trace in memory (its submissions, its
-- attempt counters and its metrics are those of before, even if the database stored the write) and
-- schedules no completion.
pub server_error_rolls_back :
    (p : Persist) (now : ℤ) (req : SubmitRequest) (s : Server)
    → (handle_submit p now (some req) s).response.code ≡ 500
    → (snapshot (handle_submit p now (some req) s).server ≡ snapshot s)
      × ((handle_submit p now (some req) s).scheduled ≡ none)
server_error_rolls_back p now req s h = elim (Bool-cases (req.submission_id == "")) [
  | inl e ↦ rw (unnamed p now req s e) (refl, refl)
  | inr e ↦
      let a = answered p now req s e in
      elim a.saves [
        | saved f g k l ↦
            let code : a.response.code ≡ 500 = sym (ap (λ x. x.code) f) ∙ h in
            let no = Attempt-code now req s a.after a.response a.scheduled a.attempt code in
            ground arith
        | unsaved f g k ↦ (g, k)
      ]
]

-- Where there is a database, a response with status 200 means that the database has the server's state:
-- its row is the state that the server holds after the call.
pub acknowledged_is_stored :
    (p : Persist) (now : ℤ) (req : SubmitRequest) (s : Server) (row : Option PersistentState)
    → s.pool ≡ some row
    → (handle_submit p now (some req) s).response.code ≡ 200
    → (handle_submit p now (some req) s).server.pool
      ≡ some (some (snapshot (handle_submit p now (some req) s).server))
acknowledged_is_stored p now req s row h code = elim (Bool-cases (req.submission_id == "")) [
  | inl e ↦ let bad = sym (ap (λ x. x.response.code) (unnamed p now req s e)) ∙ code in ground arith
  | inr e ↦
      let a = answered p now req s e in
      elim a.saves [
        | saved f g k (inl l) ↦ let none_some = sym l ∙ (a.same_pool ∙ h) in ground arith
        | saved f g k (inr l) ↦ l ∙ sym (ap (λ x. some (some x)) g)
        | unsaved f g k ↦ let bad = sym (ap (λ x. x.code) f) ∙ code in ground arith
      ]
]
