-- ===== src/Authority/Promises.antt =====
-- What the provider of internal/authority/server.go promises about one operation.
use dbos_conformance.Common.{
  ◌+◌, String, ℤ, Option, none, some, List, ◌==◌, string_eq, ◌≡◌, refl, sym, ◌∙◌, ap, inl, inr,
  arith, length, lookup, lookup-insert, length-insert_old, ok, err, Bool-cases, eq_refl,
}
use dbos_conformance.Authority.Ledger.{Submission, Server, Persist, Timing, new_persistent_server}
use dbos_conformance.Authority.Submit.{SubmitRequest, Response, handle_submit}
use dbos_conformance.Authority.Attempt.{
  conflict, throttled, no_effect, timed_out, Attempt, refused, repeated, recorded,
}
use dbos_conformance.Authority.Client.{RetryableError, submit}
use dbos_conformance.Authority.Saves.{saved, unsaved}
use dbos_conformance.Authority.Sound.{IsSound}
use dbos_conformance.Authority.Events.{Event, happen}
use dbos_conformance.Authority.Carries.{handle_submit-Carried}
use dbos_conformance.Authority.Durability.{happen-Carried, start-IsSound}
use dbos_conformance.Authority.Answers.{answered, unnamed, same_subs, same_count}

-- A response with status 200 comes of a recorded operation.
acknowledged_is_recorded :
    (p : Persist) (now : ℤ) (req : SubmitRequest) (s : Server)
    → (handle_submit p now (some req) s).response.code ≡ 200
    → (sub : Submission) × (lookup req.submission_id (handle_submit p now (some req) s).server.subs
        ≡ some sub)
      × (sub.filing_id ≡ req.filing_id)
      × (sub.scenario ≡ req.scenario)
acknowledged_is_recorded p now req s code = elim (Bool-cases (req.submission_id == "")) [
  | inl e ↦ let bad = sym (ap (λ x. x.response.code) (unnamed p now req s e)) ∙ code in ground arith
  | inr e ↦
      let a = answered p now req s e in
      elim a.saves [
        | saved f g k l ↦
            let (sub, there, filing, scenario) =
              of_attempt a.after a.response a.scheduled a.attempt
                (sym (ap (λ x. x.code) f) ∙ code) in
            (
              sub,
              ap (lookup req.submission_id)
                    (same_subs a.after (handle_submit p now (some req) s).server g)
                  ∙ there,
              filing,
              scenario,
            )
        | unsaved f g k ↦ let bad = sym (ap (λ x. x.code) f) ∙ code in ground arith
      ]
]
  where
    of_attempt :
        (t : Server) (r : Response) (scheduled : Option Submission)
        → Attempt now req s t r scheduled
        → r.code ≡ 200
        → (sub : Submission) × (lookup req.submission_id t.subs ≡ some sub)
          × (sub.filing_id ≡ req.filing_id)
          × (sub.scenario ≡ req.scenario)
    of_attempt t r scheduled (refused (conflict e _) f g h) c = ground arith
    of_attempt t r scheduled (refused (throttled e _) f g h) c = ground arith
    of_attempt t r scheduled (refused (no_effect e e' _) f g h) c = ground arith
    of_attempt t r scheduled (refused (timed_out e _) f g h) c = ground arith
    of_attempt t r scheduled (repeated old known e f g h i j) c = (
      record old { attempts = old.attempts + 1 },
      rw (g, lookup-insert, eq_refl req.submission_id) refl,
      e,
      f,
    )
    of_attempt t r scheduled (recorded sub fresh (inl (e, e', e'')) f g h) c =
        (sub, rw (f, lookup-insert, eq_refl req.submission_id) refl, rw e refl, rw e refl)
    of_attempt t r scheduled (recorded sub fresh (inr (e, e', e'')) f g h) c =
        (sub, rw (f, lookup-insert, eq_refl req.submission_id) refl, rw e refl, rw e refl)

-- Once a provider with a database, sound as IsSound says, has answered an operation with status 200,
-- the operation stays recorded under its ID, with its filing and its scenario, through every later
-- sequence of calls, goroutine steps and restarts, whether their writes succeed, fail or end
-- unacknowledged.
pub acknowledged_survives :
    (p : Persist) (now : ℤ) (req : SubmitRequest) (es : List Event) (s : Server)
    → IsSound s
    → (handle_submit p now (some req) s).response.code ≡ 200
    → (later : Submission) × (lookup req.submission_id
          (happen es (handle_submit p now (some req) s).server).subs
        ≡ some later)
      × (later.filing_id ≡ req.filing_id)
      × (later.scenario ≡ req.scenario)
acknowledged_survives p now req es s sound code =
    let (sub, there, filing, scenario) = acknowledged_is_recorded p now req s code in
    let first = handle_submit-Carried p now (some req) s sound in
    let (later, found, same) =
      (happen-Carried es _ first.sound).grown req.submission_id sub there in
    (later, found, sym same.filing_id ∙ filing, sym same.scenario ∙ scenario)

-- An operation that is completed stays completed, with the same outcome, through every sequence of
-- calls, goroutine steps and restarts of a provider with a database, sound as IsSound says, whatever
-- becomes of their writes.
pub completed_is_final :
    (id : String) (sub : Submission) (es : List Event) (s : Server)
    → IsSound s
    → lookup id s.subs ≡ some sub
    → sub.status ≡ "completed"
    → (later : Submission) × (lookup id (happen es s).subs ≡ some later)
      × (later.status ≡ "completed")
      × (later.outcome ≡ sub.outcome)
completed_is_final id sub es s sound there done =
    let (later, found, same) = (happen-Carried es s sound).grown id sub there in
    let (status, outcome) = same.outcome done in (later, found, status, sym outcome)

-- The metric `submissions` of a provider that starts on an empty database is the number of its
-- recorded operations after every sequence of calls, goroutine steps and restarts, whatever becomes
-- of their writes.
pub submissions_counts_operations :
    (timing : Timing) (es : List Event)
    → (happen es (new_persistent_server timing none)).metrics.submissions
      ≡ length (happen es (new_persistent_server timing none)).subs
submissions_counts_operations timing es = (happen-Carried es _ (start-IsSound timing)).sound.counted

-- An ID that is already recorded is not recorded again: whatever the request and its answer, the
-- number of recorded operations and the metric `submissions` stay, and no completion is scheduled.
pub known_operation_recorded_once :
    (p : Persist) (now : ℤ) (req : SubmitRequest) (s : Server) (sub : Submission)
    → lookup req.submission_id s.subs ≡ some sub
    → (length (handle_submit p now (some req) s).server.subs ≡ length s.subs)
      × ((handle_submit p now (some req) s).server.metrics.submissions ≡ s.metrics.submissions)
      × ((handle_submit p now (some req) s).scheduled ≡ none)
known_operation_recorded_once p now req s sub known = elim (Bool-cases (req.submission_id == "")) [
  | inl e ↦ rw (unnamed p now req s e) (refl, refl, refl)
  | inr e ↦
      let a = answered p now req s e in
      let u = (handle_submit p now (some req) s).server in
      elim a.saves [
        | saved f g k l ↦
            let (n, m, o) = of_attempt a.after a.response a.scheduled a.attempt in
            (ap length (same_subs a.after u g) ∙ n, same_count a.after u g ∙ m, k ∙ o)
        | unsaved f g k ↦ (ap length (same_subs s u g), same_count s u g, k)
      ]
]
  where
    of_attempt :
        (t : Server) (r : Response) (scheduled : Option Submission)
        → Attempt now req s t r scheduled
        → (length t.subs ≡ length s.subs)
          × (t.metrics.submissions ≡ s.metrics.submissions)
          × (scheduled ≡ none)
    of_attempt t r scheduled (refused refusal f g h) = (ap length f, g, h)
    of_attempt t r scheduled (repeated old there e f g h i j) =
        (ap length g ∙ length-insert_old req.submission_id _ old s.subs there, h, j)
    of_attempt t r scheduled (recorded new fresh f g h i) =
        let bad : none ≡ some sub = sym fresh ∙ known in ground arith

-- An error that `Client.Submit` marks as retryable means that the call recorded nothing: the
-- submissions of the provider are those of before, and no completion is scheduled.
pub retryable_has_no_effect :
    (p : Persist) (now : ℤ) (req : SubmitRequest) (s : Server) (error : RetryableError)
    → submit (ok (handle_submit p now (some req) s).response) ≡ err error
    → ((handle_submit p now (some req) s).server.subs ≡ s.subs)
      × ((handle_submit p now (some req) s).scheduled ≡ none)
unfolding submit
retryable_has_no_effect p now req s error failed = elim (Bool-cases (req.submission_id == "")) [
  | inl e ↦ rw (unnamed p now req s e) (refl, refl)
  | inr e ↦
      let a = answered p now req s e in
      let u = (handle_submit p now (some req) s).server in
      elim a.saves [
        | saved f g k l ↦
            let (m, o) =
              of_attempt a.after a.response a.scheduled a.attempt
                (ap (λ x. submit (ok x)) (sym f) ∙ failed) in
            (same_subs a.after u g ∙ m, k ∙ o)
        | unsaved f g k ↦ (same_subs s u g, k)
      ]
]
  where
    of_attempt :
        (t : Server) (r : Response) (scheduled : Option Submission)
        → Attempt now req s t r scheduled
        → submit (ok r) ≡ err error
        → (t.subs ≡ s.subs) × (scheduled ≡ none)
    of_attempt t r scheduled (refused refusal f g h) bad = (f, h)
    of_attempt t r scheduled (repeated old there e f g h i j) bad = ground arith
    of_attempt t r scheduled (recorded new fresh f g h i) bad = ground arith
