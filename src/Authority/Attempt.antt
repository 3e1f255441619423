-- ===== src/Authority/Attempt.antt =====
-- What `handleSubmit` of internal/authority/server.go tries to do, before its one write decides
-- whether it is done: nothing to the ledger, one more attempt of a known operation, or a new one.
use dbos_conformance.Common.{
  ◌+◌, String, ℤ, false, Option, none, some, ◌==◌, ◌!=◌, string_eq, ◌≡◌, refl, ◌⊎◌, inl, inr, arith,
  ◌||◌, eq_iff, Bool-cases, Option-cases, if◌then◌else◌, lookup, insert, leb, count_at, nat_eq,
}
use dbos_conformance.Domain.{
  scenario_reject, scenario_rate_limit, scenario_rate_limit_exhausted,
  scenario_transient_server_error, scenario_timeout_lost, scenario_timeout_ambiguous,
}
use dbos_conformance.Authority.Ledger.{Submission, Server, snapshot, Persist}
use dbos_conformance.Authority.Submit.{
  SubmitRequest, SubmitResponse, Response, Handled, answer, save_then, status_from_outcome,
  new_submission, rejected_submission, count_attempt, submit_existing, submit_accepted, submit_new,
  handle_submit, record_submission, submit_limited, submit_unavailable, submit_lost,
  submit_rejected, increment,
}

-- The body of the answer has the status.
abbrev pub Says : String → Response → Type 0
Says status r = (b : SubmitResponse) × (r.body ≡ some b) × (b.status ≡ status)

-- The answers that leave the ledger alone.
pub data Refusal (r : Response) : Type 0 where
  conflict : r.code ≡ 409 → r.body ≡ none → Refusal r
  throttled : r.code ≡ 429 → r.body ≡ none → Refusal r
  no_effect : r.code ≡ 503 → r.request_effect ≡ "none" → r.body ≡ none → Refusal r
  timed_out : r.code ≡ 504 → r.body ≡ none → Refusal r

pub data Attempt (now : ℤ) (req : SubmitRequest) (before after : Server) (r : Response)
    (scheduled : Option Submission) : Type 0 where
  refused :
      Refusal r
      → after.subs ≡ before.subs
      → after.metrics.submissions ≡ before.metrics.submissions
      → scheduled ≡ none
      → Attempt now req before after r scheduled
  repeated :
      (existing : Submission)
      → lookup req.submission_id before.subs ≡ some existing
      → existing.filing_id ≡ req.filing_id
      → existing.scenario ≡ req.scenario
      → after.subs
        ≡ insert req.submission_id
            (record existing { attempts = existing.attempts + 1 })
            before.subs
      → after.metrics.submissions ≡ before.metrics.submissions
      → r ≡ answer existing.id (status_from_outcome existing) ""
      → scheduled ≡ none
      → Attempt now req before after r scheduled
  recorded :
      (sub : Submission)
      → lookup req.submission_id before.subs ≡ none
      → ((sub ≡ new_submission now req) × (scheduled ≡ some sub) × Says "accepted" r)
        ⊎ ((sub ≡ rejected_submission now req)
            × (req.scenario ≡ scenario_reject)
            × (scheduled ≡ none))
      → after.subs ≡ insert req.submission_id sub before.subs
      → after.metrics.submissions ≡ before.metrics.submissions + 1
      → r.code ≡ 200
      → Attempt now req before after r scheduled

-- The call makes an attempt and then its write.
pub record Tries (p : Persist) (now : ℤ) (req : SubmitRequest) (before : Server) (h : Handled)
    : Type 0 where
  pub after : Server
  pub response : Response
  pub scheduled : Option Submission
  pub attempt : Attempt now req before after response scheduled
  pub same_pool : after.pool ≡ before.pool
  pub same_timing : after.timing ≡ before.timing
  pub handled : h ≡ save_then p (snapshot before) after response scheduled

module _ (p : Persist) (now : ℤ) (req : SubmitRequest) (s : Server) where
  abbrev P : Handled → Type 0
  P = Tries p now req s

  refuses :
      (t : Server) (r : Response)
      → Refusal r
      → t.subs ≡ s.subs
      → t.metrics.submissions ≡ s.metrics.submissions
      → t.pool ≡ s.pool
      → t.timing ≡ s.timing
      → P (save_then p (snapshot s) t r none)
  refuses t r refusal e f g h = record {
    after = t;
    response = r;
    scheduled = none;
    attempt = refused refusal e f refl;
    same_pool = g;
    same_timing = h;
    handled = refl;
  }

  accepts :
      (t : Server)
      → lookup req.submission_id s.subs ≡ none
      → t.subs ≡ s.subs
      → t.metrics.submissions ≡ s.metrics.submissions
      → t.pool ≡ s.pool
      → t.timing ≡ s.timing
      → P (submit_accepted p now (snapshot s) req t)
  unfolding submit_accepted
  accepts t fresh e f g h = record {
    after = record_submission (new_submission now req) t;
    response = _;
    scheduled = some (new_submission now req);
    attempt =
        recorded (new_submission now req) fresh (inl (refl, refl, accepting))
          (unfold record_submission in ground arith) (unfold record_submission in ground arith)
          (ground arith);
    same_pool = unfold record_submission in g;
    same_timing = unfold record_submission in h;
    handled = refl;
  }
    where
      accepting : Says "accepted" (
          if req.scenario == scenario_timeout_ambiguous
          then record (answer req.submission_id "accepted" "") {
            delay = t.timing.lost_response_delay;
          }
          else answer req.submission_id "accepted" "")
      accepting = elim (Bool-cases (req.scenario == scenario_timeout_ambiguous)) [
        | inl e ↦ rw e (_, refl, refl)
        | inr e ↦ rw e (_, refl, refl)
      ]

  module _ (fresh : lookup req.submission_id s.subs ≡ none) where
    limited_tries : P (submit_limited p now (snapshot s) req (count_attempt s))
    unfolding submit_limited
    limited_tries =
        elim (Bool-cases
          (leb (count_at req.submission_id (increment req.submission_id s.rl_attempts)) 2)) [
            | inl e ↦ rw (e, submit_limited) (refuses _ _ (throttled refl refl) refl refl refl refl)
            | inr e ↦ rw (e, submit_limited) (accepts _ fresh refl refl refl refl)
          ]

    unavailable_tries : P (submit_unavailable p now (snapshot s) req (count_attempt s))
    unfolding submit_unavailable
    unavailable_tries =
        elim (Bool-cases
          (leb (count_at req.submission_id (increment req.submission_id s.se_attempts)) 2)) [
            | inl e ↦
                rw (e, submit_unavailable)
                  (refuses _ _ (no_effect refl refl refl) refl refl refl refl)
            | inr e ↦ rw (e, submit_unavailable) (accepts _ fresh refl refl refl refl)
          ]

    lost_tries : P (submit_lost p now (snapshot s) req (count_attempt s))
    unfolding submit_lost
    lost_tries =
        elim (Bool-cases
          (count_at req.submission_id (increment req.submission_id s.tl_attempts) == 1)) [
            | inl e ↦ rw (e, submit_lost) (refuses _ _ (timed_out refl refl) refl refl refl refl)
            | inr e ↦ rw (e, submit_lost) (accepts _ fresh refl refl refl refl)
          ]

    rejected_tries :
        req.scenario ≡ scenario_reject
        → P (submit_rejected p now (snapshot s) req (count_attempt s))
    unfolding submit_rejected
    rejected_tries e = record {
      after = record_submission (rejected_submission now req) (count_attempt s);
      response = _;
      scheduled = none;
      attempt =
          recorded (rejected_submission now req) fresh (inr (refl, e, refl))
            (unfold record_submission in refl) (unfold record_submission in refl) refl;
      same_pool = unfold record_submission in refl;
      same_timing = unfold record_submission in refl;
      handled = refl;
    }

    other_tries : P (
        if req.scenario == scenario_reject
        then submit_rejected p now (snapshot s) req (count_attempt s)
        else submit_accepted p now (snapshot s) req (count_attempt s))
    other_tries = elim (Bool-cases (req.scenario == scenario_reject)) [
      | inl e ↦ rw e (rejected_tries ((eq_iff _ _).0 e))
      | inr e ↦ rw e (accepts _ fresh refl refl refl refl)
    ]

    new_tries : P (submit_new p now (snapshot s) req (count_attempt s))
    unfolding submit_new
    new_tries = elim (Bool-cases (req.scenario == scenario_rate_limit_exhausted)) [
      | inl e ↦ rw (e, submit_new) (refuses _ _ (throttled refl refl) refl refl refl refl)
      | inr e₁ ↦ elim (Bool-cases (req.scenario == scenario_rate_limit)) [
        | inl e ↦ rw (e₁, e, submit_new) limited_tries
        | inr e₂ ↦ elim (Bool-cases (req.scenario == scenario_transient_server_error)) [
          | inl e ↦ rw (e₁, e₂, e, submit_new) unavailable_tries
          | inr e₃ ↦ elim (Bool-cases (req.scenario == scenario_timeout_lost)) [
            | inl e ↦ rw (e₁, e₂, e₃, e, submit_new) lost_tries
            | inr e₄ ↦ rw (e₁, e₂, e₃, e₄, submit_new) other_tries
          ]
        ]
      ]
    ]

  existing_tries :
      (existing : Submission)
      → lookup req.submission_id s.subs ≡ some existing
      → P (submit_existing p (snapshot s) req existing (count_attempt s))
  unfolding submit_existing
  existing_tries existing known =
      elim (Bool-cases (existing.filing_id != req.filing_id || existing.scenario != req.scenario)) [
        | inl e ↦ rw (e, submit_existing) (refuses _ _ (conflict refl refl) refl refl refl refl)
        | inr e ↦
            let same_filing : existing.filing_id ≡ req.filing_id =
              ground (arith, eq_iff existing.filing_id req.filing_id) in
            let same_scenario : existing.scenario ≡ req.scenario =
              ground (arith, eq_iff existing.scenario req.scenario) in
            rw (e, submit_existing)
              record {
                after = _;
                response = _;
                scheduled = none;
                attempt = repeated existing known same_filing same_scenario refl refl refl refl;
                same_pool = refl;
                same_timing = refl;
                handled = refl;
              }
      ]

-- A request that can be decoded and names an operation is an attempt and its write.
pub handle_submit-Tries :
    (p : Persist) (now : ℤ) (req : SubmitRequest) (s : Server)
    → (req.submission_id == "") ≡ false
    → Tries p now req s (handle_submit p now (some req) s)
unfolding handle_submit
handle_submit-Tries p now req s named = elim (Option-cases (lookup req.submission_id s.subs)) [
  | inl fresh ↦ rw (named, fresh, handle_submit) (new_tries p now req s fresh)
  | inr (existing, known) ↦
      rw (named, known, handle_submit) (existing_tries p now req s existing known)
]
