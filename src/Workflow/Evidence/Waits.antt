-- ===== src/Workflow/Evidence/Waits.antt =====
-- The bounded wait of internal/workflow/filing.go, and what follows it, rest on what the provider shows.
use dbos_conformance.Common.{
  ℕ, zero, suc, ◌+◌, String, [], ◌∷◌, ◌==◌, ◌!=◌, string_eq, ok, ◌≡◌, refl, subst, arith, eq_iff,
  inl, inr, Bool-cases, Result-cases,
}
use dbos_conformance.Domain.{FilingInput, state_ready, state_submitted}
use dbos_conformance.Accountable.Command.{mark_accepted, mark_rejected, prepare, mark_submitted}
use dbos_conformance.Accountable.Handlers.{rounds_of}
use dbos_conformance.Authority.Client.{SubmitOutcome}
use dbos_conformance.Workflow.Steps.{
  Answers, Received, received, timed_out, broken, Run, reads_filing, sends_command, asks_status,
}
use dbos_conformance.Workflow.Outcome.{Config, map_outcome}
use dbos_conformance.Workflow.Filing.{
  wait_outcome, poll_round, conclude, decided, report_submitted, prepare_submission,
  after_submission,
}
use dbos_conformance.Workflow.Canonical.{All-and_then}
use dbos_conformance.Workflow.Evidence.{
  Polled, Shows, polled, called_back, Shown, Backed, IsBacked, Shows-Shown, review-Shown,
  record_outcome-Backed,
}

module _ (ans : Answers) (input : FilingInput) where
  nothing_found : Shown ans input ""
  nothing_found =
      (λ e. ground (arith, eq_iff "" "accepted"), λ e. ground (arith, eq_iff "" "rejected"))

  -- One round finds what the callback or the provider tells, or leaves it to the rounds after it.
  poll_round-Shown :
      (id : String) (i : ℕ) (rest : Run (String × String)) (r : Received) (found : String × String)
      → Polled ans input id
      → ans.recv i ≡ r
      → (rest.result ≡ ok found → Shown ans input found.0)
      → (poll_round ans id i rest r).result ≡ ok found
      → Shown ans input found.0
  unfolding poll_round
  poll_round-Shown id i rest (received cb) found asked at later returns =
      Shows-Shown ans input found.0 (called_back i cb at (ground arith))
  poll_round-Shown id i rest (broken e) found asked at later returns = ground arith
  poll_round-Shown id i rest timed_out found asked at later returns =
      elim (Result-cases (ans.poll_status i)) [
        | inl (e, p) ↦ let bad = rw (p, poll_round) at returns in ground arith
        | inr (st, p) ↦ elim (Bool-cases (st.status == "completed")) [
          | inl c ↦
              let same = rw (p, c, poll_round) at returns in
              Shows-Shown ans input found.0
                (polled id i st asked p ((eq_iff st.status "completed").0 c) (ground arith))
          | inr c ↦ later (rw (p, c, poll_round) at returns)
        ]
      ]

  wait_outcome-Shown :
      (id : String) (n i : ℕ) (found : String × String)
      → Polled ans input id
      → (wait_outcome ans id n i).result ≡ ok found
      → Shown ans input found.0
  unfolding wait_outcome
  wait_outcome-Shown id zero i found asked returns =
      let same : ("", "") ≡ found = ground arith in
      subst (λ x. Shown ans input x.0) same nothing_found
  wait_outcome-Shown id (suc n) i found asked returns =
      poll_round-Shown id i (wait_outcome ans id n (i + 1)) (ans.recv i) found asked refl
        (wait_outcome-Shown id n (i + 1) found asked) returns

  poll_round-Backed :
      (id : String) (i : ℕ) (rest : Run (String × String)) (r : Received)
      → IsBacked ans input rest
      → IsBacked ans input (poll_round ans id i rest r)
  unfolding Backed poll_round
  poll_round-Backed id i rest (received cb) backed = tt
  poll_round-Backed id i rest (broken e) backed = tt
  poll_round-Backed id i rest timed_out backed =
      All-and_then (Backed ans input) (asks_status id ∷ []) (ans.poll_status i) _ (tt, tt)
        (λ st e. elim (Bool-cases (st.status == "completed")) [
          | inl c ↦ rw c tt
          | inr c ↦ rw c backed
        ])

  wait_outcome-Backed : (id : String) (n i : ℕ) → IsBacked ans input (wait_outcome ans id n i)
  unfolding wait_outcome
  wait_outcome-Backed id zero i = tt
  wait_outcome-Backed id (suc n) i =
      poll_round-Backed id i _ (ans.recv i) (wait_outcome-Backed id n (i + 1))

  conclude-Backed :
      (outcome detail : String)
      → Shown ans input outcome
      → IsBacked ans input (conclude ans input outcome detail)
  unfolding Backed conclude
  conclude-Backed outcome detail shown =
      All-and_then (Backed ans input) _ _ _ (record_outcome-Backed ans input outcome detail shown)
        (λ u e.
          All-and_then (Backed ans input) (reads_filing input.filing_id input.tax_year ∷ [])
            ans.reconcile_final _ (tt, tt)
            (λ final h. elim (Bool-cases (final.state != map_outcome outcome)) [
              | inl c ↦ rw c tt
              | inr c ↦ rw c tt
            ]))

  decided-Backed :
      (found : String × String)
      → Shown ans input found.0
      → IsBacked ans input (decided ans input found)
  unfolding decided
  decided-Backed (outcome, detail) shown = elim (Bool-cases (outcome == "")) [
    | inl e ↦
        rw (e, decided)
          (conclude-Backed "needs_review" "no callback and authority still processing"
            (review-Shown ans input))
    | inr e ↦ rw (e, decided) (conclude-Backed outcome detail shown)
  ]

  report_submitted-Backed : (state : String) → IsBacked ans input (report_submitted ans input state)
  unfolding Backed report_submitted
  report_submitted-Backed state = elim (Bool-cases (state != state_submitted)) [
    | inl e ↦
        rw (e, report_submitted)
          (All-and_then (Backed ans input) (sends_command _ ∷ []) ans.mark_submitted _
            (
              (
                λ h. ground (arith, eq_iff mark_submitted mark_accepted),
                λ h. ground (arith, eq_iff mark_submitted mark_rejected),
              ),
              tt,
            )
            (λ a h. tt))
    | inr e ↦ rw (e, report_submitted) tt
  ]

  pub prepare_submission-Backed :
      (state : String) → IsBacked ans input (prepare_submission ans input state)
  unfolding Backed prepare_submission
  prepare_submission-Backed state = elim (Bool-cases (state == state_ready)) [
    | inl e ↦
        rw (e, prepare_submission)
          (All-and_then (Backed ans input) (sends_command _ ∷ []) ans.prepare_submission _
            (
              (
                λ h. ground (arith, eq_iff prepare mark_accepted),
                λ h. ground (arith, eq_iff prepare mark_rejected),
              ),
              tt,
            )
            (λ a h. tt))
    | inr e ↦ rw (e, prepare_submission) tt
  ]

  pub after_submission-Backed :
      (cfg : Config) (state id : String) (sub : SubmitOutcome)
      → Polled ans input id
      → (sub.result ≡ "rejected" → Shows ans input "rejected")
      → IsBacked ans input (after_submission cfg ans input state id sub)
  unfolding after_submission map_outcome
  after_submission-Backed cfg state id sub asked shown =
      elim (Bool-cases (sub.result == "rejected")) [
        | inl e ↦
            let turned : Shown ans input "rejected" = (
              λ f. ground (arith, eq_iff "rejected" "accepted"),
              λ f. shown ((eq_iff sub.result "rejected").0 e),
            ) in
            rw (e, after_submission)
              (All-and_then (Backed ans input) _ _ _
                (record_outcome-Backed ans input "rejected" sub.detail turned) (λ a h. tt))
        | inr e ↦
            rw (e, after_submission)
              (All-and_then (Backed ans input) _ _ _ (report_submitted-Backed state) (λ a h.
                All-and_then (Backed ans input) _ _ _
                  (wait_outcome-Backed id (rounds_of cfg.status_polls) 0)
                  (λ found h.
                    decided-Backed found
                      (wait_outcome-Shown id (rounds_of cfg.status_polls) 0 found asked h))))
      ]
