-- ===== src/Workflow/Canonical.antt =====
-- The identities under which a run of internal/workflow/filing.go acts.
use dbos_conformance.Common.{
  ℕ, zero, suc, ◌+◌, String, List, [], ◌∷◌, ◌==◌, ◌!=◌, string_eq, Result, ok, err, ◌≡◌, refl,
  Bool-cases, inl, inr, All, All-append,
}
use dbos_conformance.Domain.{FilingInput, state_submitted, state_needs_review}
use dbos_conformance.Domain.Identity.Distinct.{KeyKind, command_key, submitted, outcome, review}
use dbos_conformance.Workflow.Steps.{
  Answers, Received, received, timed_out, broken, Action, Run, reads_filing, sends_command, submits,
  asks_status, and_then,
}
use dbos_conformance.Workflow.Outcome.{map_outcome, command_of, canon, operation_of, record_outcome}
use dbos_conformance.Workflow.Filing.{wait_outcome, poll_round, conclude, decided, report_submitted}

-- A call after another one.
pub All-and_then :
    {A B : Type 0} (P : Action → Type 0) (actions : List Action) (r : Result String A)
    (f : A → Run B)
    → All P actions
    → ((a : A) → r ≡ ok a → All P (f a).actions)
    → All P (and_then actions r f).actions
All-and_then P actions (err e) f h k = h
All-and_then P actions (ok a) f h k = All-append P actions (f a).actions h (k a refl)

-- The action is on the filing of the input, with one of its four command keys, or its operation ID.
unfoldable pub Canonical : FilingInput → Action → Type 0
Canonical input (reads_filing id year) = (id ≡ input.filing_id) × (year ≡ input.tax_year)
Canonical input (sends_command c) =
    (c.filing_id ≡ input.filing_id)
    × (c.tax_year ≡ input.tax_year)
    × ((kind : KeyKind) × (c.idempotency_key ≡ command_key kind (canon input)))
Canonical input (submits r) =
    (r.submission_id ≡ operation_of input) × (r.filing_id ≡ input.filing_id)
Canonical input (asks_status id) = Unit

module _ (ans : Answers) (input : FilingInput) where
  abbrev pub AllCanonical : List Action → Type 0
  AllCanonical = All (Canonical input)

  pub step-Canonical :
      {A B : Type 0} (a : Action) (r : Result String A) (f : A → Run B)
      → Canonical input a
      → ((x : A) → AllCanonical (f x).actions)
      → AllCanonical (and_then (a ∷ []) r f).actions
  step-Canonical a r f h k = All-and_then (Canonical input) (a ∷ []) r f (h, tt) (λ x e. k x)

  pub command-Canonical :
      (kind : KeyKind) (type operation detail : String)
      → Canonical input
          (sends_command (command_of input (command_key kind (canon input)) type operation detail))
  unfolding Canonical
  command-Canonical kind type operation detail = (refl, refl, (kind, refl))

  pub record_outcome-Canonical :
      (state detail : String)
      → AllCanonical (record_outcome ans.record_outcome input state detail).actions
  unfolding record_outcome
  record_outcome-Canonical state detail = elim (Bool-cases (state == state_needs_review)) [
    | inl e ↦
        rw (e, record_outcome)
          (step-Canonical _ ans.record_outcome _ (command-Canonical review _ _ _) (λ a. tt))
    | inr e ↦
        rw (e, record_outcome)
          (step-Canonical _ ans.record_outcome _ (command-Canonical outcome _ _ _) (λ a. tt))
  ]

  poll_round-Canonical :
      (id : String) (i : ℕ) (rest : Run (String × String)) (r : Received)
      → AllCanonical rest.actions
      → AllCanonical (poll_round ans id i rest r).actions
  unfolding Canonical poll_round
  poll_round-Canonical id i rest (received cb) h = tt
  poll_round-Canonical id i rest (broken e) h = tt
  poll_round-Canonical id i rest timed_out h =
      All-and_then (Canonical input) (asks_status id ∷ []) (ans.poll_status i) _ (tt, tt)
        (λ st e. elim (Bool-cases (st.status == "completed")) [ inl c ↦ rw c tt | inr c ↦ rw c h ])

  pub wait_outcome-Canonical :
      (id : String) (n i : ℕ) → AllCanonical (wait_outcome ans id n i).actions
  unfolding wait_outcome
  wait_outcome-Canonical id zero i = tt
  wait_outcome-Canonical id (suc n) i =
      poll_round-Canonical id i _ (ans.recv i) (wait_outcome-Canonical id n (i + 1))

  conclude-Canonical :
      (result detail : String) → AllCanonical (conclude ans input result detail).actions
  unfolding Canonical conclude
  conclude-Canonical result detail =
      All-and_then (Canonical input) _ _ _ (record_outcome-Canonical (map_outcome result) detail)
        (λ u e.
          All-and_then (Canonical input) (reads_filing input.filing_id input.tax_year ∷ [])
            ans.reconcile_final _ ((refl, refl), tt)
            (λ final h. elim (Bool-cases (final.state != map_outcome result)) [
              | inl c ↦ rw c tt
              | inr c ↦ rw c tt
            ]))

  pub decided-Canonical : (found : String × String) → AllCanonical (decided ans input found).actions
  unfolding decided
  decided-Canonical (result, detail) = elim (Bool-cases (result == "")) [
    | inl e ↦
        rw (e, decided)
          (conclude-Canonical "needs_review" "no callback and authority still processing")
    | inr e ↦ rw (e, decided) (conclude-Canonical result detail)
  ]

  pub report_submitted-Canonical :
      (state : String) → AllCanonical (report_submitted ans input state).actions
  unfolding report_submitted
  report_submitted-Canonical state = elim (Bool-cases (state != state_submitted)) [
    | inl e ↦
        rw (e, report_submitted)
          (step-Canonical _ ans.mark_submitted _ (command-Canonical submitted _ _ _) (λ a. tt))
    | inr e ↦ rw (e, report_submitted) tt
  ]
