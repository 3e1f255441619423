-- ===== src/Operator/Evidence.antt =====
-- What `opsctl reconcile` of cmd/opsctl/main.go needs to see before it changes anything.
use dbos_conformance.Common.{
  String, ℤ, Bool, true, false, not, some, List, [], ◌∷◌, ◌==◌, ◌!=◌, string_eq, if◌then◌else◌,
  Result, ok, err, All, ◌≡◌, refl, arith, eq_iff, Bool-cases, Option-cases, inl, inr, int_ltb, ◌-ℤ◌,
  ◌+ℤ◌, ◌⊎◌,
}
use dbos_conformance.Domain.{state_needs_review}
use dbos_conformance.Domain.Identity.{outcome_command_key, provider_operation_id}
use dbos_conformance.Accountable.Command.{CommandRequest}
use dbos_conformance.Accountable.Queries.{Filing as Served}
use dbos_conformance.Authority.Submit.{StatusResponse}
use dbos_conformance.Workflow.Outcome.{canon}
use dbos_conformance.Workflow.Reconcile.{
  WorkflowStatus, cancelled, pending, enqueued, delayed, success, failed, other, KnownWorkflow,
  input_of,
}
use dbos_conformance.Operator.Enqueue.{Enqueued}
use dbos_conformance.Operator.Reconcile.{
  asked_of, Answers, Act, sends_command, deletes_workflow, enqueues, Line, Round,
  final_command_type, review, inspect_success, record_final, by_status, of_listed, examine,
  examine_listed, reconcile_filing, with_status, prints, escalate, healthy, recreate_after,
}

-- DBOS lists a failed workflow with the filing's ID.
abbrev pub HasFailed : Answers → Type 0
HasFailed ans =
    (w : KnownWorkflow) × (ws : List KnownWorkflow) × (ans.listed ≡ ok (w ∷ ws))
    × (w.status ≡ failed)

-- The provider's answer for the filing's operation says that it is completed as accepted or rejected, and
-- the command is MarkFilingAccepted or MarkFilingRejected accordingly, for this filing, under its outcome
-- key.
pub record Recorded (ans : Answers) (f : Served) (c : CommandRequest) : Type 0 where
  pub st : StatusResponse
  pub read : ans.provider (provider_operation_id f.filing_id f.tax_year) ≡ ok st
  pub done : st.status ≡ "completed"
  pub final :
      ((st.outcome ≡ "accepted") × (c.command_type ≡ "MarkFilingAccepted"))
      ⊎ ((st.outcome ≡ "rejected") × (c.command_type ≡ "MarkFilingRejected"))
  pub filing : c.filing_id ≡ f.filing_id
  pub year : c.tax_year ≡ f.tax_year
  pub key : c.idempotency_key ≡ outcome_command_key (canon (input_of f))

-- A command records the outcome of the completed provider operation. A
-- workflow is deleted only if it has failed, and enqueued only if it has failed or there is none; both
-- under the filing's workflow ID.
unfoldable pub Proven : Answers → Served → Act → Type 0
Proven ans f (sends_command c) = Recorded ans f c
Proven ans f (deletes_workflow id) = (id ≡ canon (input_of f)) × HasFailed ans
Proven ans f (enqueues id input version) =
    (id ≡ canon (input_of f)) × (input ≡ input_of f) × ((ans.listed ≡ ok []) ⊎ HasFailed ans)

verdict :
    (outcome type : String)
    → final_command_type outcome ≡ some type
    → ((outcome ≡ "accepted") × (type ≡ "MarkFilingAccepted"))
      ⊎ ((outcome ≡ "rejected") × (type ≡ "MarkFilingRejected"))
unfolding final_command_type
verdict outcome type is = ground (arith, eq_iff outcome "accepted", eq_iff outcome "rejected")

module _ (apply : Bool) (version : String) (stale now : ℤ) (ans : Answers) (f : Served) where
  abbrev AllProven : Round → Type 0
  AllProven round = All (Proven ans f) round.acts

  record_final-Proven :
      (st : StatusResponse) (type : String)
      → ans.provider (asked_of f) ≡ ok st
      → st.status ≡ "completed"
      → final_command_type st.outcome ≡ some type
      → AllProven (record_final apply ans f type)
  unfolding record_final Proven
  record_final-Proven st type seen done is_type = elim (Bool-cases (not apply)) [
    | inl e ↦ rw (e, record_final) tt
    | inr e ↦
        rw (e, record_final)
          (
            record {
              st = st;
              read = seen;
              done = done;
              final = verdict st.outcome type is_type;
              filing = refl;
              year = refl;
              key = refl;
            },
            tt,
          )
  ]

  review-Proven :
      (st : StatusResponse) → ans.provider (asked_of f) ≡ ok st → AllProven (review apply ans f st)
  unfolding review
  review-Proven st seen = elim (Bool-cases (st.status != "completed")) [
    | inl e ↦ rw (e, review) tt
    | inr e ↦ elim (Option-cases (final_command_type st.outcome)) [
      | inl o ↦ rw (e, o, review) tt
      | inr (type, o) ↦
          let done : st.status ≡ "completed" = ground (arith, eq_iff st.status "completed") in
          rw (e, o, review) (record_final-Proven st type seen done o)
    ]
  ]

  success-Proven :
      (st : StatusResponse)
      → ans.provider (asked_of f) ≡ ok st
      → AllProven (inspect_success apply ans f st)
  unfolding inspect_success
  success-Proven st seen = elim (Option-cases (final_command_type st.outcome)) [
    | inl o ↦ rw (o, inspect_success) tt
    | inr (type, o) ↦ elim (Bool-cases (st.status != "completed")) [
      | inl e ↦ rw (o, e, inspect_success) tt
      | inr e ↦
          let done : st.status ≡ "completed" = ground (arith, eq_iff st.status "completed") in
          rw (o, e, inspect_success) (record_final-Proven st type seen done o)
    ]
  ]

  with_status-Proven :
      (next : StatusResponse → Round) (r : Result String StatusResponse)
      → ((st : StatusResponse) → r ≡ ok st → AllProven (next st))
      → AllProven (with_status r next)
  with_status-Proven next (err e) h = tt
  with_status-Proven next (ok st) h = h st refl

  either-Proven : (b : Bool) (l k : Line) → AllProven (if b then prints l else prints k)
  either-Proven true l k = tt
  either-Proven false l k = tt

  recreate-Proven :
      (deleted : Result String (Unit {0})) (sent : Enqueued)
      → HasFailed ans
      → AllProven (recreate_after f version deleted sent)
  unfolding Proven
  recreate-Proven (err e) sent h = ((refl, h), tt)
  recreate-Proven (ok done) sent h = ((refl, h), ((refl, refl, inr h), tt))

  by_status-Proven :
      (status : WorkflowStatus) (w : KnownWorkflow) (ws : List KnownWorkflow)
      → ans.listed ≡ ok (w ∷ ws)
      → w.status ≡ status
      → AllProven (by_status apply version stale now ans f status w)
  unfolding by_status
  by_status-Proven pending w ws at is =
      either-Proven (not (int_ltb (now -ℤ w.updated_at) stale)) (escalate "stale_active") healthy
  by_status-Proven enqueued w ws at is =
      either-Proven (not (int_ltb (now -ℤ w.updated_at) stale)) (escalate "stale_active") healthy
  by_status-Proven delayed w ws at is =
      either-Proven (int_ltb now (w.delay_until +ℤ stale)) healthy (escalate "overdue_delay")
  by_status-Proven cancelled w ws at is = tt
  by_status-Proven failed w ws at is = elim (Bool-cases (not apply)) [
    | inl e ↦ rw (e, by_status) tt
    | inr e ↦ rw (e, by_status) (recreate-Proven ans.deleted ans.enqueue (w, ws, at, is))
  ]
  by_status-Proven success w ws at is =
      with_status-Proven (inspect_success apply ans f) (ans.provider (asked_of f)) success-Proven
  by_status-Proven other w ws at is = tt

  of_listed-Proven :
      (ws : List KnownWorkflow)
      → ans.listed ≡ ok ws
      → AllProven (of_listed apply version stale now ans f ws)
  unfolding Proven
  of_listed-Proven [] at = elim (Bool-cases (not apply)) [
    | inl e ↦ rw e tt
    | inr e ↦ rw e ((refl, refl, inl at), tt)
  ]
  of_listed-Proven (w ∷ ws) at = by_status-Proven w.status w ws at refl

  listed-Proven :
      (r : Result String (List KnownWorkflow))
      → ans.listed ≡ r
      → AllProven (examine_listed apply version stale now ans f r)
  unfolding examine
  listed-Proven (err e) at = tt
  listed-Proven (ok ws) at = elim (Bool-cases (f.state == state_needs_review)) [
    | inl e ↦
        rw (e, examine)
          (with_status-Proven (review apply ans f) (ans.provider (asked_of f)) review-Proven)
    | inr e ↦ rw (e, examine) (of_listed-Proven ws at)
  ]

-- With or without -apply, the round of a filing changes something only on evidence: it records only the
-- outcome of a completed provider operation, deletes a workflow only if it has failed, and enqueues one
-- only if it has failed or there is none, all under the canonical identities of the filing.
pub acts_on_evidence :
    (apply : Bool) (version : String) (stale now : ℤ) (ans : Answers) (f : Served)
    → All (Proven ans f) (reconcile_filing apply version stale now ans f).acts
acts_on_evidence apply version stale now ans f =
    listed-Proven apply version stale now ans f ans.listed refl
