-- ===== src/Workflow/Evidence/Net.antt =====
-- What the scheduled `Reconcile` of internal/workflow/filing.go must have seen before it puts an
-- outcome on record.
use dbos_conformance.Common.{
  ◌+◌, String, ℤ, true, false, not, [], ◌∷◌, ◌==◌, ◌!=◌, string_eq, if◌then◌else◌, Bool, List, ok,
  ◌≡◌, refl, arith, eq_iff, ◌⊎◌, inl, inr, All, Bool-cases, ◌-ℤ◌, ◌+ℤ◌, int_ltb,
}
use dbos_conformance.Domain.{state_needs_review}
use dbos_conformance.Domain.Identity.{outcome_command_key, review_command_key}
use dbos_conformance.Accountable.Command.{CommandRequest, mark_accepted, mark_rejected}
use dbos_conformance.Accountable.Queries.{Filing as Served}
use dbos_conformance.Authority.Submit.{StatusResponse}
use dbos_conformance.Workflow.Steps.{
  Action, Run, return, reads_filing, sends_command, submits, asks_status,
}
use dbos_conformance.Workflow.Outcome.{
  map_outcome, outcome_command, command_of, canon, operation_of, record_outcome,
}
use dbos_conformance.Workflow.Reconcile.{
  WorkflowStatus, cancelled, pending, enqueued, delayed, success, failed, other, KnownWorkflow,
  Start, started, conflicting, not_started, Looks, Counts, escalate, input_of, record_final,
  finalize, start_workflow, by_status, of_listed, reconcile_filing,
}
use dbos_conformance.Workflow.Canonical.{All-and_then}

-- A status answer of the round says that the operation is completed with an outcome that the command
-- records, and the command is the one for this outcome under the filing's outcome key.
pub record Recorded (looks : Looks) (f : Served) (c : CommandRequest) : Type 0 where
  pub st : StatusResponse
  pub read : (looks.reviewed ≡ ok st) ⊎ (looks.inspected ≡ ok st)
  pub done : st.status ≡ "completed"
  pub final :
      ((st.outcome ≡ "accepted") × (c.command_type ≡ mark_accepted))
      ⊎ ((st.outcome ≡ "rejected") × (c.command_type ≡ mark_rejected))
  pub filing : c.filing_id ≡ f.filing_id
  pub year : c.tax_year ≡ f.tax_year
  pub key : c.idempotency_key ≡ outcome_command_key (canon (input_of f))

-- The round does nothing to the provider but to ask for the filing's operation.
unfoldable pub NetBacked : Looks → Served → Action → Type 0
NetBacked looks f (sends_command c) = Recorded looks f c
NetBacked looks f (reads_filing id year) = Unit
NetBacked looks f (submits req) = ⊥
NetBacked looks f (asks_status id) = id ≡ operation_of (input_of f)

module _ (looks : Looks) (f : Served) (c : Counts) where
  abbrev IsNetBacked : Run Counts → Type 0
  IsNetBacked run = All (NetBacked looks f) run.actions

  final-Recorded :
      (st : StatusResponse) (detail : String)
      → (looks.reviewed ≡ ok st) ⊎ (looks.inspected ≡ ok st)
      → st.status ≡ "completed"
      → (map_outcome st.outcome == state_needs_review) ≡ false
      → Recorded looks f (
          command_of
            (input_of f)
            (if map_outcome st.outcome == state_needs_review
              then review_command_key (canon (input_of f))
              else outcome_command_key (canon (input_of f)))
            (outcome_command (map_outcome st.outcome))
            ""
            detail)
  unfolding map_outcome
  final-Recorded st detail read done decided = record {
    st = st;
    read = read;
    done = done;
    final = elim (Bool-cases (st.outcome == "accepted")) [
      | inl e ↦ inl ((eq_iff st.outcome "accepted").0 e, rw (e, map_outcome) refl)
      | inr e ↦ elim (Bool-cases (st.outcome == "rejected")) [
        | inl k ↦ inr ((eq_iff st.outcome "rejected").0 k, rw (e, k, map_outcome) refl)
        | inr k ↦ let bad = rw (e, k, map_outcome) at decided in ground arith
      ]
    ];
    filing = refl;
    year = refl;
    key = rw decided refl;
  }

  record_final-NetBacked :
      (st : StatusResponse)
      → (looks.reviewed ≡ ok st) ⊎ (looks.inspected ≡ ok st)
      → st.status ≡ "completed"
      → (map_outcome st.outcome == state_needs_review) ≡ false
      → IsNetBacked (record_final looks f (map_outcome st.outcome) c)
  unfolding NetBacked record_final record_outcome
  record_final-NetBacked st read done decided =
      let command = final-Recorded st "resolved by scheduled reconciliation" read done decided in
      All-and_then (NetBacked looks f) _ _ _
        (All-and_then (NetBacked looks f) (sends_command _ ∷ []) looks.recorded _ (command, tt)
          (λ a h. tt))
        (λ a h. tt)

  finalize-NetBacked :
      (st : StatusResponse)
      → (looks.reviewed ≡ ok st) ⊎ (looks.inspected ≡ ok st)
      → IsNetBacked (finalize looks f st c)
  unfolding finalize
  finalize-NetBacked st read = elim (Bool-cases (st.status != "completed")) [
    | inl e ↦ rw (e, finalize) tt
    | inr e ↦
        let done : st.status ≡ "completed" = ground (arith, eq_iff st.status "completed") in
        rw (e, finalize) (decided_by done (map_outcome st.outcome == state_needs_review) refl)
  ]
    where
      decided_by :
          st.status ≡ "completed"
          → (undecided : Bool) → (map_outcome st.outcome == state_needs_review) ≡ undecided
          → IsNetBacked (
              if undecided
              then return (escalate c)
              else record_final looks f (map_outcome st.outcome) c)
      decided_by done true e = tt
      decided_by done false e = record_final-NetBacked st read done e

module _ (looks : Looks) (f : Served) where
  start-NetBacked : (s : Start) (c : Counts) → IsNetBacked looks f c (start_workflow s c)
  unfolding start_workflow
  start-NetBacked started c = tt
  start-NetBacked conflicting c = tt
  start-NetBacked (not_started e) c = tt

  escalates-NetBacked :
      (b : Bool) (c : Counts) → IsNetBacked looks f c (if b then return (escalate c) else return c)
  escalates-NetBacked true c = tt
  escalates-NetBacked false c = tt

  by_status-NetBacked :
      (stale now : ℤ) (status : WorkflowStatus) (w : KnownWorkflow) (c : Counts)
      → IsNetBacked looks f c (by_status stale now looks f status w c)
  unfolding NetBacked by_status
  by_status-NetBacked stale now cancelled w c = tt
  by_status-NetBacked stale now pending w c =
      escalates-NetBacked (not (int_ltb (now -ℤ w.updated_at) stale)) c
  by_status-NetBacked stale now enqueued w c =
      escalates-NetBacked (not (int_ltb (now -ℤ w.updated_at) stale)) c
  by_status-NetBacked stale now delayed w c =
      escalates-NetBacked (not (int_ltb now (w.delay_until +ℤ stale))) c
  by_status-NetBacked stale now success w c =
      All-and_then (NetBacked looks f) (asks_status _ ∷ []) looks.inspected _ (refl, tt)
        (λ st h. finalize-NetBacked looks f c st (inr h))
  by_status-NetBacked stale now failed w c =
      All-and_then (NetBacked looks f) [] looks.deleted _ tt
        (λ a h. start-NetBacked looks.start (record c { recreated = c.recreated + 1 }))
  by_status-NetBacked stale now other w c = tt

  of_listed-NetBacked :
      (stale now : ℤ) (ws : List KnownWorkflow) (c : Counts)
      → IsNetBacked looks f c (of_listed stale now looks f ws c)
  of_listed-NetBacked stale now [] c = start-NetBacked looks.start c
  of_listed-NetBacked stale now (w ∷ ws) c = by_status-NetBacked stale now w.status w c

-- The safety net's round of a filing puts an outcome on record only on evidence: each of its commands is
-- for the filing, under its outcome key, and records the outcome, accepted or rejected, that a status
-- answer of the round gives of a completed operation. It asks the provider for no other operation than
-- the filing's, and submits nothing.
pub safety_net_acts_on_evidence :
    (stale now : ℤ) (looks : Looks) (f : Served) (c : Counts)
    → All (NetBacked looks f) (reconcile_filing stale now looks f c).actions
unfolding NetBacked reconcile_filing
safety_net_acts_on_evidence stale now looks f c =
    elim (Bool-cases (f.state == state_needs_review)) [
      | inl e ↦
          rw (e, reconcile_filing)
            (All-and_then (NetBacked looks f) (asks_status _ ∷ []) looks.reviewed _ (refl, tt)
              (λ st h. finalize-NetBacked looks f c st (inl h)))
      | inr e ↦
          rw (e, reconcile_filing)
            (All-and_then (NetBacked looks f) [] looks.listed _ tt
              (λ ws h. of_listed-NetBacked looks f stale now ws c))
    ]
