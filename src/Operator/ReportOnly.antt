-- ===== src/Operator/ReportOnly.antt =====
-- `opsctl reconcile` without -apply, of cmd/opsctl/main.go.
use dbos_conformance.Common.{
  String, ℤ, Bool, true, false, not, List, [], ◌∷◌, ◌==◌, ◌!=◌, string_eq, if◌then◌else◌, Result,
  ok, err, ◌≡◌, refl, Bool-cases, Option-cases, Result-cases, inl, inr, int_ltb, ◌-ℤ◌, ◌+ℤ◌,
}
use dbos_conformance.Domain.{state_needs_review}
use dbos_conformance.Accountable.Queries.{Filing as Served}
use dbos_conformance.Authority.Submit.{StatusResponse}
use dbos_conformance.Workflow.Reconcile.{
  WorkflowStatus, cancelled, pending, enqueued, delayed, success, failed, other, KnownWorkflow,
}
use dbos_conformance.Operator.Reconcile.{
  asked_of, Answers, Line, Round, Report, final_command_type, review, inspect_success, record_final,
  by_status, of_listed, examine, examine_listed, reconcile, with_status, prints, report_after,
  escalate, healthy,
}

review-quiet :
    (ans : Answers) (f : Served) (st : StatusResponse) → (review false ans f st).acts ≡ []
unfolding review record_final
review-quiet ans f st = elim (Bool-cases (st.status != "completed")) [
  | inl e ↦ rw (e, review) refl
  | inr e ↦ elim (Option-cases (final_command_type st.outcome)) [
    | inl o ↦ rw (e, o, review) refl
    | inr (type, o) ↦ rw (e, o, review) refl
  ]
]

success-quiet :
    (ans : Answers) (f : Served) (st : StatusResponse) → (inspect_success false ans f st).acts ≡ []
unfolding inspect_success record_final
success-quiet ans f st = elim (Option-cases (final_command_type st.outcome)) [
  | inl o ↦ rw (o, inspect_success) refl
  | inr (type, o) ↦ elim (Bool-cases (st.status != "completed")) [
    | inl e ↦ rw (o, e, inspect_success) refl
    | inr e ↦ rw (o, e, inspect_success) refl
  ]
]

with_status-quiet :
    (r : Result String StatusResponse) (next : StatusResponse → Round)
    → ((st : StatusResponse) → (next st).acts ≡ [])
    → (with_status r next).acts ≡ []
with_status-quiet (err e) next h = refl
with_status-quiet (ok st) next h = h st

either-quiet : (b : Bool) (l k : Line) → (if b then prints l else prints k).acts ≡ []
either-quiet true l k = refl
either-quiet false l k = refl

module _ (version : String) (stale now : ℤ) (ans : Answers) (f : Served) where
  by_status-quiet :
      (status : WorkflowStatus) (w : KnownWorkflow)
      → (by_status false version stale now ans f status w).acts ≡ []
  unfolding by_status
  by_status-quiet pending w =
      either-quiet (not (int_ltb (now -ℤ w.updated_at) stale)) (escalate "stale_active") healthy
  by_status-quiet enqueued w =
      either-quiet (not (int_ltb (now -ℤ w.updated_at) stale)) (escalate "stale_active") healthy
  by_status-quiet delayed w =
      either-quiet (int_ltb now (w.delay_until +ℤ stale)) healthy (escalate "overdue_delay")
  by_status-quiet cancelled w = refl
  by_status-quiet failed w = refl
  by_status-quiet success w =
      with_status-quiet (ans.provider (asked_of f)) (inspect_success false ans f)
        (success-quiet ans f)
  by_status-quiet other w = refl

  of_listed-quiet :
      (ws : List KnownWorkflow) → (of_listed false version stale now ans f ws).acts ≡ []
  of_listed-quiet [] = refl
  of_listed-quiet (w ∷ ws) = by_status-quiet w.status w

  examine-quiet : (ws : List KnownWorkflow) → (examine false version stale now ans f ws).acts ≡ []
  unfolding examine
  examine-quiet ws = elim (Bool-cases (f.state == state_needs_review)) [
    | inl e ↦
        rw (e, examine)
          (with_status-quiet (ans.provider (asked_of f)) (review false ans f) (review-quiet ans f))
    | inr e ↦ rw (e, examine) (of_listed-quiet ws)
  ]

  examine_listed-quiet :
      (r : Result String (List KnownWorkflow))
      → (examine_listed false version stale now ans f r).acts ≡ []
  examine_listed-quiet (err e) = refl
  examine_listed-quiet (ok ws) = examine-quiet ws

report_after-quiet :
    (round : Round) (rest : Report)
    → round.acts ≡ []
    → rest.acts ≡ []
    → (report_after round rest).acts ≡ []
report_after-quiet round rest h k = elim (Result-cases round.line) [
  | inl (e, l) ↦ rw l h
  | inr (a, l) ↦ rw (l, h) k
]

-- Without -apply the tool only reports: whatever filings it meets and whatever it is answered, it sends
-- no command, deletes no workflow and enqueues none.
pub report_only :
    (version : String) (stale now : ℤ) (ans : Served → Answers) (fs : List Served)
    → (reconcile false version stale now ans fs).acts ≡ []
unfolding reconcile
report_only version stale now ans [] = refl
report_only version stale now ans (f ∷ fs) =
    report_after-quiet _ _ (examine_listed-quiet version stale now (ans f) f (ans f).listed)
      (report_only version stale now ans fs)
