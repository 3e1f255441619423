-- ===== src/Workflow/Tally.antt =====
-- What the counts of `Reconcile` of internal/workflow/filing.go add up to.
use dbos_conformance.Common.{
  ℕ, ◌+◌, ◌≤◌, String, ℤ, Bool, true, false, not, List, [], ◌∷◌, ◌==◌, ◌!=◌, string_eq,
  if◌then◌else◌, Result, ok, err, ◌≡◌, subst, arith, length, Bool-cases, inl, inr, ◌-ℤ◌, ◌+ℤ◌,
  int_ltb,
}
use dbos_conformance.Domain.{state_needs_review}
use dbos_conformance.Accountable.Queries.{Filing as Served}
use dbos_conformance.Authority.Submit.{StatusResponse}
use dbos_conformance.Workflow.Steps.{Action, Run, return, asks_status, and_then}
use dbos_conformance.Workflow.Outcome.{map_outcome, record_outcome}
use dbos_conformance.Workflow.Reconcile.{
  WorkflowStatus, cancelled, pending, enqueued, delayed, success, failed, other, KnownWorkflow,
  Start, started, conflicting, not_started, Looks, Counts, escalate, input_of, record_final,
  finalize, start_workflow, by_status, of_listed, reconcile_filing, reconcile,
}

-- The filings that ended in one of the three ways, and those whose failed workflow was deleted.
abbrev pub settled : Counts → ℕ
settled c = c.started + c.finalized + c.escalated

-- At most `n` more of each.
abbrev pub Within : ℕ → Counts → Counts → Type 0
Within n c c' = (settled c' ≤ settled c + n) × (c'.recreated ≤ c.recreated + n)

abbrev pub Ends : {A : Type 0} → (A → Type 0) → Result String A → Type 0
Ends P (ok a) = P a
Ends P (err e) = Unit

Ends-and_then :
    {A B : Type 0} (P : B → Type 0) (actions : List Action) (r : Result String A) (f : A → Run B)
    → ((a : A) → Ends P (f a).result)
    → Ends P (and_then actions r f).result
Ends-and_then P actions (err e) f h = tt
Ends-and_then P actions (ok a) f h = h a

module _ (looks : Looks) (f : Served) (c : Counts) where
  record_final-Within : (state : String) → Ends (Within 1 c) (record_final looks f state c).result
  unfolding record_final
  record_final-Within state =
      let m =
        record_outcome looks.recorded (input_of f) state "resolved by scheduled reconciliation" in
      Ends-and_then (Within 1 c) m.actions m.result
        (λ u. return (record c { finalized = c.finalized + 1 })) (λ u. (omega arith, omega arith))

  either-Within :
      (b : Bool) (m k : Run Counts)
      → Ends (Within 1 c) m.result
      → Ends (Within 1 c) k.result
      → Ends (Within 1 c) (if b then m else k).result
  either-Within true m k h l = h
  either-Within false m k h l = l

  escalate-Within : Ends (Within 1 c) (return (escalate c)).result
  escalate-Within = (omega arith, omega arith)

  finalize-Within : (st : StatusResponse) → Ends (Within 1 c) (finalize looks f st c).result
  unfolding finalize
  finalize-Within st = either-Within (st.status != "completed") _ _ escalate-Within (
      either-Within (map_outcome st.outcome == state_needs_review) _ _ escalate-Within
        (record_final-Within (map_outcome st.outcome)))

  start_workflow-Within : (s : Start) → Ends (Within 1 c) (start_workflow s c).result
  unfolding start_workflow
  start_workflow-Within started = (omega arith, omega arith)
  start_workflow-Within conflicting = (omega arith, omega arith)
  start_workflow-Within (not_started e) = tt

  recreate-Within :
      (s : Start)
      → Ends (Within 1 c) (start_workflow s (record c { recreated = c.recreated + 1 })).result
  unfolding start_workflow
  recreate-Within started = (omega arith, omega arith)
  recreate-Within conflicting = (omega arith, omega arith)
  recreate-Within (not_started e) = tt

  by_status-Within :
      (stale now : ℤ) (status : WorkflowStatus) (w : KnownWorkflow)
      → Ends (Within 1 c) (by_status stale now looks f status w c).result
  unfolding by_status
  by_status-Within stale now cancelled w = (omega arith, omega arith)
  by_status-Within stale now pending w =
      either-Within (not (int_ltb (now -ℤ w.updated_at) stale)) (return (escalate c)) (return c)
        escalate-Within (omega arith, omega arith)
  by_status-Within stale now enqueued w =
      either-Within (not (int_ltb (now -ℤ w.updated_at) stale)) (return (escalate c)) (return c)
        escalate-Within (omega arith, omega arith)
  by_status-Within stale now delayed w =
      either-Within (not (int_ltb now (w.delay_until +ℤ stale))) (return (escalate c)) (return c)
        escalate-Within (omega arith, omega arith)
  by_status-Within stale now success w =
      Ends-and_then (Within 1 c) (asks_status _ ∷ []) looks.inspected _ (λ st. finalize-Within st)
  by_status-Within stale now failed w =
      Ends-and_then (Within 1 c) [] looks.deleted _ (λ a. recreate-Within looks.start)
  by_status-Within stale now other w = (omega arith, omega arith)

  of_listed-Within :
      (stale now : ℤ) (ws : List KnownWorkflow)
      → Ends (Within 1 c) (of_listed stale now looks f ws c).result
  of_listed-Within stale now [] = start_workflow-Within looks.start
  of_listed-Within stale now (w ∷ ws) = by_status-Within stale now w.status w

  round-Within : (stale now : ℤ) → Ends (Within 1 c) (reconcile_filing stale now looks f c).result
  unfolding reconcile_filing
  round-Within stale now = elim (Bool-cases (f.state == state_needs_review)) [
    | inl e ↦
        rw (e, reconcile_filing)
          (Ends-and_then (Within 1 c) (asks_status _ ∷ []) looks.reviewed _
            (λ st. finalize-Within st))
    | inr e ↦
        rw (e, reconcile_filing)
          (Ends-and_then (Within 1 c) [] looks.listed _ (λ ws. of_listed-Within stale now ws))
  ]

Ends-chain :
    {A B : Type 0} (P : A → Type 0) (Q : B → Type 0) (actions : List Action) (r : Result String A)
    (f : A → Run B)
    → Ends P r
    → ((a : A) → P a → Ends Q (f a).result)
    → Ends Q (and_then actions r f).result
Ends-chain P Q actions (err e) f h k = tt
Ends-chain P Q actions (ok a) f h k = k a h

Ends-weaken :
    {A : Type 0} (P Q : A → Type 0) (r : Result String A)
    → Ends P r
    → ((a : A) → P a → Q a)
    → Ends Q r
Ends-weaken P Q (err e) h k = tt
Ends-weaken P Q (ok a) h k = k a h

reconcile-Within :
    (stale now : ℤ) (looks : ℕ → Looks) (i : ℕ) (fs : List Served) (c : Counts)
    → Ends (Within (length fs) c) (reconcile stale now looks i fs c).result
unfolding reconcile
reconcile-Within stale now looks i [] c = (omega arith, omega arith)
reconcile-Within stale now looks i (f ∷ fs) c =
    Ends-chain (Within 1 c) (Within (length (f ∷ fs)) c) _ _ _
      (round-Within (looks i) f c stale now)
      (λ c' h.
        Ends-weaken (Within (length fs) c') (Within (length (f ∷ fs)) c) _
          (reconcile-Within stale now looks (i + 1) fs c') (λ c'' k. (omega arith, omega arith)))

abbrev pub no_counts : Counts
no_counts = record { started = 0; finalized = 0; recreated = 0; escalated = 0 }

-- Where a reconciliation succeeds, the filings that it counts as started, finalized and escalated add
-- up to no more than the filings that were due, and it counts no more than those as recreated.
pub reconcile_counts_bounded :
    (stale now : ℤ) (looks : ℕ → Looks) (fs : List Served) (c : Counts)
    → (reconcile stale now looks 0 fs no_counts).result ≡ ok c
    → (settled c ≤ length fs) × (c.recreated ≤ length fs)
reconcile_counts_bounded stale now looks fs c h =
    let within : Within (length fs) no_counts c =
      subst (Ends (Within (length fs) no_counts)) h
        (reconcile-Within stale now looks 0 fs no_counts) in
    (omega (arith, within.0), omega (arith, within.1))
