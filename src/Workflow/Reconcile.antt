-- ===== src/Workflow/Reconcile.antt =====
-- `Reconcile` of internal/workflow/filing.go: the scheduled safety net. What the DBOS runtime, the
-- service and the provider answer in the round of one filing is a parameter.
use dbos_conformance.Common.{
  ℕ, ◌+◌, String, ℤ, not, List, [], ◌∷◌, ◌==◌, ◌!=◌, string_eq, if◌then◌else◌, Result, ◌+ℤ◌, ◌-ℤ◌,
  int_ltb,
}
use dbos_conformance.Domain.{FilingInput, state_needs_review}
use dbos_conformance.Accountable.Command.{CommandResult}
use dbos_conformance.Accountable.Queries.{Filing as Served}
use dbos_conformance.Authority.Submit.{StatusResponse}
use dbos_conformance.Workflow.Steps.{Run, return, raise, step, asks_status, ◌>>=◌, ◌>>◌}
use dbos_conformance.Workflow.Outcome.{operation_of, map_outcome, record_outcome}

-- The constants dbos.WorkflowStatus…; `other` is any further one.
pub data WorkflowStatus : Type 0 where
  cancelled pending enqueued delayed success failed other : WorkflowStatus

-- The fields of dbos.WorkflowStatus that are read.
pub record KnownWorkflow : Type 0 where
  pub status : WorkflowStatus
  pub updated_at : ℤ
  pub delay_until : ℤ

-- dbos.RunWorkflow: started, refused with ConflictingWorkflowError, or another error.
pub data Start : Type 0 where
  started : Start
  conflicting : Start
  not_started : String → Start

pub record Looks : Type 0 where
  pub reviewed : Result String StatusResponse
  pub listed : Result String (List KnownWorkflow)
  pub inspected : Result String StatusResponse
  pub recorded : Result String CommandResult
  pub deleted : Result String (Unit {0})
  pub start : Start

pub record Counts : Type 0 where
  pub started : ℕ
  pub finalized : ℕ
  pub recreated : ℕ
  pub escalated : ℕ

abbrev pub escalate : Counts → Counts
escalate c = record c { escalated = c.escalated + 1 }

abbrev pub input_of : Served → FilingInput
input_of f = record { filing_id = f.filing_id; tax_year = f.tax_year; scenario = f.scenario }

unfoldable pub record_final : Looks → Served → String → Counts → Run Counts
unfolding record_outcome
record_final looks f state c = do
  record_outcome looks.recorded (input_of f) state "resolved by scheduled reconciliation"
  return (record c { finalized = c.finalized + 1 })

-- The provider's outcome goes on record, if it is one.
unfoldable pub finalize : Looks → Served → StatusResponse → Counts → Run Counts
unfolding record_final map_outcome
finalize looks f st c =
    if st.status != "completed"
    then return (escalate c)
    else if map_outcome st.outcome == state_needs_review
    then return (escalate c)
    else record_final looks f (map_outcome st.outcome) c

unfoldable pub start_workflow : Start → Counts → Run Counts
start_workflow started c = return (record c { started = c.started + 1 })
start_workflow conflicting c = return c
start_workflow (not_started e) c = raise e

-- The switch on the status of the workflow that the runtime has.
unfoldable pub by_status :
    ℤ → ℤ → Looks → Served → WorkflowStatus → KnownWorkflow → Counts → Run Counts
unfolding finalize start_workflow
by_status stale now looks f cancelled w c = return (escalate c)
by_status stale now looks f pending w c =
    if not (int_ltb (now -ℤ w.updated_at) stale) then return (escalate c) else return c
by_status stale now looks f enqueued w c =
    if not (int_ltb (now -ℤ w.updated_at) stale) then return (escalate c) else return c
by_status stale now looks f delayed w c =
    if not (int_ltb now (w.delay_until +ℤ stale)) then return (escalate c) else return c
by_status stale now looks f success w c = do
  st ← step (asks_status (operation_of (input_of f))) looks.inspected
  finalize looks f st c
by_status stale now looks f failed w c = do
  gone ← record { actions = []; result = looks.deleted }
  start_workflow looks.start (record c { recreated = c.recreated + 1 })
by_status stale now looks f other w c = return (escalate c)

abbrev pub of_listed : ℤ → ℤ → Looks → Served → List KnownWorkflow → Counts → Run Counts
of_listed stale now looks f [] c = start_workflow looks.start c
of_listed stale now looks f (w ∷ ws) c = by_status stale now looks f w.status w c

-- One round of the loop.
unfoldable pub reconcile_filing : ℤ → ℤ → Looks → Served → Counts → Run Counts
unfolding by_status finalize
reconcile_filing stale now looks f c =
    if f.state == state_needs_review
    then (do
      st ← step (asks_status (operation_of (input_of f))) looks.reviewed
      finalize looks f st c)
    else (do
      wfs ← record { actions = []; result = looks.listed }
      of_listed stale now looks f wfs c)

-- The loop over the filings that are due; the first is number `i`.
unfoldable pub reconcile : ℤ → ℤ → (ℕ → Looks) → ℕ → List Served → Counts → Run Counts
unfolding reconcile_filing
reconcile stale now looks i [] c = return c
reconcile stale now looks i (f ∷ fs) c = do
  c' ← reconcile_filing stale now (looks i) f c
  reconcile stale now looks (i + 1) fs c'
