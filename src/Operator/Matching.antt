-- ===== src/Operator/Matching.antt =====
-- How a round of `reconcile -apply` of cmd/opsctl/main.go is held against a round of `Reconcile` of
-- internal/workflow/filing.go that sees the same.
use dbos_conformance.Common.{◌+◌, String, List, [], string_eq, Result, ok, err, ◌≡◌, ◌⊎◌}
use dbos_conformance.Operator.Evidence.{HasFailed}
use dbos_conformance.Accountable.Queries.{Filing as Served}
use dbos_conformance.Workflow.Reconcile.{
  KnownWorkflow, Counts, Looks, Start, started, conflicting, not_started,
}
use dbos_conformance.Operator.Enqueue as Enqueue
use dbos_conformance.Operator.Enqueue.{Enqueued}
use dbos_conformance.Operator.Reconcile.{
  asked_of, Answers, Line, escalate, final, finalized, healthy, recreate, recreated_failed, missing,
  recreated_missing,
}

-- dbos.RunWorkflow as the safety net sees it, by what client.Enqueue tells the tool.
abbrev pub start_of : Enqueued → Start
start_of Enqueue.enqueued = started
start_of (Enqueue.conflicting e) = conflicting
start_of (Enqueue.enqueue_failed e) = not_started e

-- The same answers, as the safety net sees them.
abbrev pub looks_of : Answers → List KnownWorkflow → Served → Looks
looks_of ans ws f = record {
  reviewed = ans.provider (asked_of f);
  listed = ok ws;
  inspected = ans.provider (asked_of f);
  recorded = ans.applied;
  deleted = ans.deleted;
  start = start_of ans.enqueue;
}

-- How the safety net counts what the tool prints.
abbrev pub counted : Line → Counts → Counts
counted (escalate reason) c = record c { escalated = c.escalated + 1 }
counted final c = c
counted finalized c = record c { finalized = c.finalized + 1 }
counted healthy c = c
counted recreate c = c
counted recreated_failed c = record c { recreated = c.recreated + 1; started = c.started + 1 }
counted missing c = c
counted recreated_missing c = record c { started = c.started + 1 }

abbrev pub count_line : Result String Line → Counts → Result String Counts
count_line (ok line) c = ok (counted line c)
count_line (err e) c = err e

-- The end of the start is ConflictingWorkflowError: the tool exits with it, and the safety net goes on
-- with the next filing, counting only that it has deleted a failed workflow, where it has.
pub record Parts (ans : Answers) (c : Counts) (net : Result String Counts)
    (tool : Result String Line) : Type 0 where
  pub error : String
  pub conflict : ans.enqueue ≡ Enqueue.conflicting error
  pub exits : tool ≡ err error
  pub goes_on :
      ((ans.listed ≡ ok []) × (net ≡ ok c))
      ⊎ (HasFailed ans × (net ≡ ok (record c { recreated = c.recreated + 1 })))

-- The round of the tool ends like the round of the safety net, or at the conflict.
abbrev pub Matches : Answers → Counts → Result String Counts → Result String Line → Type 0
Matches ans c net tool = (net ≡ count_line tool c) ⊎ Parts ans c net tool
