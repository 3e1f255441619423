-- ===== src/Operator/Enqueue.antt =====
-- `enqueueFiling` of cmd/opsctl/main.go: the start of one workflow, verified by its persisted input.
use Prim.Native.String as Text
use dbos_conformance.Common.{
  ℕ, String, Option, none, some, List, [], ◌∷◌, ◌!=◌, string_eq, if◌then◌else◌, Result, ok, err,
  length,
}
use dbos_conformance.Domain.{FilingInput, input_eq}
use dbos_conformance.Domain.Json.{Json}
use dbos_conformance.Domain.Input.{Persisted, DecodeError, decode_filing_input}
use dbos_conformance.Accountable.Handlers.{WorkflowStartConflict}
use dbos_conformance.Accountable.Client.{report_conflict}

-- client.Enqueue: enqueued, refused with ConflictingWorkflowError, or another error, with their texts.
pub data Enqueued : Type 0 where
  enqueued : Enqueued
  conflicting : String → Enqueued
  enqueue_failed : String → Enqueued

pub data EnqueueError : Type 0 where
  not_enqueued : String → EnqueueError
  not_listed : String → EnqueueError
  found_workflows : ℕ → EnqueueError
  not_decoded : DecodeError → EnqueueError
  not_recorded : String → EnqueueError
  already_exists : FilingInput → FilingInput → EnqueueError

-- client.Enqueue by the workflow ID and the input, client.ListWorkflows by the ID.
pub record Answers : Type 0 where
  pub enqueue : String → FilingInput → Enqueued
  pub listed : String → Result String (List Persisted)
  pub exchange : Result String ℕ

-- `digest` is the hexadecimal SHA-256 of a text, `render` is json.Marshal.
module _ (parse : String → Option Json) (render : FilingInput → String)
    (digest : String → String) where
  abbrev pub direct_conflict : FilingInput → FilingInput → WorkflowStartConflict
  direct_conflict existing requested = record {
    event_id = Text.◌++◌ "opsctl-" (digest (Text.◌++◌ (render existing) (render requested)));
    filing_id = requested.filing_id;
    tax_year = requested.tax_year;
    existing_input = render existing;
    requested_input = render requested;
  }

  abbrev pub refuse_conflict : Answers → FilingInput → FilingInput → Result EnqueueError (Unit {0})
  refuse_conflict ans existing requested = elim (report_conflict ans.exchange) [
    | err e ↦ err (not_recorded e)
    | ok done ↦ err (already_exists existing requested)
  ]

  -- The result, and the conflict that the service is told.
  abbrev pub compare_inputs :
      Answers
      → FilingInput
      → FilingInput
      → Result EnqueueError (Unit {0}) × Option WorkflowStartConflict
  compare_inputs ans existing requested =
      if existing != requested
      then (refuse_conflict ans existing requested, some (direct_conflict existing requested))
      else (ok tt, none)

  unfoldable pub verify_start :
      Answers
      → FilingInput
      → Result String (List Persisted)
      → Result EnqueueError (Unit {0}) × Option WorkflowStartConflict
  unfolding report_conflict
  verify_start ans requested (err e) = (err (not_listed e), none)
  verify_start ans requested (ok []) = (err (found_workflows 0), none)
  verify_start ans requested (ok (p ∷ q ∷ ps)) = (err (found_workflows (length (p ∷ q ∷ ps))), none)
  verify_start ans requested (ok (p ∷ [])) = elim (decode_filing_input parse p) [
    | err e ↦ (err (not_decoded e), none)
    | ok existing ↦ compare_inputs ans existing requested
  ]

  unfoldable pub enqueue_filing :
      Answers → String → FilingInput → Result EnqueueError (Unit {0}) × Option WorkflowStartConflict
  unfolding verify_start
  enqueue_filing ans id requested = elim (ans.enqueue id requested) [
    | enqueue_failed e ↦ (err (not_enqueued e), none)
    | enqueued ↦ verify_start ans requested (ans.listed id)
    | conflicting e ↦ verify_start ans requested (ans.listed id)
  ]
