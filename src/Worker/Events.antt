-- ===== src/Worker/Events.antt =====
-- `consumeEvents` of cmd/worker/main.go: what one poll of the topic does to its records. Kafka, DBOS and
-- the service are given by what they answer while one record is handled.
use dbos_conformance.Common.{
  ℕ, String, ℤ, Bool, true, false, ◌&&◌, ◌||◌, Option, none, some, List, [], ◌∷◌, ◌==◌, ◌!=◌,
  string_eq, int_eq, if◌then◌else◌, Result, ok, err,
}
use dbos_conformance.Domain.{FilingEvent, FilingInput, input_eq}
use dbos_conformance.Domain.Identity.{workflow_id}
use dbos_conformance.Domain.Json.{Json}
use dbos_conformance.Domain.Input.{Persisted, decode_filing_input}
use dbos_conformance.Accountable.Handlers.{WorkflowStartConflict}
use dbos_conformance.Accountable.Client.{report_conflict}

-- A record of the topic, with what json decoding makes of its value.
pub record Event : Type 0 where
  pub topic : String
  pub partition : ℤ
  pub offset : ℤ
  pub value : Option FilingEvent

-- dbos.RunWorkflow: started, refused with ConflictingWorkflowError, or another error.
pub data Start : Type 0 where
  started conflicting start_failed : Start

-- dbos.RunWorkflow is asked for a workflow ID and an input. dbos.ListWorkflows gives the inputs of the
-- workflows with the ID that it is asked for, at most one of them; `exchange` is
-- the HTTP exchange that records a conflict.
pub record Looks : Type 0 where
  pub start : String → FilingInput → Start
  pub listed : String → Result String (List Persisted)
  pub exchange : Result String ℕ

pub record TopicPartition : Type 0 where
  pub topic : String
  pub partition : ℤ

abbrev pub partition_of : Event → TopicPartition
partition_of e = record { topic = e.topic; partition = e.partition }

abbrev pub same_partition : TopicPartition → TopicPartition → Bool
same_partition a b = a.topic == b.topic && a.partition == b.partition

abbrev pub is_blocked : TopicPartition → List TopicPartition → Bool
is_blocked tp [] = false
is_blocked tp (b ∷ bs) = same_partition b tp || is_blocked tp bs

abbrev pub requested_by : FilingEvent → FilingInput
requested_by ev = record {
  filing_id = ev.filing_id;
  tax_year = ev.tax_year;
  scenario = ev.scenario;
}

abbrev pub workflow_of : FilingEvent → String
workflow_of ev = workflow_id ev.filing_id ev.tax_year

abbrev pub is_recorded : Result String (Unit {0}) → Bool
is_recorded (ok done) = true
is_recorded (err e) = false

abbrev pub settles : Looks → Option WorkflowStartConflict → Bool
settles looks none = true
settles looks (some conflict) = is_recorded (report_conflict looks.exchange)

module _ (parse : String → Option Json) (render : FilingInput → String) where
  -- The conflict that is put on record; `render` is json.Marshal.
  abbrev pub conflict_of : FilingEvent → FilingInput → WorkflowStartConflict
  conflict_of ev existing = record {
    event_id = ev.event_id;
    filing_id = ev.filing_id;
    tax_year = ev.tax_year;
    existing_input = render existing;
    requested_input = render (requested_by ev);
  }

  -- The conflict to record for the persisted input that was read back, if they differ.
  abbrev pub conflict_with : FilingEvent → FilingInput → Option WorkflowStartConflict
  conflict_with ev existing =
      if existing != requested_by ev then some (conflict_of ev existing) else none

  -- The check of the persisted input.
  unfoldable pub verify_input : Looks → FilingEvent → Result String (List Persisted) → Bool
  unfolding report_conflict
  verify_input looks ev (err e) = false
  verify_input looks ev (ok []) = false
  verify_input looks ev (ok (p ∷ q ∷ ps)) = false
  verify_input looks ev (ok (p ∷ [])) = elim (decode_filing_input parse p) [
    | err e ↦ false
    | ok existing ↦ settles looks (conflict_with ev existing)
  ]

  -- The event has its workflow, or its conflict is on record.
  unfoldable pub start_event : Looks → FilingEvent → Bool
  unfolding verify_input
  start_event looks ev = elim (looks.start (workflow_of ev) (requested_by ev)) [
    | start_failed ↦ false
    | started ↦ verify_input looks ev (looks.listed (workflow_of ev))
    | conflicting ↦ verify_input looks ev (looks.listed (workflow_of ev))
  ]

  -- The record may be committed. An event that cannot be decoded is skipped.
  abbrev pub is_processed : Looks → Option FilingEvent → Bool
  is_processed looks none = true
  is_processed looks (some ev) = start_event looks ev

  -- fetches.EachRecord: the records to commit, with the blocked partitions so far. The records of one
  -- partition come in the order of their offsets.
  unfoldable pub each_record : (Event → Looks) → List TopicPartition → List Event → List Event
  unfolding start_event
  each_record looks blocked [] = []
  each_record looks blocked (e ∷ es) =
      let skipped = each_record looks blocked es in
      let barred = each_record looks (partition_of e ∷ blocked) es in
      if is_blocked (partition_of e) blocked
      then skipped
      else if is_processed (looks e) e.value
      then e ∷ skipped
      else barred

  -- One round of the loop: the records of client.CommitRecords, if there are any.
  abbrev pub commits : (Event → Looks) → List Event → List Event
  commits looks es = each_record looks [] es
