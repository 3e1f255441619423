-- ===== src/Worker/Settled.antt =====
-- What has happened to an event before cmd/worker/main.go commits it.
use dbos_conformance.Common.{
  String, true, Option, none, some, List, [], ◌∷◌, ◌==◌, string_eq, Result, ok, err, All, ◌≡◌, ◌≢◌,
  refl, arith, Bool-cases, Result-cases, inl, inr, ◌⊎◌, ◌↔◌,
}
use dbos_conformance.Domain.{FilingEvent, FilingInput, input_eq, input_beq_iff}
use dbos_conformance.Domain.Json.{Json}
use dbos_conformance.Domain.Input.{Persisted, decode_filing_input}
use dbos_conformance.Accountable.Client.{report_conflict}
use dbos_conformance.Domain.Identity.{workflow_id}
use dbos_conformance.Worker.Events.{
  workflow_of, Event, Start, started, conflicting, start_failed, Looks, requested_by, conflict_with,
  is_recorded, settles, is_processed, each_record, commits, start_event, verify_input,
  TopicPartition, is_blocked, partition_of,
}

-- DBOS started the workflow or has it, and lists exactly one with the event's ID, whose input is the
-- event's, or the service has the conflict of the two inputs on record.
pub data HasWorkflow (parse : String → Option Json) (looks : Looks) (ev : FilingEvent)
    : Type 0 where
  has_workflow :
      (p : Persisted) (existing : FilingInput)
      → looks.start (workflow_id ev.filing_id ev.tax_year) (requested_by ev) ≢ start_failed
      → looks.listed (workflow_id ev.filing_id ev.tax_year) ≡ ok (p ∷ [])
      → decode_filing_input parse p ≡ ok existing
      → (existing ≡ requested_by ev) ⊎ (report_conflict looks.exchange ≡ ok tt)
      → HasWorkflow parse looks ev

-- An event without a value is not for the program.
abbrev pub Settled : (String → Option Json) → Looks → Option FilingEvent → Type 0
Settled parse looks none = Unit
Settled parse looks (some ev) = HasWorkflow parse looks ev

is_recorded-ok : (r : Result String (Unit {0})) → is_recorded r ≡ true → r ≡ ok tt
is_recorded-ok (ok done) h = refl
is_recorded-ok (err e) h = ground arith

module _ (parse : String → Option Json) (render : FilingInput → String) (looks : Looks)
    (ev : FilingEvent) where
  settles_lem :
      (existing : FilingInput)
      → settles looks (conflict_with parse render ev existing) ≡ true
      → (existing ≡ requested_by ev) ⊎ (report_conflict looks.exchange ≡ ok tt)
  settles_lem existing h = elim (Bool-cases (existing == requested_by ev)) [
    | inl e ↦ inl ((input_beq_iff existing (requested_by ev)).0 e)
    | inr e ↦ inr (is_recorded-ok (report_conflict looks.exchange) (ground arith))
  ]

  verify_input_lem :
      (listed : Result String (List Persisted))
      → looks.start (workflow_of ev) (requested_by ev) ≢ start_failed
      → looks.listed (workflow_of ev) ≡ listed
      → verify_input parse render looks ev listed ≡ true
      → HasWorkflow parse looks ev
  unfolding verify_input
  verify_input_lem (err e) began at h = ground arith
  verify_input_lem (ok []) began at h = ground arith
  verify_input_lem (ok (p ∷ q ∷ ps)) began at h = ground arith
  verify_input_lem (ok (p ∷ [])) began at h = elim (Result-cases (decode_filing_input parse p)) [
    | inl (e, d) ↦ let bad = rw (d, verify_input) at h in ground arith
    | inr (existing, d) ↦
        has_workflow p existing began at d (settles_lem existing (rw (d, verify_input) at h))
  ]

  start_cases :
      (s : Start)
      → looks.start (workflow_of ev) (requested_by ev) ≡ s
      → start_event parse render looks ev ≡ true
      → HasWorkflow parse looks ev
  unfolding start_event
  start_cases start_failed at h = let bad = rw (at, start_event) at h in ground arith
  start_cases started at h =
      verify_input_lem (looks.listed (workflow_of ev)) (ground arith) refl
        (rw (at, start_event) at h)
  start_cases conflicting at h =
      verify_input_lem (looks.listed (workflow_of ev)) (ground arith) refl
        (rw (at, start_event) at h)

  settles_back :
      (existing : FilingInput)
      → (existing ≡ requested_by ev) ⊎ (report_conflict looks.exchange ≡ ok tt)
      → settles looks (conflict_with parse render ev existing) ≡ true
  settles_back existing (inl same) =
      let equal = (input_beq_iff existing (requested_by ev)).1 same in rw equal refl
  settles_back existing (inr recorded) = elim (Bool-cases (existing == requested_by ev)) [
    | inl e ↦ rw e refl
    | inr e ↦ rw (e, recorded) refl
  ]

  start_back :
      (s : Start)
      → looks.start (workflow_of ev) (requested_by ev) ≡ s
      → HasWorkflow parse looks ev
      → start_event parse render looks ev ≡ true
  unfolding start_event verify_input
  start_back start_failed at (has_workflow p existing began listed decoded told) = absurd (began at)
  start_back started at (has_workflow p existing began listed decoded told) =
      rw (at, start_event, listed, verify_input, decoded) (settles_back existing told)
  start_back conflicting at (has_workflow p existing began listed decoded told) =
      rw (at, start_event, listed, verify_input, decoded) (settles_back existing told)

-- A record may be committed exactly if it is settled: its value is no event, or the start ended well or
-- with a conflict, DBOS lists one workflow with the ID, its input can be decoded, and this input is the
-- event's or the service has acknowledged a record of the conflict.
pub processed_iff_Settled :
    (parse : String → Option Json) (render : FilingInput → String) (looks : Looks)
    (value : Option FilingEvent)
    → (is_processed parse render looks value ≡ true) ↔ Settled parse looks value
processed_iff_Settled parse render looks none = (λ h. tt, λ s. refl)
processed_iff_Settled parse render looks (some ev) = (
  start_cases parse render looks ev (looks.start (workflow_of ev) (requested_by ev)) refl,
  start_back parse render looks ev (looks.start (workflow_of ev) (requested_by ev)) refl,
)

each_record-Settled :
    (parse : String → Option Json) (render : FilingInput → String) (looks : Event → Looks)
    (blocked : List TopicPartition) (es : List Event)
    → All (λ e. Settled parse (looks e) e.value) (each_record parse render looks blocked es)
unfolding each_record
each_record-Settled parse render looks blocked [] = tt
each_record-Settled parse render looks blocked (e ∷ es) =
    elim (Bool-cases (is_blocked (partition_of e) blocked)) [
      | inl b ↦ rw (b, each_record) (each_record-Settled parse render looks blocked es)
      | inr b ↦ elim (Bool-cases (is_processed parse render (looks e) e.value)) [
        | inl d ↦
            rw (b, d, each_record)
              (handled e.value d, each_record-Settled parse render looks blocked es)
        | inr d ↦
            rw (b, d, each_record)
              (each_record-Settled parse render looks (partition_of e ∷ blocked) es)
      ]
    ]
  where
    handled :
        (value : Option FilingEvent)
        → is_processed parse render (looks e) value ≡ true
        → Settled parse (looks e) value
    handled none h = tt
    handled (some ev) h =
        start_cases parse render (looks e) ev ((looks e).start (workflow_of ev) (requested_by ev))
          refl h

-- Every record that a poll commits is settled: its value is no event, or its workflow could be started
-- or was there before, and the only workflow with its ID has the event's input or the service has
-- acknowledged the record of the conflict.
pub commits-Settled :
    (parse : String → Option Json) (render : FilingInput → String) (looks : Event → Looks)
    (es : List Event)
    → All (λ e. Settled parse (looks e) e.value) (commits parse render looks es)
commits-Settled parse render looks es = each_record-Settled parse render looks [] es
