-- ===== src/Worker/Tests.antt =====
-- cmd/worker/main.go at concrete records and callbacks.
use dbos_conformance.Common.{
  String, pos, true, Option, none, some, List, [], ◌∷◌, ok, err, ◌≡◌, ◌↔◌, refl, All,
}
use dbos_conformance.Domain.{Callback, FilingEvent, FilingInput, scenario_ok}
use dbos_conformance.Domain.Json.{Json}
use dbos_conformance.Domain.Input.{typed, decode_filing_input}
use dbos_conformance.Authority.Ledger.{Server, new_server}
use dbos_conformance.Worker.Events.{
  Event, started, Looks, partition_of, requested_by, commits, is_processed, each_record,
}
use dbos_conformance.Worker.Offsets.{on_partition, before_failure, commits_until_failure}
use dbos_conformance.Worker.Settled.{Settled, commits-Settled, processed_iff_Settled}

abbrev callback : Callback
callback = record {
  callback_id = "op1-cb1";
  submission_id = "op1";
  outcome = "accepted";
  detail = "";
}

abbrev server : Server
server = new_server (record {
  completion_delay = pos 0;
  ambiguous_completion_delay = pos 0;
  delayed_completion_delay = pos 0;
  late_callback_delay = pos 0;
  lost_response_delay = pos 0;
})

abbrev filed : FilingEvent
filed = record { event_id = "e1"; filing_id = "f1"; tax_year = pos 2024; scenario = scenario_ok }

abbrev event : Option FilingEvent → Event
event value = record { topic = "filing-events"; partition = pos 0; offset = pos 7; value = value }

abbrev parse : String → Option Json
parse s = none

abbrev render : FilingInput → String
render input = "{}"

abbrev looks : Event → Looks
looks e = record {
  start = λ id input. started;
  listed = λ id. ok (typed (requested_by filed) ∷ []);
  exchange = err "unused";
}

abbrev events : List Event
events = event none ∷ event (some filed) ∷ event (some (record filed { scenario = "delayed" })) ∷ []

-- The third event conflicts and cannot be put on record.
commits_two : commits parse render looks events ≡ event none ∷ event (some filed) ∷ []
unfolding each_record decode_filing_input
commits_two = refl

commits_until_failure_example :
    on_partition (partition_of (event none)) (commits parse render looks events)
    ≡ before_failure
        (λ e. is_processed parse render (looks e) e.value)
        (on_partition (partition_of (event none)) events)
commits_until_failure_example =
    commits_until_failure parse render looks (partition_of (event none)) events

commits-Settled_example :
    All (λ e. Settled parse (looks e) e.value) (commits parse render looks events)
commits-Settled_example = commits-Settled parse render looks events

processed_iff_Settled_example :
    (is_processed parse render (looks (event none)) (some filed) ≡ true)
    ↔ Settled parse (looks (event none)) (some filed)
processed_iff_Settled_example = processed_iff_Settled parse render (looks (event none)) (some filed)
