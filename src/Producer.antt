-- ===== src/Producer.antt =====
-- cmd/producer/main.go: the events that one call of the producer publishes. `env` is os.Getenv, `now` is
-- time.Now().UnixNano(), and `marshal` is json.Marshal.
use Prim.Native.String as Text
use dbos_conformance.Common.{
  ℕ, zero, suc, ◌+◌, String, ℤ, Option, none, some, List, [], ◌∷◌, ◌==◌, string_eq, if◌then◌else◌,
  env_or,
}
use dbos_conformance.Domain.{FilingEvent}
use dbos_conformance.Domain.Decimal.{show_int}
use dbos_conformance.Accountable.Handlers.{rounds_of}

-- The flags, as they are read.
pub record Flags : Type 0 where
  pub filing : String
  pub year : ℤ
  pub scenario : String
  pub dup : ℤ

-- kgo.Record, with the fields that are set.
pub record Message : Type 0 where
  pub topic : String
  pub key : String
  pub value : String

unfoldable pub event_of : Flags → ℤ → FilingEvent
unfolding show_int
event_of flags now = record {
  event_id = Text.◌++◌ "evt-" (Text.◌++◌ flags.filing (Text.◌++◌ "-" (show_int now)));
  filing_id = flags.filing;
  tax_year = flags.year;
  scenario = flags.scenario;
}

-- The loop: `n` messages are left, the next one is number `i`. The acknowledged messages, and the error
-- that ends the process, if any; `produce` is what ProduceSync returns for the message of a round.
unfoldable pub produce_all : (ℕ → Option String) → Message → ℕ → ℕ → List Message × Option String
produce_all produce message zero i = ([], none)
produce_all produce message (suc n) i =
    let (sent, error) = produce_all produce message n (i + 1) in
    elim (produce i) [ some e ↦ ([], some e) | none ↦ (message ∷ sent, error) ]

unfoldable pub publish :
    (String → String)
    → (FilingEvent → String)
    → (ℕ → Option String)
    → ℤ
    → Flags
    → List Message × Option String
unfolding produce_all event_of
publish env marshal produce now flags =
    if flags.filing == ""
    then ([], some "-filing is required")
    else (let topic = env_or env "KAFKA_TOPIC" "filing-events" in
        let message : Message = record {
          topic = topic;
          key = flags.filing;
          value = marshal (event_of flags now);
        } in
        produce_all produce message (rounds_of flags.dup) 0)
