-- ===== src/Domain/Tests.antt =====
-- The identities and the input decoder of internal/domain at concrete filings.
use dbos_conformance.Common.{String, pos, Option, some, ◌≡◌, refl, ok, arith, eq_iff}
use dbos_conformance.Domain.{FilingInput, scenario_ok}
use dbos_conformance.Domain.Json.{Json}
use dbos_conformance.Domain.Input.{encoded, decode_filing_input}
use dbos_conformance.Domain.Input.RoundTrip.{input_json, as_text, decode-Represents}
use dbos_conformance.Domain.Input.Fresh.{decode_afresh, decode-eq-afresh}
use dbos_conformance.Domain.Identity.{workflow_id}
use dbos_conformance.Domain.Identity.Distinct.{submission_intent, command_key_injective}
use dbos_conformance.Domain.Decimal.{show_int}

abbrev f1 : String
f1 = "f1"

workflow_id_of_f1 : workflow_id "f1" (pos 2024) ≡ "filing-f1-y2024"
unfolding workflow_id show_int
workflow_id_of_f1 = refl

command_key_injective_example :
    (submission_intent ≡ submission_intent) × (f1 ≡ f1) × (pos 2024 ≡ pos 2024)
command_key_injective_example =
    command_key_injective submission_intent submission_intent f1 f1 (pos 2024) (pos 2024) refl

abbrev input : FilingInput
input = record { filing_id = "f1"; tax_year = pos 2024; scenario = scenario_ok }

abbrev parse : String → Option Json
parse s = some (input_json input)

decode-Represents_example : decode_filing_input parse (encoded "text") ≡ ok input
decode-Represents_example =
    decode-Represents parse input (encoded "text") (λ h. ground (arith, eq_iff "f1" "")) refl
      (as_text "text" refl)

decode-eq-afresh_example :
    decode_filing_input parse (encoded "text") ≡ decode_afresh parse (encoded "text")
decode-eq-afresh_example = decode-eq-afresh parse (encoded "text")
