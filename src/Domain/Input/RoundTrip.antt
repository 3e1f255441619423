-- ===== src/Domain/Input/RoundTrip.antt =====
-- Whatever form DBOS gives a persisted input, internal/domain/input.go reads the same input.
use dbos_conformance.Common.{
  String, true, Option, some, string_eq, ◌≡◌, ◌≢◌, refl, arith, eq_iff, ok,
}
use dbos_conformance.Domain.{FilingInput}
use dbos_conformance.Domain.Json.{
  Json, object, array, text, integer, cons, nil, member, end, is_int64, unmarshal_input,
  single_item,
}
use dbos_conformance.Domain.Input.{
  left, Persisted, typed, encoded, other, no_input, found, try_input, try_json, try_text,
  try_argument, decode_filing_input,
}

-- json.Marshal of an input.
abbrev pub input_json : FilingInput → Json
input_json input = object (
    member "filing_id" (text input.filing_id)
      (member "tax_year" (integer input.tax_year) (member "scenario" (text input.scenario) end)))

-- The forms in which an input is persisted: as it is, as a JSON object, as the only argument in a
-- list, and either of these as a text.
pub data Represents (parse : String → Option Json) (input : FilingInput) : Persisted → Type 0 where
  as_typed : Represents parse input (typed input)
  as_object : Represents parse input (other (input_json input))
  as_argument : Represents parse input (other (array (cons (input_json input) nil)))
  as_text : (s : String) → parse s ≡ some (input_json input) → Represents parse input (encoded s)
  as_text_argument :
      (s : String)
      → parse s ≡ some (array (cons (input_json input) nil))
      → Represents parse input (encoded s)

module _ (input : FilingInput) (named : input.filing_id ≢ "")
    (bounded : is_int64 input.tax_year ≡ true) where
  try_input_json : (direct : FilingInput) → try_input (input_json input) direct ≡ found input
  unfolding try_input unmarshal_input
  try_input_json direct = ground (arith, eq_iff input.filing_id "")

  try_json_object : (direct : FilingInput) → try_json (input_json input) direct ≡ found input
  unfolding try_json
  try_json_object direct = rw (try_input_json direct)

  try_input_array :
      (direct : FilingInput) → try_input (array (cons (input_json input) nil)) direct ≡ left direct
  unfolding try_input unmarshal_input
  try_input_array direct = refl

  try_json_array :
      (direct : FilingInput) → try_json (array (cons (input_json input) nil)) direct ≡ found input
  unfolding try_json try_argument single_item
  try_json_array direct = rw (try_input_array direct, try_input_json direct)

  try_json_text : (s : String) (direct : FilingInput) → try_json (text s) direct ≡ left direct
  unfolding try_json try_argument single_item try_input unmarshal_input
  try_json_text s direct = refl

-- A named input with a 64-bit tax year is read back from each form in which it is persisted, whatever
-- the text parser does with other texts.
pub decode-Represents :
    (parse : String → Option Json) (input : FilingInput) (p : Persisted)
    → input.filing_id ≢ ""
    → is_int64 input.tax_year ≡ true
    → Represents parse input p
    → decode_filing_input parse p ≡ ok input
unfolding decode_filing_input try_text
decode-Represents parse input _ named bounded as_typed = refl
decode-Represents parse input _ named bounded as_object =
    rw (try_json_object input named bounded no_input)
decode-Represents parse input _ named bounded as_argument =
    rw (try_json_array input named bounded no_input)
decode-Represents parse input _ named bounded (as_text s e) = rw (
  try_json_text input named bounded s no_input,
  try_text,
  e,
  try_json_object input named bounded no_input,
)
decode-Represents parse input _ named bounded (as_text_argument s e) = rw (
  try_json_text input named bounded s no_input,
  try_text,
  e,
  try_json_array input named bounded no_input,
)
