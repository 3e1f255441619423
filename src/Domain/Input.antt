-- ===== src/Domain/Input.antt =====
-- `DecodeFilingInput` of internal/domain/input.go. `parse` is the text parser of encoding/json: it is
-- given as a function, `none` where the text is no JSON.
pub mod RoundTrip
pub mod Fresh
use dbos_conformance.Common.{
  String, ℤ, pos, Bool, ◌&&◌, Option, none, some, ◌!=◌, string_eq, if◌then◌else◌, Result, ok, err,
}
use dbos_conformance.Domain.{FilingInput}
use dbos_conformance.Domain.Json.{Json, text, unmarshal_input, single_item}

-- The `any` that DBOS hands back: a FilingInput, a string, another value by the JSON that
-- json.Marshal makes of it, or one that cannot be marshalled.
pub data Persisted : Type 0 where
  typed : FilingInput → Persisted
  encoded : String → Persisted
  other : Json → Persisted
  unencodable : Persisted

pub data DecodeError : Type 0 where
  not_encodable : DecodeError
  unsupported : DecodeError

abbrev pub no_input : FilingInput
no_input = record { filing_id = ""; tax_year = pos 0; scenario = "" }

-- An attempt to decode: it returns from the function, or leaves the variable `direct` behind.
pub data Tried : Type 0 where
  found : FilingInput → Tried
  left : FilingInput → Tried

abbrev pub or_else : Tried → (FilingInput → Tried) → Tried
or_else (found input) next = found input
or_else (left direct) next = next direct

-- `if err := json.Unmarshal(raw, &direct); err == nil && direct.FilingID != "" { return direct, nil }`
unfoldable pub try_input : Json → FilingInput → Tried
try_input raw direct =
    let (direct', fine) = unmarshal_input raw direct in
    if fine && direct'.filing_id != "" then found direct' else left direct'

unfoldable pub try_argument : Json → FilingInput → Tried
try_argument raw direct = elim (single_item raw) [
  | none ↦ left direct
  | some arg ↦ try_input arg direct
]

-- A value, or the only item of a list of arguments.
unfoldable pub try_json : Json → FilingInput → Tried
try_json raw direct = or_else (try_input raw direct) (try_argument raw)

unfoldable pub try_text : (String → Option Json) → String → FilingInput → Tried
try_text parse s direct = elim (parse s) [ none ↦ left direct | some raw ↦ try_json raw direct ]

abbrev pub decoded : Tried → Result DecodeError FilingInput
decoded (found input) = ok input
decoded (left direct) = err unsupported

unfoldable pub decode_filing_input :
    (String → Option Json) → Persisted → Result DecodeError FilingInput
decode_filing_input parse (typed input) = ok input
decode_filing_input parse (encoded s) =
    decoded (or_else (try_json (text s) no_input) (try_text parse s))
decode_filing_input parse (other raw) = decoded (try_json raw no_input)
decode_filing_input parse unencodable = err not_encodable
