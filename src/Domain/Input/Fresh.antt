-- ===== src/Domain/Input/Fresh.antt =====
-- The variable `direct` of internal/domain/input.go is shared by all its attempts.
use dbos_conformance.Common.{
  String, ◌&&◌, Option, none, some, ◌!=◌, string_eq, ◌≡◌, refl, arith, ◌∙◌, ap, Option-cases, inl,
  inr, Result, ok, err, if◌then◌else◌,
}
use dbos_conformance.Domain.{FilingInput}
use dbos_conformance.Domain.Json.{
  Json, null, boolean, integer, decimal, text, array, object, cons, nil, unmarshal_input,
  single_item,
}
use dbos_conformance.Domain.Input.{
  Persisted, typed, encoded, other, unencodable, DecodeError, not_encodable, unsupported, no_input,
  Tried, found, left, or_else, decoded, try_input, try_json, try_text, try_argument,
  decode_filing_input,
}

-- The reference: each attempt reads into a new variable, and the first that names a filing counts.
read_input : Json → Option FilingInput
read_input raw =
    let (input, fine) = unmarshal_input raw no_input in
    if fine && input.filing_id != "" then some input else none

read_argument : Json → Option FilingInput
read_argument raw = elim (single_item raw) [ none ↦ none | some arg ↦ read_input arg ]

abbrev first_of : Option FilingInput → Option FilingInput → Option FilingInput
first_of (some input) next = some input
first_of none next = next

read_json : Json → Option FilingInput
read_json raw = first_of (read_input raw) (read_argument raw)

abbrev or_unsupported : Option FilingInput → Result DecodeError FilingInput
or_unsupported (some input) = ok input
or_unsupported none = err unsupported

unfoldable pub decode_afresh : (String → Option Json) → Persisted → Result DecodeError FilingInput
unfolding read_input read_argument read_json
decode_afresh parse (typed input) = ok input
decode_afresh parse (encoded s) =
    or_unsupported (elim (parse s) [ none ↦ none | some raw ↦ read_json raw ])
decode_afresh parse (other raw) = or_unsupported (read_json raw)
decode_afresh parse unencodable = err not_encodable

-- The outcome of an attempt.
abbrev outcome_of : Tried → Option FilingInput
outcome_of (found input) = some input
outcome_of (left direct) = none

decoded-outcome_of : (t : Tried) → decoded t ≡ or_unsupported (outcome_of t)
decoded-outcome_of (found input) = refl
decoded-outcome_of (left direct) = refl

try_input-read : (raw : Json) → outcome_of (try_input raw no_input) ≡ read_input raw
unfolding try_input read_input
try_input-read raw = ground (arith)

or_left : (t : Tried) → outcome_of (or_else t left) ≡ first_of (outcome_of t) none
or_left (found input) = refl
or_left (left direct) = refl

or_nothing : (o : Option FilingInput) → first_of o none ≡ o
or_nothing (some input) = refl
or_nothing none = refl

-- Only an object and `null` are read into the variable, and those are no list of arguments.
try_json-read : (raw : Json) → outcome_of (try_json raw no_input) ≡ read_json raw
unfolding try_json try_argument read_json read_argument single_item
try_json-read (object ms) =
    or_left (try_input (object ms) no_input)
    ∙ ap (λ o. first_of o none) (try_input-read (object ms))
try_json-read null =
    or_left (try_input null no_input) ∙ ap (λ o. first_of o none) (try_input-read null)
try_json-read (array (cons x nil)) = unfold try_input read_input unmarshal_input in try_input-read x
try_json-read (array nil) = unfold try_input read_input unmarshal_input in refl
try_json-read (array (cons x (cons y zs))) = unfold try_input read_input unmarshal_input in refl
try_json-read (boolean b) = unfold try_input read_input unmarshal_input in refl
try_json-read (integer n) = unfold try_input read_input unmarshal_input in refl
try_json-read (decimal s) = unfold try_input read_input unmarshal_input in refl
try_json-read (text s) = unfold try_input read_input unmarshal_input in refl

try_text-read :
    (parse : String → Option Json) (s : String)
    → outcome_of (try_text parse s no_input)
      ≡ elim (parse s) [ none ↦ none | some raw ↦ read_json raw ]
unfolding try_text
try_text-read parse s = elim (Option-cases (parse s)) [
  | inl e ↦ rw (e, try_text) refl
  | inr (raw, e) ↦ rw (e, try_text) (try_json-read raw)
]

after_text :
    (s : String) (next : FilingInput → Tried)
    → or_else (try_json (text s) no_input) next ≡ next no_input
unfolding try_json try_argument try_input unmarshal_input single_item
after_text s next = refl

-- The shared variable does no harm: for every persisted value and every text parser, the decoder gives
-- what the reference gives that reads each candidate into a new variable.
pub decode-eq-afresh :
    (parse : String → Option Json) (p : Persisted)
    → decode_filing_input parse p ≡ decode_afresh parse p
unfolding decode_filing_input decode_afresh
decode-eq-afresh parse (typed input) = refl
decode-eq-afresh parse (encoded s) =
    rw (after_text s (try_text parse s))
      (decoded-outcome_of (try_text parse s no_input) ∙ ap or_unsupported (try_text-read parse s))
decode-eq-afresh parse (other raw) =
    decoded-outcome_of (try_json raw no_input) ∙ ap or_unsupported (try_json-read raw)
decode-eq-afresh parse unencodable = refl
