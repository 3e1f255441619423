-- ===== src/Domain/Json.antt =====
-- The part of encoding/json that internal/domain/input.go uses: JSON values, and decoding into
-- FilingInput and into []json.RawMessage. A decoder that fails has already written the fields before
-- the fault, and the fields after it.
use Prim.Native.Char.{code}
use Prim.Native.String.{String, [], ◌∷◌}
use dbos_conformance.Common.{
  ℕ, ◌+◌, ◌^◌, ℤ, pos, negsuc, Bool, true, false, ◌&&◌, Option, none, some, ltb, leb, nat_beq,
  if◌then◌else◌,
}
use dbos_conformance.Domain.{FilingInput}

-- A number is an integer literal or any other literal. The members of an object stand in their order.
mutual
  pub data Json : Type 0 where
    null : Json
    boolean : Bool → Json
    integer : ℤ → Json
    decimal : String → Json
    text : String → Json
    array : Items → Json
    object : Members → Json

  pub data Items : Type 0 where
    nil : Items
    cons : Json → Items → Items

  pub data Members : Type 0 where
    end : Members
    member : String → Json → Members → Members

-- The code point that the decoder compares: an ASCII capital is its small letter, and so are the long s
-- and the Kelvin sign, the other code points that fold to an ASCII letter.
abbrev pub fold_code : ℕ → ℕ
fold_code c =
    if leb 65 c && leb c 90
    then c + 32
    else if nat_beq c 0x17F
    then b's'
    else if nat_beq c 0x212A
    then b'k'
    else c

-- A member's key names a field if they are equal under folding.
unfoldable pub names_field : String → String → Bool
names_field [] [] = true
names_field [] (d ∷ t) = false
names_field (c ∷ s) [] = false
names_field (c ∷ s) (d ∷ t) = nat_beq (fold_code (code c)) (fold_code (code d)) && names_field s t

-- `int` has 64 bits.
abbrev pub is_int64 : ℤ → Bool
is_int64 (pos n) = ltb n (2 ^ 63)
is_int64 (negsuc n) = ltb n (2 ^ 63)

-- The new value of the field, and whether there was no fault.
abbrev pub set_text : Json → String → String × Bool
set_text (text s) old = (s, true)
set_text null old = (old, true)
set_text (boolean b) old = (old, false)
set_text (integer n) old = (old, false)
set_text (decimal s) old = (old, false)
set_text (array xs) old = (old, false)
set_text (object ms) old = (old, false)

abbrev pub set_integer : Json → ℤ → ℤ × Bool
set_integer (integer n) old = if is_int64 n then (n, true) else (old, false)
set_integer null old = (old, true)
set_integer (boolean b) old = (old, false)
set_integer (decimal s) old = (old, false)
set_integer (text s) old = (old, false)
set_integer (array xs) old = (old, false)
set_integer (object ms) old = (old, false)

-- One member of an object. An unknown key is skipped.
unfoldable pub set_field : String → Json → FilingInput → FilingInput × Bool
unfolding names_field
set_field key value input =
    if names_field key "filing_id"
    then (let (new, fine) = set_text value input.filing_id in
        (record input { filing_id = new }, fine))
    else if names_field key "tax_year"
    then (let (new, fine) = set_integer value input.tax_year in
        (record input { tax_year = new }, fine))
    else if names_field key "scenario"
    then (let (new, fine) = set_text value input.scenario in
        (record input { scenario = new }, fine))
    else (input, true)

unfoldable pub set_fields : Members → FilingInput → FilingInput × Bool
unfolding set_field
set_fields end input = (input, true)
set_fields (member key value rest) input =
    let (input', fine) = set_field key value input in
    let (input'', fine') = set_fields rest input' in (input'', fine && fine')

-- json.Unmarshal into a FilingInput that holds `input`.
unfoldable pub unmarshal_input : Json → FilingInput → FilingInput × Bool
unfolding set_fields
unmarshal_input (object ms) input = set_fields ms input
unmarshal_input null input = (input, true)
unmarshal_input (boolean b) input = (input, false)
unmarshal_input (integer n) input = (input, false)
unmarshal_input (decimal s) input = (input, false)
unmarshal_input (text s) input = (input, false)
unmarshal_input (array xs) input = (input, false)

-- json.Unmarshal into []json.RawMessage, followed by `len(args) == 1`: the only item.
unfoldable pub single_item : Json → Option Json
single_item (array (cons x nil)) = some x
single_item (array (cons x (cons y zs))) = none
single_item (array nil) = none
single_item null = none
single_item (boolean b) = none
single_item (integer n) = none
single_item (decimal s) = none
single_item (text s) = none
single_item (object ms) = none
