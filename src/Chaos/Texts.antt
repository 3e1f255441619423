-- ===== src/Chaos/Texts.antt =====
-- What `Init` of internal/chaos/chaos.go uses of the package strings.
use Prim.Native.Char.{Char, code}
use Prim.Native.String as Text
use dbos_conformance.Common.{
  ℕ, String, Bool, ◌&&◌, ◌||◌, List, [], ◌∷◌, ◌==◌, string_eq, nat_beq, leb, if◌then◌else◌,
}

-- unicode.IsSpace
abbrev is_space : ℕ → Bool
is_space c =
    leb 9 c && leb c 13
    || nat_beq c 32
    || nat_beq c 0x85
    || nat_beq c 0xA0
    || nat_beq c 0x1680
    || leb 0x2000 c && leb c 0x200A
    || nat_beq c 0x2028
    || nat_beq c 0x2029
    || nat_beq c 0x202F
    || nat_beq c 0x205F
    || nat_beq c 0x3000

unfoldable trim_left : String → String
trim_left Text.[] = ""
trim_left (Text.◌∷◌ c s) =
    let rest = trim_left s in if is_space (code c) then rest else Text.◌∷◌ c s

unfoldable trim_right : String → String
trim_right Text.[] = ""
trim_right (Text.◌∷◌ c s) =
    let rest = trim_right s in if rest == "" && is_space (code c) then "" else Text.◌∷◌ c rest

-- strings.TrimSpace
unfoldable pub trim_space : String → String
unfolding trim_left trim_right
trim_space s = trim_right (trim_left s)

-- One more character in front of the first piece.
abbrev put_first : Char → List String → List String
put_first c [] = (Text.◌∷◌ c "") ∷ []
put_first c (piece ∷ pieces) = (Text.◌∷◌ c piece) ∷ pieces

-- strings.Split(s, ",")
unfoldable pub split_commas : String → List String
split_commas Text.[] = "" ∷ []
split_commas (Text.◌∷◌ c s) =
    let rest = split_commas s in if nat_beq (code c) b',' then "" ∷ rest else put_first c rest
