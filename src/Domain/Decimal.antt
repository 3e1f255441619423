-- ===== src/Domain/Decimal.antt =====
-- The verb `%d` of fmt.Sprintf on an int, and the reader that shows that no two integers print
-- alike.
use Prim.Native.Char.{Char, code}
use Prim.Native.String.{String, [], ◌∷◌}
use dbos_conformance.Common.{
  ℕ, zero, suc, ◌+◌, ◌-◌, ◌*◌, ◌/◌, ◌%◌, ◌≤◌, ◌<◌, ◌≡◌, refl, ap, ◌∙◌, sym, arith, ltb, nat_beq, ℤ,
  pos, negsuc, if◌then◌else◌, Bool-cases, inl, inr,
}

digit : ℕ → Char
digit zero = "0"
digit (suc zero) = "1"
digit (suc (suc zero)) = "2"
digit (suc (suc (suc zero))) = "3"
digit (suc (suc (suc (suc zero)))) = "4"
digit (suc (suc (suc (suc (suc zero))))) = "5"
digit (suc (suc (suc (suc (suc (suc zero)))))) = "6"
digit (suc (suc (suc (suc (suc (suc (suc zero))))))) = "7"
digit (suc (suc (suc (suc (suc (suc (suc (suc zero)))))))) = "8"
digit _ = "9"

-- The digits of `n` in front of `out`, the last digit first. Each round divides by ten, so `n + 1`
-- rounds are enough.
digits : ℕ → ℕ → String → String
digits zero n out = out
digits (suc rounds) n out =
    let rest = digits rounds (n / 10) (digit (n % 10) ∷ out) in
    if ltb n 10 then digit n ∷ out else rest

unfoldable pub show_nat : ℕ → String
unfolding digits digit
show_nat n = digits (suc n) n []

unfoldable pub show_int : ℤ → String
unfolding show_nat
show_int (pos n) = show_nat n
show_int (negsuc n) = "-" ∷ show_nat (suc n)

code-digit : (n : ℕ) → n < 10 → code (digit n) ≡ 48 + n
unfolding digit
code-digit zero h = refl
code-digit (suc zero) h = refl
code-digit (suc (suc zero)) h = refl
code-digit (suc (suc (suc zero))) h = refl
code-digit (suc (suc (suc (suc zero)))) h = refl
code-digit (suc (suc (suc (suc (suc zero))))) h = refl
code-digit (suc (suc (suc (suc (suc (suc zero)))))) h = refl
code-digit (suc (suc (suc (suc (suc (suc (suc zero))))))) h = refl
code-digit (suc (suc (suc (suc (suc (suc (suc (suc zero)))))))) h = refl
code-digit (suc (suc (suc (suc (suc (suc (suc (suc (suc zero))))))))) h = refl
code-digit (suc (suc (suc (suc (suc (suc (suc (suc (suc (suc n)))))))))) h = absurd (omega arith)

-- The number that a text of digits spells behind `n`.
scan : String → ℕ → ℕ
scan [] n = n
scan (c ∷ s) n = scan s (n * 10 + (code c - 48))

scan-digits : (rounds n : ℕ) (out : String) → n < rounds → scan (digits rounds n out) 0 ≡ scan out n
unfolding scan digits
scan-digits zero n out h = absurd (omega arith)
scan-digits (suc rounds) n out h = elim (Bool-cases (ltb n 10)) [
  | inl small ↦ rw small (ap (scan out) (omega (arith, code-digit n (ground arith))))
  | inr large ↦ rw large (
      scan-digits rounds (n / 10) (digit (n % 10) ∷ out) (ground arith)
      ∙ ap (scan out) (omega (arith, code-digit (n % 10) (omega arith))))
]

abbrev pub AllDigits : String → Type 0
AllDigits [] = Unit
AllDigits (c ∷ s) = (48 ≤ code c) × (code c ≤ 57) × AllDigits s

digits-AllDigits : (rounds n : ℕ) (out : String) → AllDigits out → AllDigits (digits rounds n out)
unfolding digits
digits-AllDigits zero n out h = h
digits-AllDigits (suc rounds) n out h = elim (Bool-cases (ltb n 10)) [
  | inl small ↦ rw small (rw (code-digit n (ground arith)) (ground arith, ground arith, h))
  | inr large ↦ rw large (
      digits-AllDigits rounds (n / 10) (digit (n % 10) ∷ out)
        (rw (code-digit (n % 10) (omega arith)) (omega arith, omega arith, h)))
]

show_nat-AllDigits : (n : ℕ) → AllDigits (show_nat n)
unfolding show_nat
show_nat-AllDigits n = digits-AllDigits (suc n) n [] tt

scan-show_nat : (n : ℕ) → scan (show_nat n) 0 ≡ n
unfolding show_nat scan
scan-show_nat n = scan-digits (suc n) n [] (omega arith)

-- The integer that a print stands for.
read_int : String → ℤ
read_int [] = pos 0
read_int (c ∷ s) = if nat_beq (code c) 45 then negsuc (scan s 0 - 1) else pos (scan (c ∷ s) 0)

read_int_digits : (s : String) → AllDigits s → read_int s ≡ pos (scan s 0)
unfolding read_int scan
read_int_digits [] h = refl
read_int_digits (c ∷ s) h = ground arith

read_int-show_int : (y : ℤ) → read_int (show_int y) ≡ y
unfolding show_int
read_int-show_int (pos n) =
    read_int_digits (show_nat n) (show_nat-AllDigits n) ∙ ap pos (scan-show_nat n)
read_int-show_int (negsuc n) = unfold read_int in ap negsuc (omega (arith, scan-show_nat (suc n)))

-- No two integers print alike.
pub show_int_injective : (x y : ℤ) → show_int x ≡ show_int y → x ≡ y
show_int_injective x y h = sym (read_int-show_int x) ∙ ap read_int h ∙ read_int-show_int y

-- A print holds no letter: every character is a digit or the sign.
abbrev pub NoLetter : String → Type 0
NoLetter [] = Unit
NoLetter (c ∷ s) = (code c ≤ 57) × NoLetter s

AllDigits-NoLetter : (s : String) → AllDigits s → NoLetter s
AllDigits-NoLetter [] h = tt
AllDigits-NoLetter (c ∷ s) h = (h.1, AllDigits-NoLetter s h.2)

pub show_int-NoLetter : (y : ℤ) → NoLetter (show_int y)
unfolding show_int
show_int-NoLetter (pos n) = AllDigits-NoLetter _ (show_nat-AllDigits n)
show_int-NoLetter (negsuc n) = (omega arith, AllDigits-NoLetter _ (show_nat-AllDigits (suc n)))

show_year : show_int (pos 2025) ≡ "2025"
unfolding show_int
show_year = refl

show_negative : show_int (negsuc 9) ≡ "-10"
unfolding show_int
show_negative = refl
