-- ===== src/Domain/Identity/Distinct.antt =====
-- No two filings share an identity, and no two commands share a key.
use Prim.Native.Char.{Char, code}
use Prim.Native.String.{String, [], ◌∷◌, ◌++◌}
use text.Mathlib.TextLemmas.{
  nil-append, cons-append, append_cancel_left, append_cancel_right, head-eq_of_cons-eq,
  tail-eq_of_cons-eq,
}
use dbos_conformance.Common.{ℕ, ◌≡◌, refl, ap, ap₂, sym, subst, ◌∙◌, arith, ℤ}
use dbos_conformance.Domain.Decimal.{show_int, show_int_injective, show_int-NoLetter, NoLetter}
use dbos_conformance.Domain.Identity.{
  workflow_id, submitted_command_key, outcome_command_key, review_command_key,
  submission_intent_command_key,
}

year_text : (e : String) → "-y" ++ e ≡ "-" ∷ "y" ∷ e
year_text e = cons-append _ _ _ ∙ ap (◌∷◌ "-") (cons-append _ _ _ ∙ ap (◌∷◌ "y") (nil-append e))

-- A text that has a "y" in it has a letter.
not-NoLetter : (f e : String) → ¬ NoLetter (f ++ ("-y" ++ e))
not-NoLetter [] e h = absurd (omega (arith, (subst NoLetter (nil-append _ ∙ year_text e) h).1))
not-NoLetter (c ∷ f) e h = not-NoLetter f e ((subst NoLetter (cons-append c f _) h).1)

-- What begins like the year mark, and has the mark further on, has a letter in its year.
mark_inside : (c : Char) (g d e : String) → NoLetter d → "-y" ++ d ≡ (c ∷ g) ++ ("-y" ++ e) → ⊥
mark_inside c g d e hd h = after g (tail-eq_of_cons-eq (sym (year_text d) ∙ h ∙ cons-append c g _))
  where
    after : (g : String) → "y" ∷ d ≡ g ++ ("-y" ++ e) → ⊥
    after [] h =
        absurd (omega (arith, ap code (head-eq_of_cons-eq (h ∙ nil-append _ ∙ year_text e))))
    after (k ∷ g) h =
        not-NoLetter g e (subst NoLetter (tail-eq_of_cons-eq (h ∙ cons-append k g _)) hd)

-- The last "-y" of such a text is where the year begins.
split_at_year :
    (f g d e : String)
    → NoLetter d
    → NoLetter e
    → f ++ ("-y" ++ d) ≡ g ++ ("-y" ++ e)
    → (f ≡ g) × (d ≡ e)
split_at_year [] [] d e hd he h = (refl, append_cancel_left "-y" d e (append_cancel_left "" _ _ h))
split_at_year [] (c ∷ g) d e hd he h = absurd (mark_inside c g d e hd (sym (nil-append _) ∙ h))
split_at_year (c ∷ f) [] d e hd he h = absurd (mark_inside c f e d he (sym (nil-append _) ∙ sym h))
split_at_year (c ∷ f) (k ∷ g) d e hd he h =
    let h' : c ∷ (f ++ ("-y" ++ d)) ≡ k ∷ (g ++ ("-y" ++ e)) =
      sym (cons-append c f _) ∙ h ∙ cons-append k g _ in
    let (same_filing, same_year) = split_at_year f g d e hd he (tail-eq_of_cons-eq h') in
    (ap₂ ◌∷◌ (head-eq_of_cons-eq h') same_filing, same_year)

-- Two filings have one workflow ID only if they are the same filing of the same tax year.
pub workflow_id_injective :
    (f g : String) (x y : ℤ) → workflow_id f x ≡ workflow_id g y → (f ≡ g) × (x ≡ y)
unfolding workflow_id
workflow_id_injective f g x y h =
    let (same_filing, same_year) =
      split_at_year f g (show_int x) (show_int y) (show_int-NoLetter x) (show_int-NoLetter y)
        (append_cancel_left "filing-" _ _ h) in
    (same_filing, show_int_injective x y same_year)

-- The kinds of command that the workflow sends.
pub data KeyKind : Type 0 where
  submission_intent submitted outcome review : KeyKind

abbrev pub command_key : KeyKind → String → String
command_key submission_intent w = submission_intent_command_key w
command_key submitted w = submitted_command_key w
command_key outcome w = outcome_command_key w
command_key review w = review_command_key w

-- The code of the last character, or `n` where there is none.
last_code : ℕ → String → ℕ
last_code n [] = n
last_code n (c ∷ s) = last_code (code c) s

last_code-append :
    (n : ℕ) (s : String) (c : Char) (t : String) → last_code n (s ++ (c ∷ t)) ≡ last_code (code c) t
unfolding last_code
last_code-append n [] c t = rw nil-append
last_code-append n (k ∷ s) c t = rw cons-append (last_code-append (code k) s c t)

-- The four suffixes end in four different letters.
abbrev last_letter : KeyKind → ℕ
last_letter submission_intent = b't'
last_letter submitted = b'd'
last_letter outcome = b'e'
last_letter review = b'w'

last_code-command_key : (k : KeyKind) (w : String) → last_code 0 (command_key k w) ≡ last_letter k
unfolding submission_intent_command_key submitted_command_key outcome_command_key review_command_key
    last_code
last_code-command_key submission_intent w = last_code-append 0 w "-" "submission-intent"
last_code-command_key submitted w = last_code-append 0 w "-" "submitted"
last_code-command_key outcome w = last_code-append 0 w "-" "outcome"
last_code-command_key review w = last_code-append 0 w "-" "needs-review"

last_letter_injective : (k j : KeyKind) → last_letter k ≡ last_letter j → k ≡ j
last_letter_injective k j h = ground arith

command_key-cancel : (k : KeyKind) (v w : String) → command_key k v ≡ command_key k w → v ≡ w
unfolding submission_intent_command_key submitted_command_key outcome_command_key review_command_key
command_key-cancel submission_intent v w h = append_cancel_right v w _ h
command_key-cancel submitted v w h = append_cancel_right v w _ h
command_key-cancel outcome v w h = append_cancel_right v w _ h
command_key-cancel review v w h = append_cancel_right v w _ h

-- A command key says which of the four commands it is for, of which filing and which tax year:
-- two keys are equal only if all three are.
pub command_key_injective :
    (k j : KeyKind) (f g : String) (x y : ℤ)
    → command_key k (workflow_id f x) ≡ command_key j (workflow_id g y)
    → (k ≡ j) × (f ≡ g) × (x ≡ y)
command_key_injective k j f g x y h =
    let same_kind : k ≡ j =
      last_letter_injective k j
        (sym (last_code-command_key k _) ∙ ap (last_code 0) h ∙ last_code-command_key j _) in
    let (same_filing, same_year) = workflow_id_injective f g x y (
      command_key-cancel j _ _ (
        subst (λ i. command_key i (workflow_id f x) ≡ command_key j (workflow_id g y)) same_kind
          h)) in
    (same_kind, same_filing, same_year)
