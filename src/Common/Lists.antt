-- ===== src/Common/Lists.antt =====
-- Lists measured by native numbers, and predicates over all their items.
use Prim.Native.Nat.{ℕ, zero, suc, ◌+◌}
use mathlib.Core.Path.{◌≡◌, subst, ◌∙◌}
use mathlib.Core.Logic.{◌≢◌}
use mathlib.Core.Bool.{Bool}
use mathlib.Core.Option.{Option, none, some}
use mathlib.Core.List.{List, [], ◌∷◌, ◌++◌, map, Memᴰ}
use native.Mathlib.Omega.{arith}
use dbos_conformance.Common.Tests.{if◌then◌else◌}

module _ {ℓ} {A : Type ℓ} where
  abbrev pub length : List A → ℕ
  length [] = 0
  length (x ∷ xs) = suc (length xs)

  pub length-append : (xs ys : List A) → length (xs ++ ys) ≡ length xs + length ys
  length-append [] ys = omega arith
  length-append (x ∷ xs) ys = omega (arith, length-append xs ys)

  -- The items that pass a test, in order.
  abbrev pub keep : (A → Bool) → List A → List A
  keep p [] = []
  keep p (x ∷ xs) = let rest = keep p xs in if p x then x ∷ rest else rest

module _ {ℓ} {A : Type ℓ} where
  unfoldable pub get_elem? : List A → ℕ → Option A
  get_elem? [] i = none
  get_elem? (x ∷ xs) zero = some x
  get_elem? (x ∷ xs) (suc i) = get_elem? xs i

  -- The list with another item at the place, if there is one.
  unfoldable pub set_elem : List A → ℕ → A → List A
  set_elem [] i a = []
  set_elem (x ∷ xs) zero a = a ∷ xs
  set_elem (x ∷ xs) (suc i) a = x ∷ set_elem xs i a

pub length-map {ℓ κ} :
    {A : Type ℓ} {B : Type κ} (f : A → B) (xs : List A) → length (map f xs) ≡ length xs
length-map f [] = omega arith
length-map f (x ∷ xs) = omega (arith, length-map f xs)

module _ {ℓ κ} {A : Type ℓ} (P : A → Type κ) where
  abbrev pub All : List A → Type κ
  All [] = Unit
  All (x ∷ xs) = P x × All xs

  pub All-append : (xs ys : List A) → All xs → All ys → All (xs ++ ys)
  All-append [] ys hx hy = hy
  All-append (x ∷ xs) ys hx hy = (hx.0, All-append xs ys hx.1 hy)

  pub get_elem-All : (xs : List A) (i : ℕ) (x : A) → get_elem? xs i ≡ some x → All xs → P x
  unfolding get_elem?
  get_elem-All [] i x at all = ground arith
  get_elem-All (y ∷ ys) zero x at (first, rest) = let same : y ≡ x = cc in subst P same first
  get_elem-All (y ∷ ys) (suc i) x at (first, rest) = get_elem-All ys i x at rest

  pub set_elem-All : (xs : List A) (i : ℕ) (a : A) → P a → All xs → All (set_elem xs i a)
  unfolding set_elem
  set_elem-All [] i a new all = tt
  set_elem-All (y ∷ ys) zero a new (first, rest) = (new, rest)
  set_elem-All (y ∷ ys) (suc i) a new (first, rest) = (first, set_elem-All ys i a new rest)

pub All-map {ℓ κ κ'} :
    {A : Type ℓ} (P : A → Type κ) (Q : A → Type κ') (xs : List A)
    → ((x : A) → P x → Q x)
    → All P xs
    → All Q xs
All-map P Q [] f all = tt
All-map P Q (x ∷ xs) f (first, rest) = (f x first, All-map P Q xs f rest)

-- An item stays in the list unless it is the one that is replaced.
pub set_elem-Mem {ℓ} :
    {A : Type ℓ} (x y a : A) (xs : List A) (i : ℕ)
    → Memᴰ x xs
    → get_elem? xs i ≡ some y
    → x ≢ y
    → Memᴰ x (set_elem xs i a)
unfolding get_elem? set_elem
set_elem-Mem x y a [] i at there other = elim at [ ]
set_elem-Mem x y a (z ∷ zs) zero (Memᴰ.head e) there other =
    let same : z ≡ y = cc in absurd (other (e ∙ same))
set_elem-Mem x y a (z ∷ zs) zero (Memᴰ.tail at) there other = Memᴰ.tail at
set_elem-Mem x y a (z ∷ zs) (suc i) (Memᴰ.head e) there other = Memᴰ.head e
set_elem-Mem x y a (z ∷ zs) (suc i) (Memᴰ.tail at) there other =
    Memᴰ.tail (set_elem-Mem x y a zs i at there other)
