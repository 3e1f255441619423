-- ===== src/Common/Maps.antt =====
-- Go's `map[string]V` as an association list. The program reads no order off a map.
use Prim.Native.Nat.{ℕ, ◌+◌}
use Prim.Native.String.{String}
use mathlib.Core.Path.{◌≡◌, refl, subst}
use mathlib.Core.Option.{Option, none, some}
use mathlib.Core.List.{List, [], ◌∷◌}
use native.Mathlib.Omega.{arith}
use mathlib.Core.Logic.{inl, inr}
use text.Mathlib.TextEquality.{eq_iff}
use dbos_conformance.Common.Tests.{◌==◌, string_eq, if◌then◌else◌, Bool-cases}
use dbos_conformance.Common.Lists.{length, All}

abbrev pub Dict {ℓ} : Type ℓ → Type ℓ
Dict V = List (String × V)

module _ {ℓ} {Value : Type ℓ} where
  -- m[k], with the second result of the comma-ok form.
  unfoldable pub lookup : String → Dict Value → Option Value
  lookup key [] = none
  lookup key ((first, value) ∷ entries) = if first == key then some value else lookup key entries

  -- m[k] = v
  unfoldable pub insert : String → Value → Dict Value → Dict Value
  insert key new [] = (key, new) ∷ []
  insert key new ((first, value) ∷ entries) =
      if first == key then (key, new) ∷ entries else (first, value) ∷ insert key new entries

  -- A key reads the value that was put there, and any other key what it read before.
  pub lookup-insert :
      (key other : String) (new : Value) (entries : Dict Value)
      → lookup other (insert key new entries)
        ≡ (if key == other then some new else lookup other entries)
  unfolding lookup insert
  lookup-insert key other new [] = refl
  lookup-insert key other new ((first, value) ∷ entries) = ground (
    arith,
    lookup-insert key other new entries,
    eq_iff first key,
    eq_iff first other,
    eq_iff key other,
  )

  -- A new key makes the map one longer.
  pub length-insert_new :
      (k : String) (v : Value) (m : Dict Value)
      → lookup k m ≡ none
      → length (insert k v m) ≡ length m + 1
  unfolding lookup insert
  length-insert_new k v [] h = omega arith
  length-insert_new k v ((j, w) ∷ m) h = ground (arith, length-insert_new k v m)

  -- A key that is there keeps the length.
  pub length-insert_old :
      (k : String) (v w : Value) (m : Dict Value)
      → lookup k m ≡ some w
      → length (insert k v m) ≡ length m
  unfolding lookup insert
  length-insert_old k v w [] h = ground arith
  length-insert_old k v w ((j, u) ∷ m) h = ground (arith, length-insert_old k v w m)

-- A property of all values of a map.
module _ {ℓ κ} {Value : Type ℓ} (P : Value → Type κ) where
  abbrev pub AllValues : Dict Value → Type κ
  AllValues = All (λ entry. P entry.1)

  pub insert-AllValues :
      (key : String) (new : Value) (entries : Dict Value)
      → P new
      → AllValues entries
      → AllValues (insert key new entries)
  unfolding insert
  insert-AllValues key new [] h all = (h, tt)
  insert-AllValues key new ((first, value) ∷ entries) h (top, rest) =
      elim (Bool-cases (first == key)) [
        | inl e ↦ rw (e, insert) (h, rest)
        | inr e ↦ rw (e, insert) (top, insert-AllValues key new entries h rest)
      ]

  pub lookup-AllValues :
      (key : String) (value : Value) (entries : Dict Value)
      → lookup key entries ≡ some value
      → AllValues entries
      → P value
  unfolding lookup
  lookup-AllValues key value [] known all = ground arith
  lookup-AllValues key value ((first, other) ∷ entries) known (top, rest) =
      elim (Bool-cases (first == key)) [
        | inl e ↦
            let known' : some other ≡ some value = rw (e, lookup) at known in
            let same : other ≡ value = cc in subst P same top
        | inr e ↦ lookup-AllValues key value entries (rw (e, lookup) at known) rest
      ]

-- m[k] of a map of counters: Go's zero value where the key is missing.
abbrev pub count_at : String → Dict ℕ → ℕ
count_at k m = elim (lookup k m) [ none ↦ 0 | some n ↦ n ]
