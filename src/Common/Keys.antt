-- ===== src/Common/Keys.antt =====
-- Maps whose keys come from a list: each key once, so there are no more entries than items.
use mathlib.Core.List.{Memᴰ}
use dbos_conformance.Common.{
  ◌+◌, ◌≤◌, String, none, some, List, [], ◌∷◌, ◌==◌, string_eq, ◌≡◌, ◌≢◌, refl, sym, ◌∙◌, ap, subst,
  arith, eq_iff, Bool-cases, inl, inr, length, Dict, lookup, insert, lookup-insert,
}

module _ {ℓ} {Value : Type ℓ} where
  -- No key stands twice.
  abbrev pub Distinct : Dict Value → Type ℓ
  Distinct [] = Unit
  Distinct ((key, value) ∷ entries) = (lookup key entries ≡ none) × Distinct entries

  abbrev pub KeysIn : List String → Dict Value → Type 0
  KeysIn keys [] = Unit
  KeysIn keys ((key, value) ∷ entries) = Memᴰ key keys × KeysIn keys entries

  pub insert-Distinct :
      (key : String) (new : Value) (entries : Dict Value)
      → Distinct entries
      → Distinct (insert key new entries)
  unfolding insert lookup
  insert-Distinct key new [] distinct = (refl, tt)
  insert-Distinct key new ((first, value) ∷ entries) (fresh, rest) =
      elim (Bool-cases (first == key)) [
        | inl e ↦
            rw (e, insert) (ap (λ k. lookup k entries) (sym ((eq_iff first key).0 e)) ∙ fresh, rest)
        | inr e ↦
            rw (e, insert)
              (
                ground (
                  arith,
                  lookup-insert key first new entries,
                  eq_iff first key,
                  eq_iff key first,
                ),
                insert-Distinct key new entries rest,
              )
      ]

  pub insert-KeysIn :
      (keys : List String) (key : String) (new : Value) (entries : Dict Value)
      → Memᴰ key keys
      → KeysIn keys entries
      → KeysIn keys (insert key new entries)
  unfolding insert
  insert-KeysIn keys key new [] at within = (at, tt)
  insert-KeysIn keys key new ((first, value) ∷ entries) at (top, rest) =
      elim (Bool-cases (first == key)) [
        | inl e ↦ rw (e, insert) (at, rest)
        | inr e ↦ rw (e, insert) (top, insert-KeysIn keys key new entries at rest)
      ]

  pub known-KeysIn :
      (keys : List String) (key : String) (value : Value) (entries : Dict Value)
      → lookup key entries ≡ some value
      → KeysIn keys entries
      → Memᴰ key keys
  unfolding lookup
  known-KeysIn keys key value [] known within = ground arith
  known-KeysIn keys key value ((first, other) ∷ entries) known (top, rest) =
      elim (Bool-cases (first == key)) [
        | inl e ↦ subst (λ k. Memᴰ k keys) ((eq_iff first key).0 e) top
        | inr e ↦ known-KeysIn keys key value entries (rw (e, lookup) at known) rest
      ]

-- The list without one place of the item.
without : {key : String} (keys : List String) → Memᴰ key keys → List String
without [] at = []
without (k ∷ keys) (Memᴰ.head e) = keys
without (k ∷ keys) (Memᴰ.tail at) = k ∷ without keys at

length-without :
    {key : String} (keys : List String) (at : Memᴰ key keys)
    → length keys ≡ length (without keys at) + 1
unfolding without
length-without {key = key} [] at = elim at [ ]
length-without (k ∷ keys) (Memᴰ.head e) = omega arith
length-without (k ∷ keys) (Memᴰ.tail at) = let h = length-without keys at in omega arith

mem-without :
    (key other : String) (keys : List String) (at : Memᴰ key keys)
    → Memᴰ other keys
    → other ≢ key
    → Memᴰ other (without keys at)
unfolding without
mem-without key other [] at _ apart = elim at [ ]
mem-without key other (k ∷ keys) (Memᴰ.head e) (Memᴰ.head e') apart = absurd (apart (e' ∙ sym e))
mem-without key other (k ∷ keys) (Memᴰ.head e) (Memᴰ.tail at') apart = at'
mem-without key other (k ∷ keys) (Memᴰ.tail at) (Memᴰ.head e') apart = Memᴰ.head e'
mem-without key other (k ∷ keys) (Memᴰ.tail at) (Memᴰ.tail at') apart =
    Memᴰ.tail (mem-without key other keys at at' apart)

module _ {ℓ} {Value : Type ℓ} where
  not_looked_up :
      (key first : String) (value : Value) (entries : Dict Value)
      → lookup key ((first, value) ∷ entries) ≡ none
      → (first ≢ key) × (lookup key entries ≡ none)
  unfolding lookup
  not_looked_up key first value entries h = ground (arith, eq_iff first key)

  KeysIn-without :
      (key : String) (keys : List String) (at : Memᴰ key keys) (entries : Dict Value)
      → lookup key entries ≡ none
      → KeysIn keys entries
      → KeysIn (without keys at) entries
  KeysIn-without key keys at [] fresh within = tt
  KeysIn-without key keys at ((first, value) ∷ entries) fresh (top, rest) =
      let (apart, fresh') = not_looked_up key first value entries fresh in
      (mem-without key first keys at top apart, KeysIn-without key keys at entries fresh' rest)

  pub length-KeysIn :
      (entries : Dict Value) (keys : List String)
      → Distinct entries
      → KeysIn keys entries
      → length entries ≤ length keys
  length-KeysIn [] keys distinct within = omega arith
  length-KeysIn ((key, value) ∷ entries) keys (fresh, distinct) (at, within) =
      let fewer =
        length-KeysIn entries (without keys at) distinct
          (KeysIn-without key keys at entries fresh within) in
      let one = length-without keys at in omega arith
