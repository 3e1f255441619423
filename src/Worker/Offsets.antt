-- ===== src/Worker/Offsets.antt =====
-- What the worker of cmd/worker/main.go commits.
use dbos_conformance.Common.{
  String, Bool, true, false, if◌then◌else◌, Option, List, [], ◌∷◌, string_eq, int_eq, keep, ◌≡◌,
  refl, ap, arith, eq_iff, int_beq_iff, Bool-cases, inl, inr,
}
use dbos_conformance.Domain.{FilingInput, input_eq}
use dbos_conformance.Domain.Json.{Json}
use dbos_conformance.Worker.Events.{
  Event, Looks, TopicPartition, partition_of, same_partition, is_blocked, is_processed, each_record,
  commits,
}

abbrev pub on_partition : TopicPartition → List Event → List Event
on_partition tp es = keep (λ e. same_partition (partition_of e) tp) es

-- The items before the first one that fails the test.
abbrev pub before_failure : (Event → Bool) → List Event → List Event
before_failure passes [] = []
before_failure passes (e ∷ es) =
    let rest = before_failure passes es in if passes e then e ∷ rest else []

same_partition_eq : (a b : TopicPartition) → same_partition a b ≡ true → a ≡ b
same_partition_eq a b h =
    ground (arith, eq_iff a.topic b.topic, int_beq_iff a.partition b.partition)

bars :
    (tp : TopicPartition) (b : TopicPartition) (bs : List TopicPartition)
    → is_blocked tp bs ≡ true
    → is_blocked tp (b ∷ bs) ≡ true
bars tp b bs h = ground arith

-- A record on the partition is blocked with it.
blocked_with :
    (e : Event) (tp : TopicPartition) (bs : List TopicPartition)
    → same_partition (partition_of e) tp ≡ true
    → is_blocked (partition_of e) bs ≡ is_blocked tp bs
blocked_with e tp bs h = ap (λ p. is_blocked p bs) (same_partition_eq (partition_of e) tp h)

module _ (parse : String → Option Json) (render : FilingInput → String)
    (looks : Event → Looks) where
  -- Nothing is committed on a blocked partition.
  blocked_stays :
      (tp : TopicPartition) (blocked : List TopicPartition) (es : List Event)
      → is_blocked tp blocked ≡ true
      → on_partition tp (each_record parse render looks blocked es) ≡ []
  unfolding each_record
  blocked_stays tp blocked [] h = refl
  blocked_stays tp blocked (e ∷ es) h = elim (Bool-cases (is_blocked (partition_of e) blocked)) [
    | inl b ↦ rw (b, each_record) (blocked_stays tp blocked es h)
    | inr b ↦ elim (Bool-cases (is_processed parse render (looks e) e.value)) [
      | inl d ↦ elim (Bool-cases (same_partition (partition_of e) tp)) [
        | inl s ↦ absurd (ground (arith, blocked_with e tp blocked s))
        | inr s ↦ rw (b, d, s, each_record) (blocked_stays tp blocked es h)
      ]
      | inr d ↦
          rw (b, d, each_record)
            (blocked_stays tp (partition_of e ∷ blocked) es (bars tp (partition_of e) blocked h))
    ]
  ]

  abbrev processed : Event → Bool
  processed e = is_processed parse render (looks e) e.value

  committed_until :
      (tp : TopicPartition) (blocked : List TopicPartition) (es : List Event)
      → is_blocked tp blocked ≡ false
      → on_partition tp (each_record parse render looks blocked es)
        ≡ before_failure processed (on_partition tp es)
  unfolding each_record
  committed_until tp blocked [] free = refl
  committed_until tp blocked (e ∷ es) free =
      elim (Bool-cases (is_blocked (partition_of e) blocked)) [
        | inl b ↦ elim (Bool-cases (same_partition (partition_of e) tp)) [
          | inl s ↦ absurd (ground (arith, blocked_with e tp blocked s))
          | inr s ↦ rw (b, s, each_record) (committed_until tp blocked es free)
        ]
        | inr b ↦ elim (Bool-cases (is_processed parse render (looks e) e.value)) [
          | inl d ↦
              let rest = committed_until tp blocked es free in
              elim (Bool-cases (same_partition (partition_of e) tp)) [
                | inl s ↦ rw (b, d, s, each_record, d) (ap (λ l. e ∷ l) rest)
                | inr s ↦ rw (b, d, s, each_record) rest
              ]
          | inr d ↦ elim (Bool-cases (same_partition (partition_of e) tp)) [
            | inl s ↦
                let none_left = blocked_stays tp (partition_of e ∷ blocked) es (ground arith) in
                rw (b, d, s, each_record, d, none_left) refl
            | inr s ↦
                let rest = committed_until tp (partition_of e ∷ blocked) es (ground arith) in
                rw (b, d, s, each_record) rest
          ]
        ]
      ]

-- What a poll commits of a partition is exactly what it fetched of it before the first record that
-- could not be processed, in the same order: that record holds back every later one of its partition,
-- and nothing else is held back.
pub commits_until_failure :
    (parse : String → Option Json) (render : FilingInput → String) (looks : Event → Looks)
    (tp : TopicPartition) (es : List Event)
    → on_partition tp (commits parse render looks es)
      ≡ before_failure (λ e. is_processed parse render (looks e) e.value) (on_partition tp es)
commits_until_failure parse render looks tp es = committed_until parse render looks tp [] es refl
