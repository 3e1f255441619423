-- ===== src/Chaos/Progress.antt =====
-- How often the crash points of internal/chaos/chaos.go end a process.
use mathlib.Core.List.{Memᴰ}
use dbos_conformance.Common.{
  ℕ, ◌+◌, ◌≤◌, String, true, List, [], ◌∷◌, ◌==◌, string_eq, Dict, lookup, map, ◌≡◌, sym, ap, arith,
  eq_iff, Bool-cases, Option-cases, inl, inr, length, length-map, length-insert_new,
}
use dbos_conformance.Common.Keys.{Distinct, KeysIn, insert-Distinct, insert-KeysIn, length-KeysIn}
use dbos_conformance.Chaos.Points.{Chaos, is_armed, crash, count_exit, come_to}

module _ (join : String → String → String) (c : Chaos) where
  abbrev markers : List String
  markers = map (join c.state_dir) c.points

  armed-markers :
      (point : String) (points : List String)
      → is_armed point points ≡ true
      → Memᴰ (join c.state_dir point) (map (join c.state_dir) points)
  armed-markers point [] h = ground arith
  armed-markers point (p ∷ ps) h = elim (Bool-cases (p == point)) [
    | inl e ↦ Memᴰ.head (ap (join c.state_dir) (sym ((eq_iff p point).0 e)))
    | inr e ↦ Memᴰ.tail (armed-markers point ps (rw e at h))
  ]

  -- The files are markers, each once.
  record Marked (files : Dict String) : Type 0 where
    distinct : Distinct files
    within : KeysIn markers files

  record Counted (before : Dict String) (exited : ℕ) (after : Dict String) : Type 0 where
    marked : Marked after
    counted : length after ≡ exited + length before

  crash-Counted :
      (point : String) (files : Dict String)
      → c.once ≡ true
      → Marked files
      → Counted files
          (count_exit (crash join c true point files).0)
          (crash join c true point files).1
  unfolding crash
  crash-Counted point files single marked = elim (Bool-cases (is_armed point c.points)) [
    | inr e ↦ rw (e, crash) (record { marked = marked; counted = omega arith })
    | inl e ↦ elim (Option-cases (lookup (join c.state_dir point) files)) [
      | inr (content, f) ↦
          simp (e, single, f, crash) (record { marked = marked; counted = omega arith })
      | inl f ↦
          simp (e, single, f, crash)
            (record {
              marked = record {
                distinct = insert-Distinct (join c.state_dir point) "fired\n" files marked.distinct;
                within =
                    insert-KeysIn markers (join c.state_dir point) "fired\n" files
                      (armed-markers point c.points e) marked.within;
              };
              counted =
                  let longer = length-insert_new (join c.state_dir point) "fired\n" files f in
                  omega arith;
            })
    ]
  ]

  come_to-Counted :
      (reached : List String) (files : Dict String)
      → c.once ≡ true
      → Marked files
      → Counted files (come_to join c reached files).0 (come_to join c reached files).1
  unfolding come_to
  come_to-Counted [] files single marked = record { marked = marked; counted = omega arith }
  come_to-Counted (point ∷ reached) files single marked =
      let first = crash-Counted point files single marked in
      let next = (crash join c true point files).1 in
      let rest = come_to-Counted reached next single first.marked in
      let k = first.counted in
      let l = rest.counted in record { marked = rest.marked; counted = omega arith }

-- Crash points that fire once let the program get on: if every marker can be written and there is none
-- at first, the process and those that are started after it exit at most as often as there are armed
-- points, however many points they come to.
pub exits_at_most_once_each :
    (join : String → String → String) (c : Chaos) (reached : List String)
    → c.once ≡ true
    → (come_to join c reached []).0 ≤ length c.points
exits_at_most_once_each join c reached single =
    let end = come_to-Counted join c reached [] single (record { distinct = tt; within = tt }) in
    let few =
      length-KeysIn (come_to join c reached []).1 (map (join c.state_dir) c.points)
        end.marked.distinct end.marked.within in
    let n = length-map (join c.state_dir) c.points in let k = end.counted in omega arith
