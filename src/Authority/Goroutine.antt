-- ===== src/Authority/Goroutine.antt =====
-- Each step of the goroutine of internal/authority/server.go carries the ledger over.
use dbos_conformance.Common.{
  ℕ, String, Bool, true, false, Option, some, List, [], ◌∷◌, ◌==◌, string_eq, ◌≡◌, refl, inl, inr,
  arith, eq_iff, lookup, Bool-cases, Option-cases, ltb, nat_eq,
}
use dbos_conformance.Domain.{Callback}
use dbos_conformance.Authority.Ledger.{Submission, Server, Persist, persist}
use dbos_conformance.Authority.Completion.{
  Stage, sleeping, delivering, finishing, ended, Meets, advance, wake, deliver, finish, completed,
  put_sub, after_completion, count_callback, uncount_callback, is_delivered,
}
use dbos_conformance.Authority.Grows.{Same, Same-refl, Grows-refl}
use dbos_conformance.Authority.Sound.{
  IsSound, has_database, done, lost, late, persist-Wrote, written, taken_back,
}
use dbos_conformance.Authority.Carries.{
  Carried, same_server, written_Carried, fallen_Carried, Settled-Carried,
}

after_completion-server :
    (id : String) (current : Submission) (s : Server) → (after_completion id current s).1 ≡ s
after_completion-server id current s = ground arith

-- The completion that `wake` writes changes no identity, and no outcome that was completed.
completed-Same : (a : Submission) → a.status ≡ "processing" → Same a (completed a)
completed-Same a h = record {
  id = refl;
  filing_id = refl;
  scenario = refl;
  outcome = λ k. ground (arith, eq_iff "processing" "completed");
}

wake_completes :
    (p : Persist) (id : String) (s : Server) (current : Submission)
    → IsSound s
    → lookup id s.subs ≡ some current
    → (current.status == "processing") ≡ true
    → Carried s (wake p id s).1
unfolding wake
wake_completes p id s current sound known processing =
    let (row, h) = has_database s sound.row in
    let same = completed-Same current ((eq_iff _ _).0 processing) in
    elim (persist-Wrote p (put_sub (completed current) s id) row h) [
      | done e ↦
          rw (known, processing, wake, e, after_completion-server)
            (written_Carried id current (completed current) s sound known same)
      | lost e ↦
          rw (known, processing, wake, e)
            (fallen_Carried id current (completed current) s sound known same current
              (Same-refl current) (Same-refl current) _ refl refl (inl refl))
      | late e ↦
          rw (known, processing, wake, e)
            (fallen_Carried id current (completed current) s sound known same current
              (Same-refl current) (Same-refl current) _ refl refl (inr refl))
    ]

pub wake-Carried : (p : Persist) (id : String) (s : Server) → IsSound s → Carried s (wake p id s).1
unfolding wake
wake-Carried p id s sound = elim (Option-cases (lookup id s.subs)) [
  | inl missing ↦ rw (missing, wake) (same_server s sound)
  | inr (current, known) ↦ elim (Bool-cases (current.status == "processing")) [
    | inl e ↦ wake_completes p id s current sound known e
    | inr e ↦ rw (known, e, wake, after_completion-server) (same_server s sound)
  ]
]

pub finish-Carried :
    (p : Persist) (id : String) (s : Server) → IsSound s → Carried s (finish p id s).1
unfolding finish
finish-Carried p id s sound = elim (Option-cases (lookup id s.subs)) [
  | inl missing ↦ rw (missing, finish) (same_server s sound)
  | inr (current, known) ↦
      let (row, h) = has_database s sound.row in
      let marked = record current { callback_finished = true } in
      let same : Same current marked = record {
        id = refl;
        filing_id = refl;
        scenario = refl;
        outcome = λ k. (k, refl);
      } in
      let forth : Same current (record current { callback_finished = false }) = record {
        id = refl;
        filing_id = refl;
        scenario = refl;
        outcome = λ k. (k, refl);
      } in
      let home : Same (record current { callback_finished = false }) current = record {
        id = refl;
        filing_id = refl;
        scenario = refl;
        outcome = λ k. (k, refl);
      } in
      elim (persist-Wrote p (put_sub marked s id) row h) [
        | done e ↦ rw (known, finish, e) (written_Carried id current marked s sound known same)
        | lost e ↦
            rw (known, finish, e)
              (fallen_Carried id current marked s sound known same _ forth home _ refl refl
                (inl refl))
        | late e ↦
            rw (known, finish, e)
              (fallen_Carried id current marked s sound known same _ forth home _ refl refl
                (inr refl))
      ]
]

counted_Carried :
    (p : Persist) (s : Server)
    → IsSound s
    → ((persist p (count_callback s)).0 ≡ true → Carried s (persist p (count_callback s)).1)
      × ((persist p (count_callback s)).0 ≡ false
          → Carried s (uncount_callback (persist p (count_callback s)).1))
counted_Carried p s sound =
    let (row, h) = has_database s sound.row in
    let carried = Settled-Carried s (count_callback s) in
    elim (persist-Wrote p (count_callback s) row h) [
      | done e ↦ rw e (
        λ _.
            carried _ sound (Grows-refl s.subs) sound.counted (Grows-refl s.subs)
              (written refl refl refl),
        λ f. ground (arith),
      )
      | lost e ↦ rw e (
        λ f. ground (arith),
        λ _.
            carried _ sound (Grows-refl s.subs) sound.counted (Grows-refl s.subs)
              (taken_back (Grows-refl s.subs) refl refl (inl refl)),
      )
      | late e ↦ rw e (
        λ f. ground (arith),
        λ _.
            carried _ sound (Grows-refl s.subs) sound.counted (Grows-refl s.subs)
              (taken_back (Grows-refl s.subs) refl refl (inr refl)),
      )
    ]

deliver-Carried :
    (code : Option ℕ) (p : Persist) (id url : String) (cb : Callback) (rest : List Callback)
    (attempt : ℕ) (delivered : Bool) (s : Server)
    → IsSound s
    → Carried s (deliver code p id url cb rest attempt delivered s).1
unfolding deliver
deliver-Carried code p id url cb rest attempt delivered s sound =
    elim (Bool-cases (is_delivered code)) [
      | inl e ↦ elim (Bool-cases (persist p (count_callback s)).0) [
        | inl f ↦ rw (e, deliver, f) ((counted_Carried p s sound).0 f)
        | inr f ↦ rw (e, deliver, f) ((counted_Carried p s sound).1 f)
      ]
      | inr e ↦ elim (Bool-cases (ltb attempt 10)) [
        | inl f ↦ rw (e, deliver, f) (same_server s sound)
        | inr f ↦ rw (e, deliver, f) (same_server s sound)
      ]
    ]

pub advance-Carried :
    (m : Meets) (id : String) (stage : Stage) (s : Server)
    → IsSound s
    → Carried s (advance m (record { id = id; stage = stage }) s).1
unfolding advance
advance-Carried m id sleeping s sound = wake-Carried m.write id s sound
advance-Carried m id (delivering url [] attempt delivered) s sound = same_server s sound
advance-Carried m id (delivering url (cb ∷ rest) attempt delivered) s sound =
    deliver-Carried m.code m.write id url cb rest attempt delivered s sound
advance-Carried m id finishing s sound = finish-Carried m.write id s sound
advance-Carried m id ended s sound = same_server s sound
