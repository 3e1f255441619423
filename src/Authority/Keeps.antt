-- ===== src/Authority/Keeps.antt =====
-- A property of the ledger of internal/authority/server.go that each allowed entry keeps, through
-- calls, goroutine steps and restarts, whatever becomes of their writes.
use dbos_conformance.Common.{
  ℕ, ◌+◌, String, ℤ, Bool, true, false, Option, none, some, List, [], ◌∷◌, ◌==◌, string_eq, ltb,
  eq_iff, ◌≡◌, refl, sym, subst, Dict, lookup, insert, Bool-cases, Option-cases, All, inl, inr,
  nat_eq,
}
use dbos_conformance.Domain.{Callback}
use dbos_conformance.Authority.Ledger.{
  Submission, PersistentState, Timing, Server, snapshot, Persist, stored, failed, unacknowledged,
  persist, save_or_fail, restore, new_server, new_persistent_server, unless_nil,
}
use dbos_conformance.Authority.Submit.{
  SubmitRequest, Response, handle_submit, save_then, new_submission, rejected_submission,
}
use dbos_conformance.Authority.Attempt.{Attempt, refused, repeated, recorded, handle_submit-Tries}
use dbos_conformance.Authority.Completion.{
  Stage, sleeping, delivering, finishing, ended, Meets, advance, wake, deliver, finish, put_sub,
  completed, after_completion, count_callback, is_delivered,
}
use dbos_conformance.Authority.Events.{Event, submits, advances, restarts, happens, happen}
pub mod Events

-- A property of ledgers, the entries that may be put under an ID, and that the changes of an entry
-- keep it allowed.
pub record Kept : Type 1 where
  pub Holds : Dict Submission → Type 0
  pub Allowed : String → Submission → Type 0
  pub empty : Holds []
  pub put :
      (id : String) (sub : Submission) (subs : Dict Submission)
      → Allowed id sub
      → Holds subs
      → Holds (insert id sub subs)
  pub known :
      (id : String) (sub : Submission) (subs : Dict Submission)
      → lookup id subs ≡ some sub
      → Holds subs
      → Allowed id sub
  pub repeats :
      (id : String) (sub : Submission)
      → Allowed id sub
      → Allowed id (record sub { attempts = sub.attempts + 1 })
  pub completes :
      (id : String) (sub : Submission)
      → sub.status ≡ "processing"
      → Allowed id sub
      → Allowed id (completed sub)
  pub marks :
      (id : String) (sub : Submission)
      → Allowed id sub
      → Allowed id (record sub { callback_finished = true })

-- A write leaves the memory.
pub written_subs :
    (p : Persist) (t : Server) (pool : Option (Option PersistentState))
    → t.pool ≡ pool
    → (persist p t).1.subs ≡ t.subs
unfolding persist
written_subs p t none e = rw (e, persist) refl
written_subs stored t (some r) e = rw (e, persist) refl
written_subs failed t (some r) e = rw (e, persist) refl
written_subs unacknowledged t (some r) e = rw (e, persist) refl

module _ (kept : Kept) where
  abbrev pub HoldsRow : Option (Option PersistentState) → Type 0
  HoldsRow none = Unit
  HoldsRow (some none) = Unit
  HoldsRow (some (some state)) = elim state.submissions [
    | none ↦ Unit
    | some subs ↦ kept.Holds subs
  ]

  -- The memory has the property, and so has the row.
  abbrev pub Keeps : Server → Type 0
  Keeps s = kept.Holds s.subs × HoldsRow s.pool

  row_of :
      (p : Persist) (t : Server) (pool : Option (Option PersistentState))
      → t.pool ≡ pool
      → Keeps t
      → HoldsRow (persist p t).1.pool
  unfolding persist
  row_of p t none e (holds, row) = rw (e, persist) row
  row_of stored t (some r) e (holds, row) = rw (e, persist) holds
  row_of failed t (some r) e (holds, row) = rw (e, persist) row
  row_of unacknowledged t (some r) e (holds, row) = rw (e, persist) holds

  pub persist-Keeps : (p : Persist) (t : Server) → Keeps t → Keeps (persist p t).1
  persist-Keeps p t (holds, row) =
      (rw (written_subs p t t.pool refl) holds, row_of p t t.pool refl (holds, row))

  put_sub-Keeps :
      (id : String) (sub : Submission) (s : Server)
      → kept.Allowed id sub
      → Keeps s
      → Keeps (put_sub sub s id)
  put_sub-Keeps id sub s allowed (holds, row) = (kept.put id sub s.subs allowed holds, row)

  after_completion-Keeps :
      (id : String) (sub : Submission) (s : Server) → Keeps s → Keeps (after_completion id sub s).1
  after_completion-Keeps id sub s keeps = elim (Bool-cases sub.callback_finished) [
    | inl e ↦ rw e keeps
    | inr e ↦ rw e keeps
  ]

  wake-Keeps : (p : Persist) (id : String) (s : Server) → Keeps s → Keeps (wake p id s).1
  unfolding wake
  wake-Keeps p id s keeps = elim (Option-cases (lookup id s.subs)) [
    | inl e ↦ rw (e, wake) keeps
    | inr (sub, e) ↦
        let allowed = kept.known id sub s.subs e keeps.0 in
        elim (Bool-cases (sub.status == "processing")) [
          | inl k ↦
              let next = persist-Keeps p (put_sub (completed sub) s id) (
                put_sub-Keeps id (completed sub) s
                  (kept.completes id sub ((eq_iff _ _).0 k) allowed) keeps) in
              elim (Bool-cases (persist p (put_sub (completed sub) s id)).0) [
                | inl f ↦ rw (e, k, wake, f) (after_completion-Keeps id (completed sub) _ next)
                | inr f ↦
                    rw (e, k, wake, f)
                      (put_sub-Keeps id sub (persist p (put_sub (completed sub) s id)).1 allowed
                        next)
              ]
          | inr k ↦ rw (e, k, wake) (after_completion-Keeps id sub s keeps)
        ]
  ]

  -- The entry may lose its mark: a failed write takes it off.
  abbrev pub Unmarks : String → Server → Type 0
  Unmarks id s =
      (sub : Submission)
      → lookup id s.subs ≡ some sub
      → kept.Allowed id (record sub { callback_finished = false })

  finish-Keeps :
      (p : Persist) (id : String) (s : Server) → Unmarks id s → Keeps s → Keeps (finish p id s).1
  unfolding finish
  finish-Keeps p id s unmarks keeps = elim (Option-cases (lookup id s.subs)) [
    | inl e ↦ rw (e, finish) keeps
    | inr (sub, e) ↦
        let allowed = kept.known id sub s.subs e keeps.0 in
        let marked = record sub { callback_finished = true } in
        let next =
          persist-Keeps p (put_sub marked s id)
            (put_sub-Keeps id marked s (kept.marks id sub allowed) keeps) in
        elim (Bool-cases (persist p (put_sub marked s id)).0) [
          | inl f ↦ rw (e, finish, f) next
          | inr f ↦
              rw (e, finish, f)
                (put_sub-Keeps id (record sub { callback_finished = false })
                  (persist p (put_sub marked s id)).1 (unmarks sub e) next)
        ]
  ]

  deliver-Keeps :
      (code : Option ℕ) (p : Persist) (id url : String) (cb : Callback) (rest : List Callback)
      (attempt : ℕ) (delivered : Bool) (s : Server)
      → Keeps s
      → Keeps (deliver code p id url cb rest attempt delivered s).1
  unfolding deliver
  deliver-Keeps code p id url cb rest attempt delivered s keeps =
      let next = persist-Keeps p (count_callback s) keeps in
      elim (Bool-cases (is_delivered code)) [
        | inl e ↦ elim (Bool-cases (persist p (count_callback s)).0) [
          | inl f ↦ rw (e, deliver, f) next
          | inr f ↦ rw (e, deliver, f) next
        ]
        | inr e ↦ elim (Bool-cases (ltb attempt 10)) [
          | inl f ↦ rw (e, deliver, f) keeps
          | inr f ↦ rw (e, deliver, f) keeps
        ]
      ]

  -- A goroutine that is about to mark the callbacks as finished.
  abbrev pub MayAdvance : String → Stage → Server → Type 0
  MayAdvance id sleeping s = Unit
  MayAdvance id (delivering url cbs attempt delivered) s = Unit
  MayAdvance id finishing s = Unmarks id s
  MayAdvance id ended s = Unit

  pub advance-Keeps :
      (m : Meets) (id : String) (stage : Stage) (s : Server)
      → MayAdvance id stage s
      → Keeps s
      → Keeps (advance m (record { id = id; stage = stage }) s).1
  unfolding advance
  advance-Keeps m id sleeping s may keeps = wake-Keeps m.write id s keeps
  advance-Keeps m id (delivering url [] attempt delivered) s may keeps = keeps
  advance-Keeps m id (delivering url (cb ∷ rest) attempt delivered) s may keeps =
      deliver-Keeps m.code m.write id url cb rest attempt delivered s keeps
  advance-Keeps m id finishing s may keeps = finish-Keeps m.write id s may keeps
  advance-Keeps m id ended s may keeps = keeps
