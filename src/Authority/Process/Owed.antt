-- ===== src/Authority/Process/Owed.antt =====
-- What a goroutine of internal/authority/server.go owes its callbacks to: it sends them only for an
-- operation that is on record as accepted.
use dbos_conformance.Common.{
  ℕ, String, Bool, true, false, Option, some, List, [], ◌∷◌, ◌==◌, string_eq, ltb, nat_eq, ◌≡◌,
  refl, sym, ap, ◌∙◌, subst, arith, eq_iff, eq_refl, inl, inr, Dict, lookup, lookup-insert, All,
  AllValues, lookup-AllValues, Bool-cases, Option-cases,
}
use dbos_conformance.Domain.{Callback, scenario_no_callback_done, scenario_dup_callback}
use dbos_conformance.Authority.Ledger.{Submission, Server, Persist, persist}
use dbos_conformance.Authority.Completion.{
  Stage, sleeping, delivering, finishing, ended, Task, Meets, advance, wake, deliver, finish,
  callbacks, next_stage, put_sub, completed, after_completion, count_callback, is_delivered,
}
use dbos_conformance.Authority.Grows.{Grows}
use dbos_conformance.Authority.Keeps.{written_subs}
use dbos_conformance.Authority.Process.Ledgered.{IsLegit, pending, accepted, rejected}

-- The operation is on record as completed, with the outcome.
pub record IsOnRecord (id outcome : String) (subs : Dict Submission) : Type 0 where
  pub sub : Submission
  pub known : lookup id subs ≡ some sub
  pub done : sub.status ≡ "completed"
  pub same : sub.outcome ≡ outcome

pub Grows-IsOnRecord :
    (id outcome : String) (a b : Dict Submission)
    → Grows a b
    → IsOnRecord id outcome a
    → IsOnRecord id outcome b
Grows-IsOnRecord id outcome a b grows on =
    let (later, found, same) = grows id on.sub on.known in
    let (done, kept) = same.outcome on.done in
    record { sub = later; known = found; done = done; same = sym kept ∙ on.same }

abbrev pub IsFor : String → Callback → Type 0
IsFor id cb = (cb.submission_id ≡ id) × (cb.outcome ≡ "accepted")

-- The callbacks that are left are for the task's operation, which is accepted.
abbrev pub Owes : String → Stage → Dict Submission → Type 0
Owes id sleeping subs = Unit
Owes id (delivering url cbs attempt delivered) subs =
    IsOnRecord id "accepted" subs × All (IsFor id) cbs
Owes id finishing subs = IsOnRecord id "accepted" subs
Owes id ended subs = Unit

pub Grows-Owes :
    (id : String) (stage : Stage) (a b : Dict Submission)
    → Grows a b
    → Owes id stage a
    → Owes id stage b
Grows-Owes id sleeping a b grows owes = tt
Grows-Owes id (delivering url cbs attempt delivered) a b grows (on, all) =
    (Grows-IsOnRecord id "accepted" a b grows on, all)
Grows-Owes id finishing a b grows owes = Grows-IsOnRecord id "accepted" a b grows owes
Grows-Owes id ended a b grows owes = tt

abbrev TaskOwes : Task × Server → Type 0
TaskOwes (t, s) = Owes t.id t.stage s.subs

module _ (id : String) where
  next_stage-Owes :
      (url : String) (cbs : List Callback) (delivered : Bool) (subs : Dict Submission)
      → IsOnRecord id "accepted" subs
      → All (IsFor id) cbs
      → Owes id (next_stage url cbs delivered) subs
  next_stage-Owes url [] true subs on all = on
  next_stage-Owes url [] false subs on all = tt
  next_stage-Owes url (cb ∷ rest) delivered subs on all = (on, all)

  callbacks-IsFor : (scenario : String) → All (IsFor id) (callbacks scenario id)
  unfolding callbacks
  callbacks-IsFor scenario = elim (Bool-cases (scenario == scenario_no_callback_done)) [
    | inl e ↦ rw (e, callbacks) tt
    | inr e ↦ elim (Bool-cases (scenario == scenario_dup_callback)) [
      | inl f ↦ rw (e, f, callbacks) ((refl, refl), ((refl, refl), ((refl, refl), tt)))
      | inr f ↦ rw (e, f, callbacks) ((refl, refl), tt)
    ]
  ]

  after_completion-Owes :
      (current : Submission) (s : Server)
      → (current.callback_finished ≡ false → IsOnRecord id "accepted" s.subs)
      → TaskOwes (after_completion id current s)
  after_completion-Owes current s on = elim (Bool-cases current.callback_finished) [
    | inl e ↦ rw e tt
    | inr e ↦ rw e (
        next_stage-Owes current.callback_url (callbacks current.scenario id) true s.subs (on e)
          (callbacks-IsFor current.scenario))
  ]

  -- What is completed and not finished with is accepted.
  unfinished-IsOnRecord :
      (current : Submission) (s : Server)
      → lookup id s.subs ≡ some current
      → (current.status == "processing") ≡ false
      → IsLegit current
      → current.callback_finished ≡ false
      → IsOnRecord id "accepted" s.subs
  unfinished-IsOnRecord current s known settled (pending e) unfinished =
      ground (arith, eq_iff current.status "processing")
  unfinished-IsOnRecord current s known settled (accepted e f) unfinished = record {
    sub = current;
    known = known;
    done = e;
    same = f;
  }
  unfinished-IsOnRecord current s known settled (rejected e f g) unfinished = ground arith

  wake-Owes : (p : Persist) (s : Server) → AllValues IsLegit s.subs → TaskOwes (wake p id s)
  unfolding wake
  wake-Owes p s legit = elim (Option-cases (lookup id s.subs)) [
    | inl e ↦ rw (e, wake) tt
    | inr (current, e) ↦ elim (Bool-cases (current.status == "processing")) [
      | inl k ↦
          let t = put_sub (completed current) s id in
          elim (Bool-cases (persist p t).0) [
            | inl f ↦
                let on : IsOnRecord id "accepted" (persist p t).1.subs = record {
                  sub = completed current;
                  known =
                      ap (lookup id) (written_subs p t t.pool refl)
                      ∙ rw (lookup-insert, eq_refl id) refl;
                  done = refl;
                  same = refl;
                } in
                rw (e, k, wake, f)
                  (after_completion-Owes (completed current) (persist p t).1 (λ u. on))
            | inr f ↦ rw (e, k, wake, f) tt
          ]
      | inr k ↦
          rw (e, k, wake)
            (after_completion-Owes current s (
              unfinished-IsOnRecord current s e k
                (lookup-AllValues IsLegit id current s.subs e legit)))
    ]
  ]

  deliver-Owes :
      (code : Option ℕ) (p : Persist) (url : String) (cb : Callback) (rest : List Callback)
      (attempt : ℕ) (delivered : Bool) (s : Server)
      → IsOnRecord id "accepted" s.subs
      → IsFor id cb × All (IsFor id) rest
      → TaskOwes (deliver code p id url cb rest attempt delivered s)
  unfolding deliver
  deliver-Owes code p url cb rest attempt delivered s on (first, others) =
      let t = count_callback s in
      let kept : IsOnRecord id "accepted" (persist p t).1.subs =
        subst (IsOnRecord id "accepted") (sym (written_subs p t t.pool refl)) on in
      elim (Bool-cases (is_delivered code)) [
        | inl e ↦ elim (Bool-cases (persist p t).0) [
          | inl f ↦
              rw (e, deliver, f)
                (next_stage-Owes url rest delivered (persist p t).1.subs kept others)
          | inr f ↦
              rw (e, deliver, f) (next_stage-Owes url rest false (persist p t).1.subs kept others)
        ]
        | inr e ↦ elim (Bool-cases (ltb attempt 10)) [
          | inl f ↦ rw (e, deliver, f) (on, (first, others))
          | inr f ↦ rw (e, deliver, f) (next_stage-Owes url rest false s.subs on others)
        ]
      ]

  finish-Owes : (p : Persist) (s : Server) → TaskOwes (finish p id s)
  unfolding finish
  finish-Owes p s = elim (Option-cases (lookup id s.subs)) [
    | inl e ↦ rw (e, finish) tt
    | inr (current, e) ↦
        elim (Bool-cases
          (persist p (put_sub (record current { callback_finished = true }) s id)).0) [
            | inl f ↦ rw (e, finish, f) tt
            | inr f ↦ rw (e, finish, f) tt
          ]
  ]

  pub advance-Owes :
      (m : Meets) (stage : Stage) (s : Server)
      → AllValues IsLegit s.subs
      → Owes id stage s.subs
      → TaskOwes (advance m (record { id = id; stage = stage }) s)
  unfolding advance
  advance-Owes m sleeping s legit owes = wake-Owes m.write s legit
  advance-Owes m (delivering url [] attempt delivered) s legit (on, all) =
      next_stage-Owes url [] delivered s.subs on tt
  advance-Owes m (delivering url (cb ∷ rest) attempt delivered) s legit (on, all) =
      deliver-Owes m.code m.write url cb rest attempt delivered s on all
  advance-Owes m finishing s legit owes = finish-Owes m.write s
  advance-Owes m ended s legit owes = tt
