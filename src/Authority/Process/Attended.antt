-- ===== src/Authority/Process/Attended.antt =====
-- No operation of internal/authority/server.go is forgotten: what is being processed has a goroutine
-- that will complete it.
use mathlib.Core.List.{Memᴰ}
use dbos_conformance.Common.{
  ℕ, String, Bool, true, false, Option, some, List, [], ◌∷◌, ◌==◌, string_eq, ltb, nat_eq, ◌≡◌, ◌≢◌,
  refl, sym, ap, ◌∙◌, subst, arith, eq_iff, eq_refl, inl, inr, Dict, lookup, insert, lookup-insert,
  Bool-cases, Option-cases,
}
use dbos_conformance.Domain.{Callback}
use dbos_conformance.Authority.Ledger.{Submission, Server, Persist, stored, persist}
use dbos_conformance.Authority.Completion.{
  Stage, sleeping, delivering, finishing, ended, Task, Meets, advance, wake, deliver, finish,
  put_sub, completed, after_completion, count_callback, is_delivered,
}
use dbos_conformance.Authority.Keeps.{written_subs}

-- The operation is being processed.
pub record IsPending (id : String) (subs : Dict Submission) : Type 0 where
  pub sub : Submission
  pub known : lookup id subs ≡ some sub
  pub processing : sub.status ≡ "processing"

abbrev pub sleeper : String → Task
sleeper id = record { id = id; stage = sleeping }

-- Each operation that is being processed has a goroutine that has yet to complete it.
abbrev pub Attends : Dict Submission → List Task → Type 0
Attends subs tasks = (id : String) → IsPending id subs → Memᴰ (sleeper id) tasks

stored_saves : (t : Server) → (persist stored t).0 ≡ true
unfolding persist
stored_saves t = elim (Option-cases t.pool) [
  | inl e ↦ rw (e, persist) refl
  | inr (row, e) ↦ rw (e, persist) refl
]

after_completion-subs :
    (id : String) (current : Submission) (s : Server)
    → (after_completion id current s).1.subs ≡ s.subs
after_completion-subs id current s = elim (Bool-cases current.callback_finished) [
  | inl e ↦ rw e refl
  | inr e ↦ rw e refl
]

-- A new entry that is not being processed makes nothing pending.
pub put-IsPending :
    (id key : String) (new : Submission) (subs : Dict Submission)
    → (key ≡ id → new.status ≡ "processing" → IsPending id subs)
    → IsPending id (insert key new subs)
    → IsPending id subs
put-IsPending id key new subs old pending = elim (Bool-cases (key == id)) [
  | inl e ↦
      let known = rw (lookup-insert, e) at pending.known in
      let same : new ≡ pending.sub = cc in
      old ((eq_iff key id).0 e)
        (subst (λ (x : Submission). x.status ≡ "processing") (sym same) pending.processing)
  | inr e ↦ record {
    sub = pending.sub;
    known = rw (lookup-insert, e) at pending.known;
    processing = pending.processing;
  }
]

-- An entry that is there is the one that is pending.
pub pending_entry :
    (id : String) (sub : Submission) (subs : Dict Submission)
    → lookup id subs ≡ some sub
    → IsPending id subs
    → sub.status ≡ "processing"
pending_entry id sub subs known pending =
    let same : pending.sub ≡ sub = cc (pending.known, known) in
    subst (λ (x : Submission). x.status ≡ "processing") same pending.processing

-- A ledger in which an entry has been completed.
completed-IsPending :
    (id other : String) (current : Submission) (subs after : Dict Submission)
    → after ≡ insert id (completed current) subs
    → IsPending other after
    → IsPending other subs × (other ≢ id)
completed-IsPending id other current subs after e pending =
    let there = subst (IsPending other) e pending in
    (
      put-IsPending other id (completed current) subs
          (λ k done. absurd (ground (arith, eq_iff "completed" "processing"))) there,
      λ k.
          let own = subst (λ x. IsPending x (insert id (completed current) subs)) k there in
          let done : "completed" ≡ "processing" =
            pending_entry id (completed current) (insert id (completed current) subs)
              (rw (lookup-insert, eq_refl id) refl) own in
          ground (arith, eq_iff "completed" "processing"),
    )

module _ (id : String) where
  -- Waking completes the operation, and makes no other one pending.
  wake-IsPending :
      (other : String) (s : Server)
      → IsPending other (wake stored id s).1.subs
      → IsPending other s.subs × (other ≢ id)
  unfolding wake
  wake-IsPending other s = elim (Option-cases (lookup id s.subs)) [
    | inl e ↦
        rw (e, wake)
          (λ pending. (
            pending,
            λ k.
                let own = subst (λ x. IsPending x s.subs) k pending in
                let bad = sym e ∙ own.known in ground arith,
          ))
    | inr (current, e) ↦ elim (Bool-cases (current.status == "processing")) [
      | inl k ↦
          let t = put_sub (completed current) s id in
          rw (e, k, wake, stored_saves t)
            (completed-IsPending id other current s.subs _ (
              after_completion-subs id (completed current) (persist stored t).1
              ∙ written_subs stored t t.pool refl))
      | inr k ↦
          rw (e, k, wake)
            (λ pending.
              let there = subst (IsPending other) (after_completion-subs id current s) pending in
              (
                there,
                λ same.
                    let own = subst (λ x. IsPending x s.subs) same there in
                    let is = pending_entry id current s.subs e own in
                    ground (arith, eq_iff current.status "processing"),
              ))
    ]
  ]

  deliver-subs :
      (code : Option ℕ) (p : Persist) (url : String) (cb : Callback) (rest : List Callback)
      (attempt : ℕ) (delivered : Bool) (s : Server)
      → (deliver code p id url cb rest attempt delivered s).1.subs ≡ s.subs
  unfolding deliver
  deliver-subs code p url cb rest attempt delivered s =
      let t = count_callback s in
      elim (Bool-cases (is_delivered code)) [
        | inl e ↦ elim (Bool-cases (persist p t).0) [
          | inl f ↦ rw (e, deliver, f) (written_subs p t t.pool refl)
          | inr f ↦ rw (e, deliver, f) (written_subs p t t.pool refl)
        ]
        | inr e ↦ elim (Bool-cases (ltb attempt 10)) [
          | inl f ↦ rw (e, deliver, f) refl
          | inr f ↦ rw (e, deliver, f) refl
        ]
      ]

  finish-IsPending :
      (p : Persist) (other : String) (s : Server)
      → IsPending other (finish p id s).1.subs
      → IsPending other s.subs
  unfolding finish
  finish-IsPending p other s = elim (Option-cases (lookup id s.subs)) [
    | inl e ↦ rw (e, finish) (λ pending. pending)
    | inr (current, e) ↦
        let marked = record current { callback_finished = true } in
        let t = put_sub marked s id in
        let back = λ (k : id ≡ other) (is : current.status ≡ "processing").
          subst (λ x. IsPending x s.subs) k
            (record { sub = current; known = e; processing = is }) in
        elim (Bool-cases (persist p t).0) [
          | inl f ↦
              rw (e, finish, f)
                (λ pending.
                  put-IsPending other id marked s.subs back
                    (subst (IsPending other) (written_subs p t t.pool refl) pending))
          | inr f ↦
              rw (e, finish, f)
                (λ pending. put-IsPending other id marked s.subs back (
                  subst (IsPending other) (written_subs p t t.pool refl) (
                    put-IsPending other id (record current { callback_finished = false })
                      (persist p t).1.subs
                      (λ k is.
                        subst (λ x. IsPending x (persist p t).1.subs) k
                          (record {
                            sub = marked;
                            known =
                                ap (lookup id) (written_subs p t t.pool refl)
                                ∙ rw (lookup-insert, eq_refl id) refl;
                            processing = is;
                          }))
                      pending)))
        ]
  ]

  -- A step makes no operation pending, and one that wakes completes its own.
  pub advance-IsPending :
      (m : Meets) (stage : Stage) (other : String) (s : Server)
      → m.write ≡ stored
      → IsPending other (advance m (record { id = id; stage = stage }) s).1.subs
      → IsPending other s.subs × (sleeper other ≢ record { id = id; stage = stage })
  unfolding advance
  advance-IsPending m sleeping other s e pending =
      let (before, apart) =
        wake-IsPending other s (subst (λ w. IsPending other (wake w id s).1.subs) e pending) in
      (before, λ same. apart (ap (λ (t : Task). t.id) same))
  advance-IsPending m (delivering url [] attempt delivered) other s e pending =
      (pending, λ same. ground (arith))
  advance-IsPending m (delivering url (cb ∷ rest) attempt delivered) other s e pending = (
    subst (IsPending other) (deliver-subs m.code m.write url cb rest attempt delivered s) pending,
    λ same. ground (arith),
  )
  advance-IsPending m finishing other s e pending =
      (finish-IsPending m.write other s pending, λ same. ground (arith))
  advance-IsPending m ended other s e pending = (pending, λ same. ground (arith))
