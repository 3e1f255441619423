-- ===== src/Authority/Carries.antt =====
-- How one write of internal/authority/server.go carries the ledger over: what is recorded stays, and
-- the server stays sound.
use dbos_conformance.Common.{
  ◌+◌, String, ℤ, Option, none, some, ◌==◌, string_eq, ◌≡◌, refl, sym, ◌∙◌, ap, subst, ◌⊎◌, inl,
  inr, arith, eq_iff, eq_refl, length, lookup, insert, Bool-cases, length-insert_new,
  length-insert_old, lookup-insert,
}
use dbos_conformance.Authority.Ledger.{
  Submission, PersistentState, Server, snapshot, Persist, restore, save_or_fail, write_row,
}
use dbos_conformance.Authority.Submit.{SubmitRequest, Response, handle_submit, save_then}
use dbos_conformance.Authority.Attempt.{Attempt, refused, repeated, recorded, handle_submit-Tries}
use dbos_conformance.Authority.Completion.{put_sub}
use dbos_conformance.Authority.Grows.{
  Same, Same-refl, Grows, Grows-refl, Grows-insert_new, Grows-insert_old,
}
use dbos_conformance.Authority.Sound.{
  IsSound, Settled, written, taken_back, Settled-IsSound, save_then-Settled, has_database, done,
  lost, late, persist-Wrote,
}

-- The new server is sound and its ledger has grown.
pub record Carried (s u : Server) : Type 0 where
  pub sound : IsSound u
  pub grown : Grows s.subs u.subs

-- An attempt only adds to the ledger, and counts what it adds.
Attempt-Grows :
    (now : ℤ) (req : SubmitRequest) (s t : Server) (r : Response) (scheduled : Option Submission)
    → Attempt now req s t r scheduled
    → Grows s.subs t.subs
Attempt-Grows now req s t r scheduled (refused refusal e f g) =
    subst (λ m. Grows s.subs m) (sym e) (Grows-refl s.subs)
Attempt-Grows now req s t r scheduled (repeated old known e f g h i j) =
    subst (λ m. Grows s.subs m) (sym g)
      (Grows-insert_old req.submission_id old _ s.subs known
        (record { id = refl; filing_id = refl; scenario = refl; outcome = λ k. (k, refl) }))
Attempt-Grows now req s t r scheduled (recorded sub fresh e f g h) =
    subst (λ m. Grows s.subs m) (sym f) (Grows-insert_new req.submission_id sub s.subs fresh)

Attempt-counted :
    (now : ℤ) (req : SubmitRequest) (s t : Server) (r : Response) (scheduled : Option Submission)
    → Attempt now req s t r scheduled
    → s.metrics.submissions ≡ length s.subs
    → t.metrics.submissions ≡ length t.subs
Attempt-counted now req s t r scheduled (refused refusal e f g) n = rw (e, f) n
Attempt-counted now req s t r scheduled (repeated old known e f g h i j) n =
    rw (g, h) (n ∙ sym (length-insert_old req.submission_id _ old s.subs known))
Attempt-counted now req s t r scheduled (recorded sub fresh e f g h) n =
    rw (f, g, length-insert_new req.submission_id sub s.subs fresh) (ap (λ k. k + 1) n)

-- A settled write carries the server over.
pub Settled-Carried :
    (s t u : Server)
    → IsSound s
    → Grows s.subs t.subs
    → t.metrics.submissions ≡ length t.subs
    → Grows s.subs u.subs
    → Settled s t u
    → Carried s u
Settled-Carried s t u sound g n k settled = record {
  sound = Settled-IsSound s t u sound g n settled;
  grown = k;
}

-- Whatever the write does, the call leaves the ledger as it was or as the attempt made it.
save_then-Grows :
    (p : Persist) (s t : Server) (r : Response) (scheduled : Option Submission)
    (row : Option PersistentState)
    → s.pool ≡ some row
    → t.pool ≡ s.pool
    → Grows s.subs t.subs
    → Grows s.subs (save_then p (snapshot s) t r scheduled).server.subs
unfolding save_then
save_then-Grows p s t r scheduled row h k g = elim (persist-Wrote p t row (k ∙ h)) [
  | done e ↦ unfold save_or_fail restore in rw (e, save_then) g
  | lost e ↦ unfold save_or_fail restore in rw (e, save_then) (Grows-refl s.subs)
  | late e ↦ unfold save_or_fail restore in rw (e, save_then) (Grows-refl s.subs)
]

pub same_server : (s : Server) → IsSound s → Carried s s
same_server s sound = record { sound = sound; grown = Grows-refl s.subs }

pub handle_submit-Carried :
    (p : Persist) (now : ℤ) (req : Option SubmitRequest) (s : Server)
    → IsSound s
    → Carried s (handle_submit p now req s).server
unfolding handle_submit
handle_submit-Carried p now none s sound = same_server s sound
handle_submit-Carried p now (some req) s sound = elim (Bool-cases (req.submission_id == "")) [
  | inl e ↦ rw (e, handle_submit) (same_server s sound)
  | inr e ↦
      let tries = handle_submit-Tries p now req s e in
      let (row, h) = has_database s sound.row in
      let g = Attempt-Grows now req s tries.after tries.response tries.scheduled tries.attempt in
      subst (λ handled. Carried s handled.server) (sym tries.handled)
        (Settled-Carried s tries.after _ sound g
          (Attempt-counted now req s tries.after tries.response tries.scheduled tries.attempt
            sound.counted)
          (save_then-Grows p s tries.after tries.response tries.scheduled row h tries.same_pool g)
          (save_then-Settled p s tries.after tries.response tries.scheduled row h tries.same_pool))
]

-- A write of the server with one entry replaced.
module _ (id : String) (current new : Submission) (s : Server) (sound : IsSound s)
    (known : lookup id s.subs ≡ some current) (same : Same current new) where
  replaced_counted : s.metrics.submissions ≡ length (insert id new s.subs)
  replaced_counted = sound.counted ∙ sym (length-insert_old id new current s.subs known)

  replaced-Grows : Grows s.subs (insert id new s.subs)
  replaced-Grows = Grows-insert_old id current new s.subs known same

  pub written_Carried : Carried s (write_row (put_sub new s id))
  written_Carried =
      Settled-Carried s (put_sub new s id) _ sound replaced-Grows replaced_counted replaced-Grows
        (written refl refl refl)

  module _ (back : Submission) (forth : Same current back) (home : Same back current) where
    back-Grows : Grows (insert id back (insert id new s.subs)) s.subs
    back-Grows k sub h = elim (Bool-cases (id == k)) [
      | inl e ↦
          let eq : back ≡ sub =
            ground (arith, eq_iff id k, lookup-insert id k back (insert id new s.subs)) in
          let there : lookup k s.subs ≡ some current = ground (arith, eq_iff id k) in
          (current, there, subst (λ x. Same x current) eq home)
      | inr e ↦
          let there : lookup k s.subs ≡ some sub = ground (
            arith,
            lookup-insert id k back (insert id new s.subs),
            lookup-insert id k new s.subs,
          ) in
          (sub, there, Same-refl sub)
    ]

    -- The entry stays the one that was replaced twice.
    back_known : lookup id (insert id new s.subs) ≡ some new
    back_known = ground (arith, lookup-insert id id new s.subs, eq_refl id)

    forth-Grows : Grows s.subs (insert id back (insert id new s.subs))
    forth-Grows k sub h = elim (Bool-cases (id == k)) [
      | inl e ↦
          let eq : current ≡ sub = ground (arith, eq_iff id k) in
          let there : lookup k (insert id back (insert id new s.subs)) ≡ some back =
            ground (arith, lookup-insert id k back (insert id new s.subs)) in
          (back, there, subst (λ x. Same x back) eq forth)
      | inr e ↦
          let there : lookup k (insert id back (insert id new s.subs)) ≡ some sub = ground (
            arith,
            lookup-insert id k back (insert id new s.subs),
            lookup-insert id k new s.subs,
          ) in
          (sub, there, Same-refl sub)
    ]

    back_length : length (insert id back (insert id new s.subs)) ≡ length s.subs
    back_length =
        length-insert_old id back new (insert id new s.subs) back_known
        ∙ length-insert_old id new current s.subs known

    pub fallen_Carried :
        (u : Server)
        → u.subs ≡ insert id back (insert id new s.subs)
        → u.metrics.submissions ≡ s.metrics.submissions
        → (u.pool ≡ s.pool) ⊎ (u.pool ≡ some (some (snapshot (put_sub new s id))))
        → Carried s u
    fallen_Carried u e f g =
        Settled-Carried s (put_sub new s id) u sound replaced-Grows replaced_counted
          (subst (λ m. Grows s.subs m) (sym e) forth-Grows)
          (taken_back (subst (λ m. Grows m s.subs) (sym e) back-Grows) (rw e back_length) f g)
