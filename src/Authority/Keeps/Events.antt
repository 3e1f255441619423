-- ===== src/Authority/Keeps/Events.antt =====
-- Such a property of the ledger of internal/authority/server.go outlives calls and restarts.
use dbos_conformance.Common.{
  ◌+◌, ℤ, Option, none, some, List, [], ◌∷◌, ◌==◌, string_eq, ◌≡◌, refl, sym, subst, Dict,
  Bool-cases, All, inl, inr, nat_eq,
}
use dbos_conformance.Authority.Ledger.{
  Submission, PersistentState, Timing, Server, snapshot, Persist, persist, save_or_fail, restore,
  new_server, new_persistent_server, unless_nil,
}
use dbos_conformance.Authority.Submit.{
  SubmitRequest, Response, handle_submit, save_then, new_submission, rejected_submission,
}
use dbos_conformance.Authority.Attempt.{Attempt, refused, repeated, recorded, handle_submit-Tries}
use dbos_conformance.Authority.Events.{Event, submits, advances, restarts, happens, happen}
use dbos_conformance.Authority.Keeps.{
  Kept, HoldsRow, Keeps, persist-Keeps, MayAdvance, advance-Keeps,
}

module _ (kept : Kept) where
  save_then-Keeps :
      (p : Persist) (s t : Server) (r : Response) (scheduled : Option Submission)
      → Keeps kept s
      → Keeps kept t
      → Keeps kept (save_then p (snapshot s) t r scheduled).server
  unfolding save_then save_or_fail restore
  save_then-Keeps p s t r scheduled before after =
      let (holds, row) = persist-Keeps kept p t after in
      elim (Bool-cases (persist p t).0) [
        | inl e ↦ rw (e, save_then, save_or_fail) (holds, row)
        | inr e ↦ rw (e, save_then, save_or_fail) (before.0, row)
      ]

  -- What a call may put on record for an ID that is new.
  abbrev pub MayRecord : ℤ → SubmitRequest → Type 0
  MayRecord now req =
      kept.Allowed req.submission_id (new_submission now req)
      × kept.Allowed req.submission_id (rejected_submission now req)

  of_attempt :
      (now : ℤ) (req : SubmitRequest) (s t : Server) (r : Response) (scheduled : Option Submission)
      → MayRecord now req
      → kept.Holds s.subs
      → Attempt now req s t r scheduled
      → kept.Holds t.subs
  of_attempt now req s t r scheduled may holds (refused refusal e f g) = rw e holds
  of_attempt now req s t r scheduled may holds (repeated old there e f g h i j) = rw g (
      kept.put req.submission_id (record old { attempts = old.attempts + 1 }) s.subs
        (kept.repeats req.submission_id old (kept.known req.submission_id old s.subs there holds))
        holds)
  of_attempt now req s t r scheduled may holds (recorded sub fresh (inl (e, e', e'')) f g h) =
      rw (f, e) (kept.put req.submission_id (new_submission now req) s.subs may.0 holds)
  of_attempt now req s t r scheduled may holds (recorded sub fresh (inr (e, e', e'')) f g h) =
      rw (f, e) (kept.put req.submission_id (rejected_submission now req) s.subs may.1 holds)

  submit-Keeps :
      (p : Persist) (now : ℤ) (req : SubmitRequest) (s : Server)
      → MayRecord now req
      → Keeps kept s
      → Keeps kept (handle_submit p now (some req) s).server
  unfolding handle_submit
  submit-Keeps p now req s may keeps = elim (Bool-cases (req.submission_id == "")) [
    | inl e ↦ rw (e, handle_submit) keeps
    | inr e ↦
        let tries = handle_submit-Tries p now req s e in
        let holds =
          of_attempt now req s tries.after tries.response tries.scheduled may keeps.0
            tries.attempt in
        let row = subst (HoldsRow kept) (sym tries.same_pool) keeps.1 in
        subst (λ handled. Keeps kept handled.server) (sym tries.handled)
          (save_then-Keeps p s tries.after tries.response tries.scheduled keeps (holds, row))
  ]

  loaded :
      (timing : Timing) (state : PersistentState) (subs : Option (Dict Submission))
      → state.submissions ≡ subs
      → HoldsRow kept (some (some state))
      → kept.Holds (unless_nil state.submissions [])
  loaded timing state none e row = rw e kept.empty
  loaded timing state (some subs) e row = let row' = rw e at row in rw e row'

  restart-Keeps :
      (timing : Timing) (s : Server) (pool : Option (Option PersistentState))
      → s.pool ≡ pool
      → Keeps kept s
      → Keeps kept (happens (restarts timing) s)
  unfolding happens new_server new_persistent_server restore
  restart-Keeps timing s none e keeps = rw (e, happens) (kept.empty, tt)
  restart-Keeps timing s (some none) e keeps = rw (e, happens) (kept.empty, tt)
  restart-Keeps timing s (some (some state)) e keeps =
      let row = subst (HoldsRow kept) e keeps.1 in
      rw (e, happens) (loaded timing state state.submissions refl row, row)

  -- The event puts only allowed entries on record.
  abbrev pub Permits : Server → Event → Type 0
  Permits s (submits p now none) = Unit
  Permits s (submits p now (some req)) = MayRecord now req
  Permits s (advances m t) = MayAdvance kept t.id t.stage s
  Permits s (restarts timing) = Unit

  pub happens-Keeps :
      (e : Event) (s : Server) → Permits s e → Keeps kept s → Keeps kept (happens e s)
  unfolding happens handle_submit
  happens-Keeps (submits p now none) s permitted keeps = keeps
  happens-Keeps (submits p now (some req)) s permitted keeps =
      submit-Keeps p now req s permitted keeps
  happens-Keeps (advances m t) s permitted keeps =
      advance-Keeps kept m t.id t.stage s permitted keeps
  happens-Keeps (restarts timing) s permitted keeps = restart-Keeps timing s s.pool refl keeps

  -- Wherever the ledger has the property.
  abbrev pub AlwaysPermits : Event → Type 0
  AlwaysPermits e = (s : Server) → Keeps kept s → Permits s e

  pub happen-Keeps :
      (es : List Event) (s : Server)
      → All AlwaysPermits es
      → Keeps kept s
      → Keeps kept (happen es s)
  unfolding happen
  happen-Keeps [] s permitted keeps = keeps
  happen-Keeps (e ∷ es) s permitted keeps =
      happen-Keeps es (happens e s) permitted.1 (happens-Keeps e s (permitted.0 s keeps) keeps)
