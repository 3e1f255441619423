-- ===== src/Authority/Sound.antt =====
-- What a server of internal/authority/server.go with a database keeps: its row holds everything that
-- its memory holds, and the metric counts the ledger. A write and what follows it keep both.
use dbos_conformance.Common.{
  Bool, true, false, Option, none, some, [], ◌≡◌, refl, sym, ◌∙◌, subst, ◌⊎◌, inl, inr, arith,
  length, Dict,
}
use dbos_conformance.Authority.Ledger.{
  Submission, PersistentState, Server, snapshot, Persist, stored, failed, unacknowledged, persist,
  write_row, save_or_fail, restore,
}
use dbos_conformance.Authority.Submit.{save_then, Response}
use dbos_conformance.Authority.Grows.{Grows, Grows-refl, Grows-trans}

-- The row, after the server's memory was `subs`.
pub data RowKeeps (subs : Dict Submission) (pool : Option (Option PersistentState)) : Type 0 where
  no_row : pool ≡ some none → Grows subs [] → RowKeeps subs pool
  row_of :
      (state : PersistentState) (kept : Dict Submission)
      → pool ≡ some (some state)
      → state.submissions ≡ some kept
      → state.metrics.submissions ≡ length kept
      → Grows subs kept
      → RowKeeps subs pool

pub record IsSound (s : Server) : Type 0 where
  pub row : RowKeeps s.subs s.pool
  pub counted : s.metrics.submissions ≡ length s.subs

-- The memory may fall back behind the row.
pub RowKeeps-behind :
    (a b : Dict Submission) (pool : Option (Option PersistentState))
    → Grows a b
    → RowKeeps b pool
    → RowKeeps a pool
RowKeeps-behind a b pool g (no_row e h) = no_row e (Grows-trans a b [] g h)
RowKeeps-behind a b pool g (row_of state kept e f n h) =
    row_of state kept e f n (Grows-trans a b kept g h)

pub snapshot-RowKeeps :
    (s : Server)
    → s.metrics.submissions ≡ length s.subs
    → RowKeeps s.subs (some (some (snapshot s)))
snapshot-RowKeeps s n = row_of (snapshot s) s.subs refl refl n (Grows-refl s.subs)

-- How a write leaves the server, which has a database.
pub data Wrote (t : Server) (result : Bool × Server) : Type 0 where
  done : result ≡ (true, write_row t) → Wrote t result
  lost : result ≡ (false, t) → Wrote t result
  late : result ≡ (false, write_row t) → Wrote t result

pub persist-Wrote :
    (p : Persist) (t : Server) (row : Option PersistentState)
    → t.pool ≡ some row
    → Wrote t (persist p t)
unfolding persist
persist-Wrote stored t row h = done (rw (h, persist) refl)
persist-Wrote failed t row h = lost (ground (arith))
persist-Wrote unacknowledged t row h = late (rw (h, persist) refl)

-- A server that has a row or none yet has a database.
pub has_database :
    (s : Server) → RowKeeps s.subs s.pool → (row : Option PersistentState) × (s.pool ≡ some row)
has_database s (no_row e h) = (none, e)
has_database s (row_of state kept e f n h) = (some state, e)

-- One write of `t`, made where the server was `s`, and the server `u` that the call leaves: what was
-- written, or after a failed write what was there before.
pub data Settled (s t u : Server) : Type 0 where
  written :
      u.subs ≡ t.subs → u.metrics ≡ t.metrics → u.pool ≡ some (some (snapshot t)) → Settled s t u
  taken_back :
      Grows u.subs s.subs
      → length u.subs ≡ length s.subs
      → u.metrics.submissions ≡ s.metrics.submissions
      → (u.pool ≡ s.pool) ⊎ (u.pool ≡ some (some (snapshot t)))
      → Settled s t u

-- A settled write keeps the server sound.
pub Settled-IsSound :
    (s t u : Server)
    → IsSound s
    → Grows s.subs t.subs
    → t.metrics.submissions ≡ length t.subs
    → Settled s t u
    → IsSound u
Settled-IsSound s t u sound g n (written a b c) = record {
  row =
      subst (λ pool. RowKeeps u.subs pool) (sym c)
        (subst (λ subs. RowKeeps subs (some (some (snapshot t)))) (sym a) (snapshot-RowKeeps t n));
  counted = rw (b, a) n;
}
Settled-IsSound s t u sound g n (taken_back a b c (inl d)) = record {
  row =
      subst (λ pool. RowKeeps u.subs pool) (sym d)
        (RowKeeps-behind u.subs s.subs s.pool a sound.row);
  counted = c ∙ (sound.counted ∙ sym b);
}
Settled-IsSound s t u sound g n (taken_back a b c (inr d)) = record {
  row =
      subst (λ pool. RowKeeps u.subs pool) (sym d)
        (RowKeeps-behind u.subs t.subs _ (Grows-trans u.subs s.subs t.subs a g)
          (snapshot-RowKeeps t n));
  counted = c ∙ (sound.counted ∙ sym b);
}

-- `saveOrFailLocked` settles: it rolls back to the snapshot that it is given.
pub save_then-Settled :
    (p : Persist) (s t : Server) (r : Response) (scheduled : Option Submission)
    (row : Option PersistentState)
    → s.pool ≡ some row
    → t.pool ≡ s.pool
    → Settled s t (save_then p (snapshot s) t r scheduled).server
unfolding save_then save_or_fail restore
save_then-Settled p s t r scheduled row h k = elim (persist-Wrote p t row (k ∙ h)) [
  | done e ↦ rw (e, save_then, save_or_fail) (written refl refl refl)
  | lost e ↦ rw (e, save_then, save_or_fail) (taken_back (Grows-refl s.subs) refl refl (inl k))
  | late e ↦ rw (e, save_then, save_or_fail) (taken_back (Grows-refl s.subs) refl refl (inr refl))
]
