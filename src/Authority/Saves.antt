-- ===== src/Authority/Saves.antt =====
-- What the answer of `saveOrFailLocked` of internal/authority/server.go tells of the server.
use dbos_conformance.Common.{Option, none, some, ◌≡◌, refl, ◌⊎◌, inl, inr}
use dbos_conformance.Authority.Ledger.{
  Submission, PersistentState, Server, snapshot, Persist, stored, failed, unacknowledged, persist,
  restore, save_or_fail,
}
use dbos_conformance.Authority.Submit.{Response, Handled, http_error, save_then}

-- Either the write is stored, with the response and the server as the caller has them, or the caller
-- sees 500 and the memory is what it was.
pub data Saves (s t : Server) (r : Response) (scheduled : Option Submission) (h : Handled)
    : Type 0 where
  saved :
      h.response ≡ r
      → snapshot h.server ≡ snapshot t
      → h.scheduled ≡ scheduled
      → (t.pool ≡ none) ⊎ (h.server.pool ≡ some (some (snapshot t)))
      → Saves s t r scheduled h
  unsaved :
      h.response ≡ http_error 500
      → snapshot h.server ≡ snapshot s
      → h.scheduled ≡ none
      → Saves s t r scheduled h

pub save_then-Saves :
    (p : Persist) (s t : Server) (r : Response) (scheduled : Option Submission)
    → (pool : Option (Option PersistentState)) → t.pool ≡ pool
    → Saves s t r scheduled (save_then p (snapshot s) t r scheduled)
unfolding save_then save_or_fail persist restore
save_then-Saves p s t r scheduled none h =
    rw (h, save_then, save_or_fail, persist) (saved refl refl refl (inl refl))
save_then-Saves stored s t r scheduled (some row) h =
    rw (h, save_then, save_or_fail, persist) (saved refl refl refl (inr refl))
save_then-Saves failed s t r scheduled (some row) h =
    rw (h, save_then, save_or_fail, persist) (unsaved refl refl refl)
save_then-Saves unacknowledged s t r scheduled (some row) h =
    rw (h, save_then, save_or_fail, persist) (unsaved refl refl refl)
