-- ===== src/Authority/Process/Ledgered.antt =====
-- The entries that the ledger of internal/authority/server.go can have: pending, accepted, or rejected
-- with nothing left to send.
use dbos_conformance.Common.{◌+◌, true, ◌≡◌, refl, AllValues, insert-AllValues, lookup-AllValues}
use dbos_conformance.Authority.Ledger.{Submission}
use dbos_conformance.Authority.Keeps.{Kept}

pub data IsLegit (sub : Submission) : Type 0 where
  pending : sub.status ≡ "processing" → IsLegit sub
  accepted : sub.status ≡ "completed" → sub.outcome ≡ "accepted" → IsLegit sub
  rejected :
      sub.status ≡ "completed"
      → sub.outcome ≡ "rejected"
      → sub.callback_finished ≡ true
      → IsLegit sub

pub repeated-IsLegit :
    (sub : Submission) → IsLegit sub → IsLegit (record sub { attempts = sub.attempts + 1 })
repeated-IsLegit sub (pending e) = pending e
repeated-IsLegit sub (accepted e f) = accepted e f
repeated-IsLegit sub (rejected e f g) = rejected e f g

pub marked-IsLegit :
    (sub : Submission) → IsLegit sub → IsLegit (record sub { callback_finished = true })
marked-IsLegit sub (pending e) = pending e
marked-IsLegit sub (accepted e f) = accepted e f
marked-IsLegit sub (rejected e f g) = rejected e f refl

abbrev pub legitimate : Kept
legitimate = record {
  Holds = AllValues IsLegit;
  Allowed = λ id sub. IsLegit sub;
  empty = tt;
  put = λ id sub subs legit all. insert-AllValues IsLegit id sub subs legit all;
  known = λ id sub subs there all. lookup-AllValues IsLegit id sub subs there all;
  repeats = λ id sub legit. repeated-IsLegit sub legit;
  completes = λ id sub processing legit. accepted refl refl;
  marks = λ id sub legit. marked-IsLegit sub legit;
}
