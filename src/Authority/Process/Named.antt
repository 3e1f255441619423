-- ===== src/Authority/Process/Named.antt =====
-- The ledger of internal/authority/server.go has each entry under its own ID.
use dbos_conformance.Common.{
  String, some, [], ◌∷◌, ◌==◌, string_eq, ◌≡◌, sym, ap, ◌∙◌, arith, eq_iff, inl, inr, All, Dict,
  lookup, insert, Bool-cases,
}
use dbos_conformance.Authority.Ledger.{Submission, Server}
use dbos_conformance.Authority.Completion.{Stage, sleeping, delivering, finishing, ended}
use dbos_conformance.Authority.Keeps.{Kept, Keeps, MayAdvance}

-- Each entry stands under its own ID.
abbrev pub Named : Dict Submission → Type 0
Named = All (λ entry. entry.1.id ≡ entry.0)

pub insert-Named :
    (id : String) (sub : Submission) (subs : Dict Submission)
    → sub.id ≡ id
    → Named subs
    → Named (insert id sub subs)
unfolding insert
insert-Named id sub [] own named = (own, tt)
insert-Named id sub ((key, first) ∷ entries) own (top, rest) = elim (Bool-cases (key == id)) [
  | inl e ↦ rw (e, insert) (own, rest)
  | inr e ↦ rw (e, insert) (top, insert-Named id sub entries own rest)
]

pub lookup-Named :
    (id : String) (sub : Submission) (subs : Dict Submission)
    → lookup id subs ≡ some sub
    → Named subs
    → sub.id ≡ id
unfolding lookup
lookup-Named id sub [] known named = ground arith
lookup-Named id sub ((key, first) ∷ entries) known (top, rest) = elim (Bool-cases (key == id)) [
  | inl e ↦
      let known' : some first ≡ some sub = rw (e, lookup) at known in
      let same : first ≡ sub = cc in
      ap (λ (x : Submission). x.id) (sym same) ∙ top ∙ (eq_iff key id).0 e
  | inr e ↦ lookup-Named id sub entries (rw (e, lookup) at known) rest
]

abbrev pub under_own_ids : Kept
under_own_ids = record {
  Holds = Named;
  Allowed = λ id sub. sub.id ≡ id;
  empty = tt;
  put = λ id sub subs own named. insert-Named id sub subs own named;
  known = λ id sub subs there named. lookup-Named id sub subs there named;
  repeats = λ id sub own. own;
  completes = λ id sub processing own. own;
  marks = λ id sub own. own;
}

pub own-MayAdvance :
    (id : String) (stage : Stage) (s : Server)
    → Keeps under_own_ids s
    → MayAdvance under_own_ids id stage s
own-MayAdvance id sleeping s keeps = tt
own-MayAdvance id (delivering url cbs attempt delivered) s keeps = tt
own-MayAdvance id finishing s (named, row) = λ sub there. lookup-Named id sub s.subs there named
own-MayAdvance id ended s keeps = tt
