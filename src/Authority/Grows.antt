-- ===== src/Authority/Grows.antt =====
-- How the ledger of internal/authority/server.go may change: an entry stays, with its identity, and a
-- completed entry keeps its outcome.
use dbos_conformance.Common.{
  String, none, some, ◌==◌, string_eq, ◌≡◌, refl, ◌∙◌, arith, eq_iff, Dict, lookup, insert,
  lookup-insert, Bool-cases, inl, inr, subst,
}
use dbos_conformance.Authority.Ledger.{Submission}

pub record Same (a b : Submission) : Type 0 where
  pub id : a.id ≡ b.id
  pub filing_id : a.filing_id ≡ b.filing_id
  pub scenario : a.scenario ≡ b.scenario
  pub outcome : a.status ≡ "completed" → (b.status ≡ "completed") × (a.outcome ≡ b.outcome)

pub Same-refl : (a : Submission) → Same a a
Same-refl a = record { id = refl; filing_id = refl; scenario = refl; outcome = λ h. (h, refl) }

pub Same-trans : {a b c : Submission} → Same a b → Same b c → Same a c
Same-trans f g = record {
  id = f.id ∙ g.id;
  filing_id = f.filing_id ∙ g.filing_id;
  scenario = f.scenario ∙ g.scenario;
  outcome = λ h. ((g.outcome (f.outcome h).0).0, (f.outcome h).1 ∙ (g.outcome (f.outcome h).0).1);
}

abbrev pub Grows : Dict Submission → Dict Submission → Type 0
Grows a b =
    (id : String) (sub : Submission)
    → lookup id a ≡ some sub
    → (later : Submission) × (lookup id b ≡ some later) × Same sub later

pub Grows-refl : (a : Dict Submission) → Grows a a
Grows-refl a id sub h = (sub, h, Same-refl sub)

pub Grows-trans : (a b c : Dict Submission) → Grows a b → Grows b c → Grows a c
Grows-trans a b c f g id sub h =
    let (later, k, same) = f id sub h in
    let (last, l, same') = g id later k in (last, l, Same-trans same same')

pub Grows-insert_new :
    (id : String) (new : Submission) (a : Dict Submission)
    → lookup id a ≡ none
    → Grows a (insert id new a)
Grows-insert_new id new a fresh k sub h = elim (Bool-cases (id == k)) [
  | inl e ↦ ground (arith, eq_iff id k)
  | inr e ↦ (sub, ground (arith, lookup-insert id k new a), Same-refl sub)
]

pub Grows-insert_old :
    (id : String) (old new : Submission) (a : Dict Submission)
    → lookup id a ≡ some old
    → Same old new
    → Grows a (insert id new a)
Grows-insert_old id old new a there same k sub h = elim (Bool-cases (id == k)) [
  | inl e ↦
      let eq : old ≡ sub = ground (arith, eq_iff id k) in
      (new, ground (arith, lookup-insert id k new a), subst (λ x. Same x new) eq same)
  | inr e ↦ (sub, ground (arith, lookup-insert id k new a), Same-refl sub)
]
