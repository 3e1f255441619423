-- ===== src/Authority/Process/Verdicts.antt =====
-- The rejections that `Client.Submit` of internal/authority/server.go returns, and what its status
-- answers tell of later.
use dbos_conformance.Common.{
  String, ℤ, Option, some, ◌==◌, string_eq, nat_eq, ok, ◌≡◌, refl, sym, ap, ◌∙◌, subst, arith,
  eq_iff, eq_refl, inl, inr, ◌+◌, lookup, lookup-insert, Bool-cases, Option-cases,
}
use dbos_conformance.Domain.Decimal.{show_nat}
use dbos_conformance.Authority.Ledger.{Submission, Server, Persist}
use dbos_conformance.Authority.Submit.{
  SubmitRequest, Response, StatusResponse, handle_submit, handle_status, status_from_outcome,
}
use dbos_conformance.Authority.Attempt.{
  Says, conflict, throttled, no_effect, timed_out, Attempt, refused, repeated, recorded,
}
use dbos_conformance.Authority.Client.{SubmitOutcome, submit, status}
use dbos_conformance.Authority.Saves.{saved, unsaved}
use dbos_conformance.Authority.Answers.{answered, unnamed, same_subs}
use dbos_conformance.Authority.Process.Owed.{IsOnRecord}

-- A result other than the client's own has been read from the body.
read_rejected :
    (r : Response) (sub : SubmitOutcome)
    → submit (ok r) ≡ ok sub
    → sub.result ≡ "rejected"
    → Says "rejected" r
unfolding submit show_nat
read_rejected r sub returns verdict = elim (Option-cases r.body) [
  | inl e ↦ ground (arith, eq_iff "ambiguous" "rejected")
  | inr (b, e) ↦ (b, e, ground (arith, eq_iff "ambiguous" "rejected"))
]

rejected-Attempt :
    (now : ℤ) (req : SubmitRequest) (s t : Server) (r : Response) (scheduled : Option Submission)
    → Attempt now req s t r scheduled
    → Says "rejected" r
    → IsOnRecord req.submission_id "rejected" t.subs
rejected-Attempt now req s t r scheduled (refused (conflict e n) f g h) (b, e', says) = ground arith
rejected-Attempt now req s t r scheduled (refused (throttled e n) f g h) (b, e', says) =
    ground arith
rejected-Attempt now req s t r scheduled (refused (no_effect e k n) f g h) (b, e', says) =
    ground arith
rejected-Attempt now req s t r scheduled (refused (timed_out e n) f g h) (b, e', says) =
    ground arith
rejected-Attempt now req s t r scheduled (repeated old known e f g h i j) (b, e', says) =
    let told : status_from_outcome old ≡ "rejected" = ground (arith, ap (λ x. x.body) i) in
    record {
      sub = record old { attempts = old.attempts + 1 };
      known = rw (g, lookup-insert, eq_refl req.submission_id) refl;
      done = ground (arith, eq_iff old.status "completed", eq_iff "accepted" "rejected");
      same = ground (arith, eq_iff old.outcome "rejected", eq_iff "accepted" "rejected");
    }
rejected-Attempt now req s t r scheduled (recorded sub fresh (inl (e, e', (a, k, said))) f g h)
      (b, l, says) =
    let same : a ≡ b = cc (k, l) in ground (arith, eq_iff "accepted" "rejected")
rejected-Attempt now req s t r scheduled (recorded sub fresh (inr (e, e', e'')) f g h) says =
    record {
      sub = sub;
      known = rw (f, lookup-insert, eq_refl req.submission_id) refl;
      done = rw e refl;
      same = rw e refl;
    }

-- A submission that the client reports as rejected is on record as completed with that outcome.
pub rejection_is_recorded :
    (p : Persist) (now : ℤ) (req : SubmitRequest) (s : Server) (sub : SubmitOutcome)
    → submit (ok (handle_submit p now (some req) s).response) ≡ ok sub
    → sub.result ≡ "rejected"
    → IsOnRecord req.submission_id "rejected" (handle_submit p now (some req) s).server.subs
rejection_is_recorded p now req s sub returns verdict =
    let u = (handle_submit p now (some req) s).server in
    let (b, e, says) = read_rejected _ sub returns verdict in
    elim (Bool-cases (req.submission_id == "")) [
      | inl k ↦
          let bad = sym (ap (λ x. x.response.body) (unnamed p now req s k)) ∙ e in ground arith
      | inr k ↦
          let a = answered p now req s k in
          elim a.saves [
            | saved f g h l ↦
                let body = sym (ap (λ x. x.body) f) ∙ e in
                subst (IsOnRecord req.submission_id "rejected") (sym (same_subs a.after u g)) (
                  rejected-Attempt now req s a.after a.response a.scheduled a.attempt
                    (b, body, says))
            | unsaved f g h ↦ let bad = sym (ap (λ x. x.body) f) ∙ e in ground arith
          ]
    ]

-- What the client reads of an operation's status as completed is on record.
pub status_is_recorded :
    (id : String) (s : Server) (st : StatusResponse)
    → status (ok (200, some (handle_status id s))) ≡ ok st
    → st.status ≡ "completed"
    → IsOnRecord id st.outcome s.subs
unfolding status handle_status
status_is_recorded id s st returns done = elim (Option-cases (lookup id s.subs)) [
  | inl e ↦
      let said = rw (e, handle_status) at returns in ground (arith, eq_iff "not_found" "completed")
  | inr (sub, e) ↦
      let said = rw (e, handle_status) at returns in
      record { sub = sub; known = e; done = ground arith; same = ground arith }
]

-- The status of an operation names it.
pub status_names :
    (id : String) (s : Server) (st : StatusResponse)
    → status (ok (200, some (handle_status id s))) ≡ ok st
    → st.submission_id ≡ id
unfolding status handle_status
status_names id s st returns = elim (Option-cases (lookup id s.subs)) [
  | inl e ↦ let said = rw (e, handle_status) at returns in ground arith
  | inr (sub, e) ↦ let said = rw (e, handle_status) at returns in ground arith
]
