-- ===== src/Operator/Start.antt =====
-- When `enqueueFiling` of cmd/opsctl/main.go acknowledges a start.
use dbos_conformance.Common.{
  String, Option, List, [], ◌∷◌, Result, ok, err, ◌≡◌, ◌↔◌, refl, arith, Bool-cases, Result-cases,
  ap, ◌∙◌, inl, inr, ◌⊎◌, ◌==◌,
}
use dbos_conformance.Domain.{FilingInput, input_eq, input_beq_iff}
use dbos_conformance.Domain.Json.{Json}
use dbos_conformance.Domain.Input.{Persisted, decode_filing_input}
use dbos_conformance.Accountable.Client.{report_conflict}
use dbos_conformance.Operator.Enqueue.{
  Enqueued, enqueued, conflicting, enqueue_failed, Answers, refuse_conflict, compare_inputs,
  verify_start, enqueue_filing,
}

abbrev pub Went : Enqueued → Type 0
Went sent = (sent ≡ enqueued) ⊎ ((e : String) × (sent ≡ conflicting e))

module _ (parse : String → Option Json) where
  -- DBOS has one workflow with the ID, and the input that it keeps is the requested one.
  abbrev pub Persists : Result String (List Persisted) → FilingInput → Type 0
  Persists listed requested =
      (p : Persisted) × (listed ≡ ok (p ∷ [])) × (decode_filing_input parse p ≡ ok requested)

module _ (parse : String → Option Json) (render : FilingInput → String)
    (digest : String → String) where
  no_error_ok :
      (ans : Answers) (a b : FilingInput) → refuse_conflict parse render digest ans a b ≡ ok tt → ⊥
  no_error_ok ans a b h = elim (Result-cases (report_conflict ans.exchange)) [
    | inl (e, f) ↦ let bad = rw (f, refuse_conflict) at h in ground arith
    | inr (u, f) ↦ let bad = rw (f, refuse_conflict) at h in ground arith
  ]

  compare_iff :
      (ans : Answers) (existing requested : FilingInput)
      → ((compare_inputs parse render digest ans existing requested).0 ≡ ok tt)
        ↔ (existing ≡ requested)
  compare_iff ans existing requested = elim (Bool-cases (existing == requested)) [
    | inl e ↦ rw e (λ _. (input_beq_iff existing requested).0 e, λ _. refl)
    | inr e ↦ rw e (
      λ h. absurd (no_error_ok ans existing requested h),
      λ h. ground (arith, (input_beq_iff existing requested).1 h),
    )
  ]

  same_input :
      (p q : Persisted) (listed : Result String (List Persisted)) (existing requested : FilingInput)
      → listed ≡ ok (p ∷ [])
      → decode_filing_input parse p ≡ ok existing
      → listed ≡ ok (q ∷ [])
      → decode_filing_input parse q ≡ ok requested
      → existing ≡ requested
  same_input p q listed existing requested one f at is = cc

  verify_iff :
      (ans : Answers) (requested : FilingInput) (listed : Result String (List Persisted))
      → ((verify_start parse render digest ans requested listed).0 ≡ ok tt)
        ↔ Persists parse listed requested
  unfolding verify_start
  verify_iff ans requested (err e) = (λ h. ground arith, λ (p, at, is). ground arith)
  verify_iff ans requested (ok []) = (λ h. ground arith, λ (p, at, is). ground arith)
  verify_iff ans requested (ok (p ∷ q ∷ ps)) = (λ h. ground arith, λ (p, at, is). ground arith)
  verify_iff ans requested (ok (p ∷ [])) = elim (Result-cases (decode_filing_input parse p)) [
    | inl (e, f) ↦ rw (f, verify_start) (λ h. ground arith, λ (q, at, is). ground arith)
    | inr (existing, f) ↦
        rw (f, verify_start)
          (
            λ h. (p, refl, f ∙ ap ok ((compare_iff ans existing requested).0 h)),
            λ (q, at, is).
                (compare_iff ans existing requested).1
                  (same_input p q _ existing requested refl f at is),
          )
  ]

  sent_iff :
      (ans : Answers) (id : String) (requested : FilingInput) (sent : Enqueued)
      → Went sent
      → ((verify_start parse render digest ans requested (ans.listed id)).0 ≡ ok tt)
        ↔ (Went sent × Persists parse (ans.listed id) requested)
  sent_iff ans id requested sent went =
      let (forth, back) = verify_iff ans requested (ans.listed id) in
      (λ h. (went, forth h), λ (w, h). back h)

Went-cases : (sent : Enqueued) → Went sent ⊎ ((e : String) × (sent ≡ enqueue_failed e))
Went-cases enqueued = inl (inl refl)
Went-cases (conflicting e) = inl (inr (e, refl))
Went-cases (enqueue_failed e) = inr (e, refl)

-- A direct start is acknowledged exactly if DBOS has taken the ID and the input or has reported a
-- conflict and, either way, keeps one workflow with the ID whose persisted input decodes to the requested
-- one.
pub acknowledged_iff_persisted :
    (parse : String → Option Json) (render : FilingInput → String) (digest : String → String)
    (ans : Answers) (id : String) (requested : FilingInput)
    → ((enqueue_filing parse render digest ans id requested).0 ≡ ok tt)
      ↔ (Went (ans.enqueue id requested) × Persists parse (ans.listed id) requested)
unfolding enqueue_filing
acknowledged_iff_persisted parse render digest ans id requested =
    elim (Went-cases (ans.enqueue id requested)) [
      | inl (inl e) ↦
          rw (e, enqueue_filing) (sent_iff parse render digest ans id requested _ (inl refl))
      | inl (inr (text, e)) ↦
          rw (e, enqueue_filing)
            (sent_iff parse render digest ans id requested _ (inr (text, refl)))
      | inr (text, e) ↦ rw (e, enqueue_filing) (λ h. ground arith, λ (went, p). ground arith)
    ]
