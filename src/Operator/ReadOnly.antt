-- ===== src/Operator/ReadOnly.antt =====
-- Which subcommands of cmd/opsctl/main.go change anything.
use dbos_conformance.Common.{
  String, ℤ, Bool, true, false, not, Option, none, some, Result-cases, ◌≡◌, refl, arith, inl, inr,
  All, string_eq,
}
use dbos_conformance.Domain.{FilingInput}
use dbos_conformance.Domain.Json.{Json}
use dbos_conformance.Operator.ReportOnly.{report_only}
use dbos_conformance.Operator.Tool.{
  Command, list, inspect, cancel, resume, send, start, reconcile, other, ClientCall,
  lists_workflows, retrieves, gets_status, gets_steps, cancels, resumes, signals, enqueues, reports,
  lists_filings, acts, Replies, inspect_workflow, duration_of, reconcile_all, run,
}

-- The call only reads.
abbrev pub is_read : ClientCall → Bool
is_read (lists_workflows options) = true
is_read (retrieves id) = true
is_read (gets_status id) = true
is_read (gets_steps id) = true
is_read (cancels id) = false
is_read (resumes id) = false
is_read (signals signal) = false
is_read (enqueues id input version) = false
is_read (reports conflict) = false
is_read (lists_filings query) = true
is_read (acts act) = false

-- The subcommands that are to look only.
abbrev pub only_looks : Command → Bool
only_looks (list status limit queues) = true
only_looks (inspect id) = true
only_looks (cancel id) = false
only_looks (resume id) = false
only_looks (send id outcome key) = false
only_looks (start id year scenario version) = false
only_looks (reconcile apply stale_seconds version) = not apply
only_looks other = true

abbrev pub Reads : ClientCall → Type 0
Reads call = is_read call ≡ true

inspect-Reads : (replies : Replies) (id : String) → All Reads (inspect_workflow replies id).calls
inspect-Reads replies id = elim (Result-cases replies.retrieved) [
  | inl (e, r) ↦ rw r (refl, tt)
  | inr (a, r) ↦ elim (Result-cases replies.status) [
    | inl (e, s) ↦ rw (r, s) (refl, (refl, tt))
    | inr (b, s) ↦ rw (r, s) (refl, (refl, (refl, tt)))
  ]
]

reconcile-Reads :
    (replies : Replies) (stale_seconds : ℤ) (version : String)
    → All Reads (reconcile_all replies false stale_seconds version).calls
unfolding reconcile_all
reconcile-Reads replies stale_seconds version = elim (Result-cases replies.filings) [
  | inl (e, r) ↦ rw (r, reconcile_all) (refl, tt)
  | inr (filings, r) ↦
      rw
        (
          r,
          reconcile_all,
          report_only version (duration_of stale_seconds) replies.now replies.round filings,
        )
        (refl, tt)
]

-- Looking changes nothing: `list`, `inspect`, `reconcile` without -apply and an unknown subcommand make
-- no call that changes a workflow, a filing or the provider's messages, whatever the clients answer.
pub looking_changes_nothing :
    (parse : String → Option Json) (render : FilingInput → String) (digest : String → String)
    (replies : Replies) (c : Command)
    → only_looks c ≡ true
    → All Reads (run parse render digest replies c).calls
unfolding run
looking_changes_nothing parse render digest replies (list status limit queues) looks = (refl, tt)
looking_changes_nothing parse render digest replies (inspect none) looks = tt
looking_changes_nothing parse render digest replies (inspect (some id)) looks =
    inspect-Reads replies id
looking_changes_nothing parse render digest replies (reconcile true stale version) looks =
    ground arith
looking_changes_nothing parse render digest replies (reconcile false stale version) looks =
    reconcile-Reads replies stale version
looking_changes_nothing parse render digest replies other looks = tt
looking_changes_nothing parse render digest replies (cancel id) looks = ground arith
looking_changes_nothing parse render digest replies (resume id) looks = ground arith
looking_changes_nothing parse render digest replies (send id outcome key) looks = ground arith
looking_changes_nothing parse render digest replies (start id year scenario version) looks =
    ground arith
