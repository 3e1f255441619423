-- ===== src/System/Truth.antt =====
-- The whole system: what the service of internal/accountable/server.go says of a filing is what the
-- provider of internal/authority/server.go has decided.
use mathlib.Core.List.{Memᴰ}
use dbos_conformance.Common.{
  String, ℤ, Bool, some, List, ok, ◌≡◌, ◌≢◌, sym, subst, subst₂, arith, eq_iff, ◌∙◌, ◌⊎◌, inl, inr,
  All, All-map, string_eq,
}
use dbos_conformance.Domain.{FilingInput, state_accepted, state_rejected}
use dbos_conformance.Domain.Identity.{provider_operation_id}
use dbos_conformance.Accountable.Command.{CommandRequest, mark_accepted, mark_rejected}
use dbos_conformance.Accountable.Tables.{FilingRow, Db, find_filing}
use dbos_conformance.Accountable.Queries.{Filing as Served}
use dbos_conformance.Accountable.History.{Call, run_calls}
use dbos_conformance.Accountable.Grounds.{Warranted, run_calls-WhereFinal}
use dbos_conformance.Authority.Ledger.{Timing}
use dbos_conformance.Authority.Submit.{StatusResponse}
use dbos_conformance.Authority.Process.{Move}
use dbos_conformance.Authority.Process.Owed.{IsOnRecord}
use dbos_conformance.Workflow.Steps as Steps
use dbos_conformance.Workflow.Outcome.{Config, operation_of}
use dbos_conformance.Workflow.Filing.{filing_workflow}
use dbos_conformance.Workflow.Canonical.{Canonical}
use dbos_conformance.Workflow.Acts.{workflow_acts_canonically}
use dbos_conformance.Workflow.Evidence.{Backed}
use dbos_conformance.Workflow.Evidence.Whole.{workflow_acts_on_evidence}
use dbos_conformance.Workflow.Evidence.Net.{NetBacked, safety_net_acts_on_evidence}
use dbos_conformance.Workflow.Reconcile as Net
use dbos_conformance.Workflow.Reconcile.{Looks, Counts, input_of}
use dbos_conformance.Operator.Reconcile as Operator
use dbos_conformance.Operator.Evidence.{Proven, acts_on_evidence}
use dbos_conformance.System.Once.{Mem-All}
use dbos_conformance.System.Honest.{ledger_after, Asked, Honest}
use dbos_conformance.System.Honest.Shown.{Asked-IsOnRecord, Shows-IsOnRecord}

module _ (timing : Timing) (ms : List Move) where
  -- The command is one of an execution of the workflow, of a round of the safety net, or of a round of
  -- `opsctl reconcile`, which had the provider's answers from this history.
  pub data Issued (c : CommandRequest) : Type 0 where
    by_workflow :
        (cfg : Config) (ans : Steps.Answers) (input : FilingInput)
        → Honest timing ms cfg ans input
        → Memᴰ (Steps.sends_command c) (filing_workflow cfg ans input).actions
        → Issued c
    by_net :
        (stale now : ℤ) (looks : Looks) (f : Served) (counts : Counts)
        → ((st : StatusResponse)
            → (looks.reviewed ≡ ok st) ⊎ (looks.inspected ≡ ok st)
            → Asked timing ms (operation_of (input_of f)) st)
        → Memᴰ (Steps.sends_command c) (Net.reconcile_filing stale now looks f counts).actions
        → Issued c
    by_operator :
        (apply : Bool) (version : String) (stale now : ℤ) (ans : Operator.Answers) (f : Served)
        → ((id : String) (st : StatusResponse) → ans.provider id ≡ ok st → Asked timing ms id st)
        → Memᴰ
            (Operator.sends_command c)
            (Operator.reconcile_filing apply version stale now ans f).acts
        → Issued c

  -- The filing's operation is on record as completed, with the filing's state as its outcome.
  abbrev pub Decided : String → ℤ → String → Type 0
  Decided id year state = IsOnRecord (provider_operation_id id year) state (ledger_after timing ms)

  renamed :
      (id id' : String) (year year' : ℤ) (state : String)
      → id ≡ id'
      → year ≡ year'
      → Decided id year state
      → Decided id' year' state
  renamed id id' year year' state same_id same_year decided =
      subst₂ (λ i y. Decided i y state) same_id same_year decided

  workflow-Warranted :
      (id : String) (year : ℤ) (cfg : Config) (ans : Steps.Answers) (input : FilingInput)
      (c : CommandRequest)
      → Honest timing ms cfg ans input
      → Memᴰ (Steps.sends_command c) (filing_workflow cfg ans input).actions
      → Warranted id year (Decided id year) c
  unfolding Canonical Backed
  workflow-Warranted id year cfg ans input c honest sent = λ same_id same_year.
      let (filing, in_year, key) =
        Mem-All (Canonical input) (Steps.sends_command c) _ sent
          (workflow_acts_canonically cfg ans input) in
      let (as_accepted, as_rejected) =
        Mem-All (Backed ans input) (Steps.sends_command c) _ sent
          (workflow_acts_on_evidence cfg ans input) in
      let its_id = sym filing ∙ same_id in
      let its_year = sym in_year ∙ same_year in
      (
        λ is.
            renamed input.filing_id id input.tax_year year state_accepted its_id its_year
              (Shows-IsOnRecord timing ms cfg ans input honest "accepted" (as_accepted is)),
        λ is.
            renamed input.filing_id id input.tax_year year state_rejected its_id its_year
              (Shows-IsOnRecord timing ms cfg ans input honest "rejected" (as_rejected is)),
      )

  -- The command of the outcome that is on record.
  told :
      (id : String) (year : ℤ) (outcome : String) (c : CommandRequest)
      → ((outcome ≡ "accepted") × (c.command_type ≡ mark_accepted))
        ⊎ ((outcome ≡ "rejected") × (c.command_type ≡ mark_rejected))
      → Decided id year outcome
      → ((c.command_type ≡ mark_accepted) → Decided id year state_accepted)
        × ((c.command_type ≡ mark_rejected) → Decided id year state_rejected)
  told id year outcome c final its = elim final [
    | inl (same, type) ↦ (
      λ is. subst (Decided id year) same its,
      λ is. ground (arith, eq_iff mark_accepted mark_rejected),
    )
    | inr (same, type) ↦ (
      λ is. ground (arith, eq_iff mark_accepted mark_rejected),
      λ is. subst (Decided id year) same its,
    )
  ]

  net-Warranted :
      (id : String) (year stale now : ℤ) (looks : Looks) (f : Served) (counts : Counts)
      (c : CommandRequest)
      → ((st : StatusResponse)
          → (looks.reviewed ≡ ok st) ⊎ (looks.inspected ≡ ok st)
          → Asked timing ms (operation_of (input_of f)) st)
      → Memᴰ (Steps.sends_command c) (Net.reconcile_filing stale now looks f counts).actions
      → Warranted id year (Decided id year) c
  unfolding NetBacked
  net-Warranted id year stale now looks f counts c asked sent = λ same_id same_year.
      let recorded =
        Mem-All (NetBacked looks f) (Steps.sends_command c) _ sent
          (safety_net_acts_on_evidence stale now looks f counts) in
      let on =
        Asked-IsOnRecord timing ms (operation_of (input_of f)) recorded.st
          (asked recorded.st recorded.read) recorded.done in
      let its : Decided id year recorded.st.outcome =
        renamed f.filing_id id f.tax_year year recorded.st.outcome (sym recorded.filing ∙ same_id)
          (sym recorded.year ∙ same_year) on in
      told id year recorded.st.outcome c recorded.final its

  operator-Warranted :
      (id : String) (year : ℤ) (apply : Bool) (version : String) (stale now : ℤ)
      (ans : Operator.Answers) (f : Served) (c : CommandRequest)
      → ((asked : String) (st : StatusResponse)
          → ans.provider asked ≡ ok st
          → Asked timing ms asked st)
      → Memᴰ
          (Operator.sends_command c)
          (Operator.reconcile_filing apply version stale now ans f).acts
      → Warranted id year (Decided id year) c
  unfolding Proven
  operator-Warranted id year apply version stale now ans f c asked sent = λ same_id same_year.
      let recorded =
        Mem-All (Proven ans f) (Operator.sends_command c) _ sent
          (acts_on_evidence apply version stale now ans f) in
      let on =
        Asked-IsOnRecord timing ms (operation_of (input_of f)) recorded.st
          (asked (operation_of (input_of f)) recorded.st recorded.read) recorded.done in
      let its : Decided id year recorded.st.outcome =
        renamed f.filing_id id f.tax_year year recorded.st.outcome (sym recorded.filing ∙ same_id)
          (sym recorded.year ∙ same_year) on in
      told id year recorded.st.outcome c recorded.final its

  Issued-Warranted :
      (id : String) (year : ℤ) (c : CommandRequest)
      → Issued c
      → Warranted id year (Decided id year) c
  Issued-Warranted id year c (by_workflow cfg ans input honest sent) =
      workflow-Warranted id year cfg ans input c honest sent
  Issued-Warranted id year c (by_net stale now looks f counts asked sent) =
      net-Warranted id year stale now looks f counts c asked sent
  Issued-Warranted id year c (by_operator apply version stale now ans f asked sent) =
      operator-Warranted id year apply version stale now ans f c asked sent

  abbrev pub IssuedCall : Call → Type 0
  IssuedCall c = Issued c.request

-- The service never shows a decision that the provider has not made. Over a history of a provider that
-- starts on an empty database, with calls, goroutine steps and restarts in any order and whatever
-- becomes of its writes, let any commands reach the service, in any order and with any faults, that were
-- sent by executions of the workflow, by rounds of the safety net or by rounds of `opsctl reconcile`,
-- where the answers and callbacks that these had were the provider's at some time of the history, or
-- were lost. A filing that was not final before and is accepted or rejected afterwards has its provider
-- operation on record at the end of the history, completed with just that outcome.
pub final_filing_is_decided :
    (timing : Timing) (ms : List Move) (cs : List Call) (db : Db) (id : String) (year : ℤ)
    (f f' : FilingRow)
    → All (IssuedCall timing ms) cs
    → find_filing id year db.filings ≡ some f
    → f.state ≢ state_accepted
    → f.state ≢ state_rejected
    → find_filing id year (run_calls cs db).filings ≡ some f'
    → (f'.state ≡ state_accepted) ⊎ (f'.state ≡ state_rejected)
    → IsOnRecord (provider_operation_id id year) f'.state (ledger_after timing ms)
final_filing_is_decided timing ms cs db id year f f' issued found open_a open_r found' final =
    let warranted =
      All-map (IssuedCall timing ms) (λ c. Warranted id year (Decided timing ms id year) c.request)
        cs (λ c h. Issued-Warranted timing ms id year c.request h) issued in
    let (as_accepted, as_rejected) =
      run_calls-WhereFinal id year (Decided timing ms id year) cs db f f' warranted found
        (λ h. absurd (open_a h), λ h. absurd (open_r h)) found' in
    elim final [
      | inl e ↦ subst (Decided timing ms id year) (sym e) (as_accepted e)
      | inr e ↦ subst (Decided timing ms id year) (sym e) (as_rejected e)
    ]
