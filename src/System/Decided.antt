-- ===== src/System/Decided.antt =====
-- The workflow of internal/workflow/filing.go with the provider of internal/authority/server.go: what
-- an execution returns is what the provider has decided.
use dbos_conformance.Common.{
  String, ok, ◌≡◌, refl, sym, subst, arith, eq_iff, ◌⊎◌, inl, inr, List, string_eq,
}
use dbos_conformance.Domain.{FilingInput, FilingResult}
use dbos_conformance.Authority.Ledger.{Timing}
use dbos_conformance.Authority.Process.{Move}
use dbos_conformance.Authority.Process.Owed.{IsOnRecord}
use dbos_conformance.Workflow.Steps.{Answers, sends_command}
use dbos_conformance.Workflow.Outcome.{
  Config, map_outcome, operation_of, command_of, outcome_command,
}
use dbos_conformance.Workflow.Filing.{filing_workflow}
use dbos_conformance.Workflow.Told.{OnRecord, key_of}
use dbos_conformance.Workflow.Recorded.{outcome-OnRecord}
use dbos_conformance.Workflow.Evidence.{Backed, Shows}
use dbos_conformance.Workflow.Evidence.Whole.{workflow_acts_on_evidence}
use dbos_conformance.System.Once.{Mem-All}
use dbos_conformance.System.Honest.{ledger_after, Honest}
use dbos_conformance.System.Honest.Shown.{Shows-IsOnRecord}

module _ (cfg : Config) (ans : Answers) (input : FilingInput) where
  -- An outcome that was put on record had been shown.
  recorded-Shows :
      (outcome : String)
      → (outcome ≡ "accepted") ⊎ (outcome ≡ "rejected")
      → OnRecord ans.record_outcome input outcome (filing_workflow cfg ans input).actions
      → Shows ans input outcome
  unfolding Backed map_outcome
  recorded-Shows outcome final on =
      let command =
        command_of input (key_of input (map_outcome outcome))
          (outcome_command (map_outcome outcome)) "" on.detail in
      let (as_accepted, as_rejected) =
        Mem-All (Backed ans input) (sends_command command) _ on.sent
          (workflow_acts_on_evidence cfg ans input) in
      elim final [
        | inl e ↦ subst (Shows ans input) (sym e) (as_accepted (rw (e, map_outcome) refl))
        | inr e ↦ subst (Shows ans input) (sym e) (as_rejected (rw (e, map_outcome) refl))
      ]

-- An execution that returns the outcome accepted or rejected tells what the provider has decided. Where
-- the status answers, submission results and callbacks of its steps were those of a provider that started
-- on an empty database, at some time of a history with calls, goroutine steps and restarts in any order
-- and whatever becomes of its writes, or were lost: the filing's operation is on record at the end of the
-- history, completed with that outcome.
pub reported_outcome_is_decided :
    (timing : Timing) (ms : List Move) (cfg : Config) (ans : Answers) (input : FilingInput)
    (r : FilingResult)
    → Honest timing ms cfg ans input
    → (filing_workflow cfg ans input).result ≡ ok r
    → (r.outcome ≡ "accepted") ⊎ (r.outcome ≡ "rejected")
    → IsOnRecord (operation_of input) r.outcome (ledger_after timing ms)
reported_outcome_is_decided timing ms cfg ans input r honest returns final =
    elim (outcome-OnRecord cfg ans input r returns) [
      | inl (already, read) ↦ absurd (
          ground
            (arith, final, eq_iff "already_final" "accepted", eq_iff "already_final" "rejected"))
      | inr on ↦
          Shows-IsOnRecord timing ms cfg ans input honest r.outcome
            (recorded-Shows cfg ans input r.outcome final on)
    ]
