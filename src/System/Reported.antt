-- ===== src/System/Reported.antt =====
-- The workflow of internal/workflow/filing.go with the service of internal/accountable/server.go: what
-- an execution returns is what the service has.
use mathlib.Core.List.{Memᴰ}
use dbos_conformance.Common.{
  String, ℤ, List, [], string_eq, ok, ◌≡◌, refl, sym, ◌∙◌, subst, some, arith, eq_iff, ◌⊎◌, inl,
  inr,
}
use dbos_conformance.Domain.{FilingInput, FilingResult, state_accepted, state_rejected}
use dbos_conformance.Domain.Identity.{outcome_command_key}
use dbos_conformance.Accountable.Command.{CommandRequest, CommandResult}
use dbos_conformance.Accountable.Tables.{FilingRow, Db, find_filing}
use dbos_conformance.Accountable.Apply.{Faults, apply_command}
use dbos_conformance.Accountable.History.{Call, run_calls}
use dbos_conformance.Accountable.Standing.{Stands, Decision}
use dbos_conformance.Accountable.Standing.Verdict.{answered_verdict_lasts}
use dbos_conformance.Workflow.Steps.{Answers, sends_command}
use dbos_conformance.Workflow.Outcome.{Config, map_outcome, canon, command_of, outcome_command}
use dbos_conformance.Workflow.Filing.{filing_workflow}
use dbos_conformance.Workflow.Told.{OnRecord, key_of}
use dbos_conformance.Workflow.Recorded.{outcome-OnRecord}

-- The service has answered the command with the result in its history, from the tables that it started
-- with to those that it has now.
pub record Served (before now : Db) (c : CommandRequest) (res : CommandResult) : Type 0 where
  pub earlier : List Call
  pub later : List Call
  pub faults : Faults
  pub time : ℤ
  pub answered : (apply_command faults time c (run_calls earlier before)).0 ≡ ok res
  pub reached : run_calls later (apply_command faults time c (run_calls earlier before)).1 ≡ now

-- The filing has the state.
abbrev pub HasState : FilingInput → String → Db → Type 0
HasState input state db =
    (f : FilingRow) × (find_filing input.filing_id input.tax_year db.filings ≡ some f)
    × (f.state ≡ state)

module _ (cfg : Config) (ans : Answers) (input : FilingInput) (before now : Db)
    (fresh : before.commands ≡ [])
    (served : (c : CommandRequest) (res : CommandResult)
      → Memᴰ (sends_command c) (filing_workflow cfg ans input).actions
      → c.idempotency_key ≡ outcome_command_key (canon input)
      → ans.record_outcome ≡ ok res
      → Served before now c res) where
  -- What stood after the answer stands now.
  Stands-now :
      (c : CommandRequest) (res : CommandResult) (state : String) (s : Served before now c res)
      → Stands c state
          (run_calls s.later
            (apply_command s.faults s.time c (run_calls s.earlier before)).1).filings
      → Stands c state now.filings
  Stands-now c res state s stands = subst (λ (db : Db). Stands c state db.filings) s.reached stands

  -- The command of the step that records the outcome has its decision in the service.
  outcome-Decision :
      (c : CommandRequest)
      → Memᴰ (sends_command c) (filing_workflow cfg ans input).actions
      → c.idempotency_key ≡ outcome_command_key (canon input)
      → (res : CommandResult) → ans.record_outcome ≡ ok res
      → Decision c now.filings
  outcome-Decision c sent keyed res told =
      let s = served c res sent keyed told in
      let (as_accepted, as_rejected) =
        answered_verdict_lasts s.earlier s.later s.faults s.time c res before fresh s.answered in
      (
        λ is. Stands-now c res state_accepted s (as_accepted is),
        λ is. Stands-now c res state_rejected s (as_rejected is),
      )

  recorded_stands :
      (outcome : String)
      → (outcome ≡ "accepted") ⊎ (outcome ≡ "rejected")
      → OnRecord ans.record_outcome input outcome (filing_workflow cfg ans input).actions
      → HasState input outcome now
  unfolding map_outcome
  recorded_stands outcome final on = elim final [
    | inl e ↦
        let stands =
          (outcome-Decision
              (command_of input (key_of input (map_outcome outcome))
                (outcome_command (map_outcome outcome)) "" on.detail)
              on.sent (rw (e, map_outcome) refl) on.answer on.answered).0
            (rw (e, map_outcome) refl) in
        (stands.filing, stands.found, stands.same ∙ sym e)
    | inr e ↦
        let stands =
          (outcome-Decision
              (command_of input (key_of input (map_outcome outcome))
                (outcome_command (map_outcome outcome)) "" on.detail)
              on.sent (rw (e, map_outcome) refl) on.answer on.answered).1
            (rw (e, map_outcome) refl) in
        (stands.filing, stands.found, stands.same ∙ sym e)
  ]

-- An execution that returns the outcome accepted or rejected tells what the service has. Where the
-- service started without commands on record, and the result of the step that records the outcome is the
-- service's answer to the command that the step sent under the filing's outcome key, at any time of the
-- service's history, with any commands and faults before and after it: the filing has that state at the
-- end of the history.
pub reported_outcome_stands :
    (cfg : Config) (ans : Answers) (input : FilingInput) (r : FilingResult) (before now : Db)
    → before.commands ≡ []
    → ((c : CommandRequest) (res : CommandResult)
        → Memᴰ (sends_command c) (filing_workflow cfg ans input).actions
        → c.idempotency_key ≡ outcome_command_key (canon input)
        → ans.record_outcome ≡ ok res
        → Served before now c res)
    → (filing_workflow cfg ans input).result ≡ ok r
    → (r.outcome ≡ "accepted") ⊎ (r.outcome ≡ "rejected")
    → HasState input r.outcome now
reported_outcome_stands cfg ans input r before now fresh served returns final =
    elim (outcome-OnRecord cfg ans input r returns) [
      | inl (already, read) ↦ absurd (
          ground
            (arith, final, eq_iff "already_final" "accepted", eq_iff "already_final" "rejected"))
      | inr on ↦ recorded_stands cfg ans input before now fresh served r.outcome final on
    ]
