-- ===== src/System/Effects.antt =====
-- The workflow of internal/workflow/filing.go with the service of internal/accountable/server.go: how
-- often its commands take effect.
use mathlib.Core.List.{Memᴰ}
use dbos_conformance.Common.{
  ℕ, ◌+◌, ◌≤◌, String, Bool, true, ◌&&◌, List, [], ◌∷◌, ◌==◌, string_eq, if◌then◌else◌, ◌≡◌, refl,
  arith, eq_iff, Bool-cases, inl, inr, All,
}
use dbos_conformance.Domain.{FilingInput}
use dbos_conformance.Domain.Identity.Distinct.{
  KeyKind, command_key, submitted, outcome, review, submission_intent,
}
use dbos_conformance.Accountable.Tables.{Db}
use dbos_conformance.Accountable.Apply.{apply_command}
use dbos_conformance.Accountable.History.{Call, reports_effect, effects_reported}
use dbos_conformance.Accountable.Effects.{at_most_one_effect}
use dbos_conformance.Workflow.Steps.{Answers, sends_command}
use dbos_conformance.Workflow.Outcome.{Config, canon}
use dbos_conformance.Workflow.Filing.{filing_workflow}
use dbos_conformance.Workflow.Canonical.{Canonical}
use dbos_conformance.Workflow.Acts.{workflow_acts_canonically}
use dbos_conformance.System.Once.{Mem-All}

-- The command is one of an execution of the workflow of the filing, in whatever configuration and
-- whatever its steps returned.
pub data Commands (input : FilingInput) (c : Call) : Type 0 where
  commanded :
      (cfg : Config) (ans : Answers)
      → Memᴰ (sends_command c.request) (filing_workflow cfg ans input).actions
      → Commands input c

-- How many of the calls are answered as applied.
unfoldable pub all_effects : List Call → Db → ℕ
all_effects [] db = 0
all_effects (c ∷ cs) db =
    let (answer, db') = apply_command c.faults c.now c.request db in
    let rest = all_effects cs db' in if reports_effect answer then rest + 1 else rest

module _ (c : Call) (cs : List Call) (db : Db) where
  abbrev answered : Bool
  answered = reports_effect (apply_command c.faults c.now c.request db).0

  abbrev after : Db
  after = (apply_command c.faults c.now c.request db).1

  counts_on : (key : String) → effects_reported key cs after ≤ effects_reported key (c ∷ cs) db
  unfolding effects_reported
  counts_on key = elim (Bool-cases (c.request.idempotency_key == key && answered)) [
    | inl e ↦ rw (e, effects_reported) (omega arith)
    | inr e ↦ rw (e, effects_reported) (omega arith)
  ]

  counts_hit :
      (key : String)
      → c.request.idempotency_key ≡ key
      → answered ≡ true
      → effects_reported key (c ∷ cs) db ≡ effects_reported key cs after + 1
  unfolding effects_reported
  counts_hit key named effect =
      let hit : (c.request.idempotency_key == key && answered) ≡ true =
        ground (arith, eq_iff c.request.idempotency_key key) in
      rw (hit, effects_reported) refl

module _ (input : FilingInput) where
  abbrev reported : KeyKind → List Call → Db → ℕ
  reported kind cs db = effects_reported (command_key kind (canon input)) cs db

  abbrev total : List Call → Db → ℕ
  total cs db =
      reported submission_intent cs db
      + reported submitted cs db
      + reported outcome cs db
      + reported review cs db

  total_keeps : (c : Call) (cs : List Call) (db : Db) → total cs (after c cs db) ≤ total (c ∷ cs) db
  total_keeps c cs db =
      let i = counts_on c cs db (command_key submission_intent (canon input)) in
      let s = counts_on c cs db (command_key submitted (canon input)) in
      let o = counts_on c cs db (command_key outcome (canon input)) in
      let r = counts_on c cs db (command_key review (canon input)) in omega arith

  total_grows :
      (c : Call) (cs : List Call) (db : Db) (kind : KeyKind)
      → c.request.idempotency_key ≡ command_key kind (canon input)
      → answered c cs db ≡ true
      → total cs (after c cs db) + 1 ≤ total (c ∷ cs) db
  total_grows c cs db kind named effect =
      let i = counts_on c cs db (command_key submission_intent (canon input)) in
      let s = counts_on c cs db (command_key submitted (canon input)) in
      let o = counts_on c cs db (command_key outcome (canon input)) in
      let r = counts_on c cs db (command_key review (canon input)) in
      let hit = counts_hit c cs db (command_key kind (canon input)) named effect in
      by_kind kind i s o r hit
    where
      by_kind :
          (k : KeyKind)
          → reported submission_intent cs (after c cs db) ≤ reported submission_intent (c ∷ cs) db
          → reported submitted cs (after c cs db) ≤ reported submitted (c ∷ cs) db
          → reported outcome cs (after c cs db) ≤ reported outcome (c ∷ cs) db
          → reported review cs (after c cs db) ≤ reported review (c ∷ cs) db
          → reported k (c ∷ cs) db ≡ reported k cs (after c cs db) + 1
          → total cs (after c cs db) + 1 ≤ total (c ∷ cs) db
      by_kind submission_intent i s o r hit = omega arith
      by_kind submitted i s o r hit = omega arith
      by_kind outcome i s o r hit = omega arith
      by_kind review i s o r hit = omega arith

  all_effects_lem :
      (cs : List Call) (db : Db) → All (Commands input) cs → all_effects cs db ≤ total cs db
  unfolding all_effects Canonical
  all_effects_lem [] db come = omega arith
  all_effects_lem (c ∷ cs) db (commanded cfg ans acted, come) =
      let rest = all_effects_lem cs (after c cs db) come in
      let (filing, year, (kind, named)) =
        Mem-All (Canonical input) (sends_command c.request) _ acted
          (workflow_acts_canonically cfg ans input) in
      elim (Bool-cases (answered c cs db)) [
        | inl e ↦ let grows = total_grows c cs db kind named e in rw (e, all_effects) (omega arith)
        | inr e ↦ let keeps = total_keeps c cs db in rw (e, all_effects) (omega arith)
      ]

-- However often the workflow of a filing is executed, whatever its steps return, and in whatever order,
-- at whatever times and with whatever faults its commands reach the service, over any tables: at most
-- four of these calls are answered as applied.
pub filing_effects_bounded :
    (input : FilingInput) (cs : List Call) (db : Db)
    → All (Commands input) cs
    → all_effects cs db ≤ 4
filing_effects_bounded input cs db come =
    let few = all_effects_lem input cs db come in
    let i = at_most_one_effect (command_key submission_intent (canon input)) cs db in
    let s = at_most_one_effect (command_key submitted (canon input)) cs db in
    let o = at_most_one_effect (command_key outcome (canon input)) cs db in
    let r = at_most_one_effect (command_key review (canon input)) cs db in omega arith
