-- ===== src/Accountable/Standing.antt =====
-- What an answer to a command of internal/accountable/server.go is worth later: a decision that was
-- answered without an error stands.
use mathlib.Core.Option
use mathlib.Core.Option.{some-injective}
use dbos_conformance.Common.{
  String, ℤ, true, false, Option, none, some, List, [], ◌∷◌, ◌==◌, ◌≡◌, refl, sym, subst, ap, ◌∙◌,
  arith, eq_iff, int_beq_iff, string_eq, int_eq, nat_eq, inl, inr, ◌⊎◌, lookup, Bool-cases, Result,
  ok,
}
use dbos_conformance.Domain.{state_accepted, state_rejected}
use dbos_conformance.Accountable.Command.{
  CommandRequest, CommandResult, Error, mark_accepted, mark_rejected, prepare, command_transitions,
}
use dbos_conformance.Accountable.Tables.{
  readable, FilingRow, CommandRow, Db, is_filing, find_filing, find_command, update_where,
}
use dbos_conformance.Accountable.Tables.Laws.{
  find_filing-key, find_filing-update_where, find_command-update_where, updated,
}
use dbos_conformance.Accountable.Apply.{Faults, apply_command, mark_filing, bump, has_key}
use dbos_conformance.Accountable.First.{Move, prepared, marked, First, first_row}
use dbos_conformance.Accountable.Outcome.{Outcome, failed, replayed, applied, apply_command-Outcome}
use dbos_conformance.Accountable.Steps.{apply_command-FilingStep}
use dbos_conformance.Accountable.Finality.{FilingStep-final, final_filing}
use dbos_conformance.Accountable.History.{Call, run_calls, run_calls-induction}
pub mod Verdict

-- The filing of the command is in the state.
pub record Stands (req : CommandRequest) (state : String) (fs : List FilingRow) : Type 0 where
  pub filing : FilingRow
  pub found : find_filing req.filing_id req.tax_year fs ≡ some filing
  pub same : filing.state ≡ state

-- The decision that the command asks for stands.
abbrev pub Decision : CommandRequest → List FilingRow → Type 0
Decision req fs =
    (req.command_type ≡ mark_accepted → Stands req state_accepted fs)
    × (req.command_type ≡ mark_rejected → Stands req state_rejected fs)

-- So it does for each command on record.
abbrev pub AllStand : Db → Type 0
AllStand db =
    (key : String) (row : CommandRow) (req : CommandRequest)
    → find_command key db.commands ≡ some row
    → row.payload ≡ readable req
    → Decision req db.filings

module _ (faults : Faults) (now : ℤ) (call : CommandRequest) (db : Db) where
  abbrev after : Db
  after = (apply_command faults now call db).1

  still-Stands :
      (req : CommandRequest) (state : String)
      → (state ≡ state_accepted) ⊎ (state ≡ state_rejected)
      → Stands req state db.filings
      → Stands req state after.filings
  still-Stands req state final stands =
      let (f', found, step) =
        apply_command-FilingStep faults now call db req.filing_id req.tax_year stands.filing
          stands.found in
      let is_final =
        subst (λ s. (s ≡ state_accepted) ⊎ (s ≡ state_rejected)) (sym stands.same) final in
      let same = FilingStep-final now call db.filings stands.filing f' step is_final in
      record {
        filing = f';
        found = found;
        same = ap (λ (f : FilingRow). f.state) same ∙ stands.same;
      }

  pub still-Decision : (req : CommandRequest) → Decision req db.filings → Decision req after.filings
  still-Decision req (as_accepted, as_rejected) = (
    λ is. still-Stands req state_accepted (inl refl) (as_accepted is),
    λ is. still-Stands req state_rejected (inr refl) (as_rejected is),
  )

-- What a first application moves stands where it was moved to.
First-Stands :
    (now : ℤ) (req : CommandRequest) (state type : String) (db db' : Db) (res : CommandResult)
    → (type == prepare) ≡ false
    → req.command_type ≡ type
    → First now req state db res db'
    → Stands req state db'.filings
First-Stands now req state type db db' res other is first = by_move first.moved
  where
    by_move :
        Move now req state first.operation db.filings db'.filings → Stands req state db'.filings
    by_move (prepared is_prepare _ _ _ _ _) = absurd (ground (arith, eq_iff type prepare))
    by_move (marked _ after) =
        let (id, year) = find_filing-key req.filing_id req.tax_year db.filings first.found in
        let here : is_filing req.filing_id req.tax_year first.filing ≡ true = ground (
          arith,
          eq_iff first.filing.filing_id req.filing_id,
          int_beq_iff first.filing.tax_year req.tax_year,
        ) in
        record {
          filing = mark_filing now state first.filing;
          found =
              ap (find_filing req.filing_id req.tax_year) after
              ∙ find_filing-update_where (is_filing req.filing_id req.tax_year)
                  (mark_filing now state) req.filing_id req.tax_year db.filings (λ r. (refl, refl))
              ∙ ap
                  (Option.map
                    (updated (is_filing req.filing_id req.tax_year) (mark_filing now state)))
                  first.found
              ∙ rw here refl;
          same = refl;
        }

pub applied-Decision :
    (now : ℤ) (req : CommandRequest) (new_state : String) (db db' : Db) (res : CommandResult)
    → lookup req.command_type command_transitions ≡ some new_state
    → First now req new_state db res db'
    → Decision req db'.filings
unfolding lookup
applied-Decision now req new_state db db' res leads first = (
  λ is.
      let to : state_accepted ≡ new_state =
        some-injective _ _ (subst (λ c. lookup c command_transitions ≡ some new_state) is leads) in
      subst (λ s. Stands req s db'.filings) (sym to)
        (First-Stands now req new_state mark_accepted db db' res refl is first),
  λ is.
      let to : state_rejected ≡ new_state =
        some-injective _ _ (subst (λ c. lookup c command_transitions ≡ some new_state) is leads) in
      subst (λ s. Stands req s db'.filings) (sym to)
        (First-Stands now req new_state mark_rejected db db' res refl is first),
)

-- A row that was counted once more has the request that it had.
bumped_row :
    (key other : String) (row : CommandRow) (cs : List CommandRow)
    → find_command key (update_where (has_key other) bump cs) ≡ some row
    → (before : CommandRow) × (find_command key cs ≡ some before) × (before.payload ≡ row.payload)
bumped_row key other row cs found =
    let mapped = sym (find_command-update_where (has_key other) bump key cs (λ c. refl)) ∙ found in
    by_row (find_command key cs) refl mapped
  where
    by_row :
        (o : Option CommandRow)
        → find_command key cs ≡ o
        → Option.map (updated (has_key other) bump) o ≡ some row
        → (before : CommandRow) × (find_command key cs ≡ some before)
          × (before.payload ≡ row.payload)
    by_row none e h = ground arith
    by_row (some before) e h = (before, e, ground arith)

pub Outcome-AllStand :
    (faults : Faults) (now : ℤ) (call : CommandRequest) (db : Db)
    {answer : Result Error CommandResult} {db' : Db}
    → ((req : CommandRequest) → Decision req db.filings → Decision req db'.filings)
    → Outcome now call db answer db'
    → AllStand db
    → AllStand db'
unfolding find_command
Outcome-AllStand faults now call db still (failed e told same) all = λ key row req found payload.
    still req
      (all key row req (ap (λ (d : Db). find_command key d.commands) (sym same) ∙ found) payload)
Outcome-AllStand faults now call db still (replayed res r told) all = λ key row req found payload.
    let counted : find_command key (update_where (has_key call.idempotency_key) bump db.commands)
        ≡ some row =
      ap (λ (d : Db). find_command key d.commands) (sym r.counted) ∙ found in
    let (before, there, same) = bumped_row key call.idempotency_key row db.commands counted in
    still req (all key before req there (same ∙ payload))
Outcome-AllStand faults now call db {db' = db'} still (applied res new_state leads fresh first told)
      all =
    λ key row req found payload.
      by_key key row req (ap (find_command key) (sym first.stored) ∙ found) payload
  where
    by_key :
        (key : String) (row : CommandRow) (req : CommandRequest)
        → find_command key (first_row now call res ∷ db.commands) ≡ some row
        → row.payload ≡ readable req
        → Decision req db'.filings
    by_key key row req found payload = elim (Bool-cases (call.idempotency_key == key)) [
      | inl e ↦
          let there : some (first_row now call res) ≡ some row = rw (e, find_command) at found in
          let same : readable call ≡ readable req =
            ap (λ (c : CommandRow). c.payload) (some-injective _ _ there) ∙ payload in
          let own : call ≡ req = ground arith in
          subst (λ c. Decision c db'.filings) own
            (applied-Decision now call new_state db db' res leads first)
      | inr e ↦ still req (all key row req (rw (e, find_command) at found) payload)
    ]
