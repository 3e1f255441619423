-- ===== src/Accountable/First.antt =====
-- What a first application of a command does: one filing moves, and the command is stored beside it.
use dbos_conformance.Common.{
  String, ℤ, true, false, some, List, ◌∷◌, ◌==◌, ◌≡◌, refl, inl, inr, arith, string_eq, int_eq,
  nat_eq, ok, eq_iff, Bool-cases, Option-cases,
}
use dbos_conformance.Accountable.Command.{
  CommandRequest, CommandResult, prepare, command_allows_state,
}
use dbos_conformance.Accountable.Tables.{
  readable, FilingRow, CommandRow, Db, is_filing, find_filing, update_where, rows_affected,
  coalesce, taken_elsewhere,
}
use dbos_conformance.Accountable.Apply.{
  Faults, may_prepare, mark_filing, prepare_filing, first_command,
}

-- How the filings change when a command is applied for the first time.
pub data Move (now : ℤ) (req : CommandRequest) (new_state operation : String)
    (before after : List FilingRow) : Type 0 where
  prepared :
      req.command_type ≡ prepare
      → (req.provider_operation_id == "") ≡ false
      → operation ≡ req.provider_operation_id
      → (rows_affected (may_prepare req) before == 0) ≡ false
      → taken_elsewhere operation req.filing_id req.tax_year before ≡ false
      → after ≡ update_where (may_prepare req) (prepare_filing now new_state operation) before
      → Move now req new_state operation before after
  marked :
      (req.command_type == prepare) ≡ false
      → after
        ≡ update_where (is_filing req.filing_id req.tax_year) (mark_filing now new_state) before
      → Move now req new_state operation before after

abbrev pub first_result : CommandRequest → String → String → CommandResult
first_result req new_state operation = record {
  filing_id = req.filing_id;
  new_state = new_state;
  provider_operation_id = operation;
  applied = true;
  duplicate_attempts = 0;
}

abbrev pub first_row : ℤ → CommandRequest → CommandResult → CommandRow
first_row now req res = record {
  idempotency_key = req.idempotency_key;
  command_type = req.command_type;
  filing_id = req.filing_id;
  tax_year = req.tax_year;
  payload = readable req;
  result = readable res;
  duplicate_attempts = 0;
  created_at = now;
}

-- A first application that reached its commit.
pub record First (now : ℤ) (req : CommandRequest) (new_state : String) (db : Db)
    (res : CommandResult) (db' : Db) : Type 0 where
  pub filing : FilingRow
  pub operation : String
  pub found : find_filing req.filing_id req.tax_year db.filings ≡ some filing
  pub allowed : command_allows_state req.command_type filing.state ≡ true
  pub reported :
      (req.command_type == prepare) ≡ false → operation ≡ coalesce filing.provider_operation_id
  pub result : res ≡ first_result req new_state operation
  pub moved : Move now req new_state operation db.filings db'.filings
  pub stored : db'.commands ≡ first_row now req res ∷ db.commands
  pub conflicts : db'.conflicts ≡ db.conflicts

module _ (faults : Faults) (now : ℤ) (new_state : String) (req : CommandRequest) (db : Db) where
  First-prepare :
      (f : FilingRow) {res : CommandResult} {db' : Db}
      → find_filing req.filing_id req.tax_year db.filings ≡ some f
      → (req.command_type == prepare) ≡ true
      → first_command faults now new_state req db ≡ ok (res, db')
      → First now req new_state db res db'
  unfolding first_command
  First-prepare f {res} {db'} found is_prepare h = record {
    filing = f;
    operation = req.provider_operation_id;
    found = found;
    allowed = ground arith;
    reported = λ e. ground arith;
    result = ground arith;
    moved =
        prepared ((eq_iff _ _).0 is_prepare) (ground arith) refl (ground arith) (ground arith)
          (ground arith);
    stored = ground arith;
    conflicts = ground arith;
  }

  First-mark :
      (f : FilingRow) {res : CommandResult} {db' : Db}
      → find_filing req.filing_id req.tax_year db.filings ≡ some f
      → (req.command_type == prepare) ≡ false
      → first_command faults now new_state req db ≡ ok (res, db')
      → First now req new_state db res db'
  unfolding first_command
  First-mark f {res} {db'} found is_other h = record {
    filing = f;
    operation = coalesce f.provider_operation_id;
    found = found;
    allowed = ground arith;
    reported = λ e. refl;
    result = ground arith;
    moved = marked is_other (ground arith);
    stored = ground arith;
    conflicts = ground arith;
  }

  pub first_command-First :
      {res : CommandResult} {db' : Db}
      → first_command faults now new_state req db ≡ ok (res, db')
      → First now req new_state db res db'
  first_command-First {res} {db'} h =
      elim (Option-cases (find_filing req.filing_id req.tax_year db.filings)) [
        | inl missing ↦ unfold first_command in absurd (ground arith)
        | inr (f, found) ↦ elim (Bool-cases (req.command_type == prepare)) [
          | inl e ↦ First-prepare f found e h
          | inr e ↦ First-mark f found e h
        ]
      ]
