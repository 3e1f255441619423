-- ===== src/Accountable/Apply.antt =====
-- `applyCommand` of internal/accountable/server.go. One serializable transaction reads the command's
-- row; a known key replays the stored result, a new one moves the filing and stores the result.
use dbos_conformance.Common.{
  ◌+◌, String, ℤ, Bool, true, false, not, ◌&&◌, ◌||◌, Option, none, some, List, ◌∷◌, ◌==◌, ◌!=◌,
  string_eq, int_eq, nat_eq, if◌then◌else◌, Result, ok, err, ◌>>=◌, ◌>>◌, fail_if, or_fail, lookup,
}
use dbos_conformance.Domain.{state_ready, state_submitting}
use dbos_conformance.Accountable.Command.{
  CommandRequest, CommandResult, request_eq, prepare, command_transitions, command_allows_state,
  Error, unknown_command_type, key_reused, filing_not_found, cannot_transition,
  operation_id_required, no_longer_permits, database_error, undecodable,
}
use dbos_conformance.Accountable.Tables.{
  Document, readable, unreadable, FilingRow, CommandRow, Db, is_filing, find_filing, find_command,
  update_where, rows_affected, coalesce, taken_elsewhere,
}

-- How Postgres ends a commit. After `unacknowledged` the changes are stored and the caller has an
-- error.
pub data Commit : Type 0 where
  committed refused unacknowledged : Commit

-- Which statements of one call fail in the database, for whatever reason of its own: a lost
-- connection, a timeout, a serialization failure.
pub record Faults : Type 0 where
  pub begin_tx : Bool
  pub select_command : Bool
  pub bump_duplicates : Bool
  pub select_filing : Bool
  pub update_filing : Bool
  pub insert_command : Bool
  pub commit : Commit

abbrev pub no_faults : Faults
no_faults = record {
  begin_tx = false;
  select_command = false;
  bump_duplicates = false;
  select_filing = false;
  update_filing = false;
  insert_command = false;
  commit = committed;
}

abbrev pub unmarshal {ℓ} : {A : Type ℓ} → Document A → Result Error A
unmarshal (readable a) = ok a
unmarshal unreadable = err undecodable

abbrev pub bump : CommandRow → CommandRow
bump c = record c { duplicate_attempts = c.duplicate_attempts + 1 }

abbrev pub has_key : String → CommandRow → Bool
has_key key c = c.idempotency_key == key

-- The key is known: the stored result comes back, and only the row's counter changes.
unfoldable pub replay_command :
    Faults → CommandRequest → CommandRow → Db → Result Error (CommandResult × Db)
replay_command faults req row db = do
  original ← unmarshal row.payload
  fail_if
      (row.command_type != req.command_type
        || row.filing_id != req.filing_id
        || row.tax_year != req.tax_year
        || original != req)
      (key_reused req.idempotency_key)
  res ← unmarshal row.result
  fail_if faults.bump_duplicates database_error
  ok (
    record res { applied = false; duplicate_attempts = row.duplicate_attempts + 1 },
    record db { commands = update_where (has_key req.idempotency_key) bump db.commands },
  )

abbrev pub null_or_same : String → Option String → Bool
null_or_same operation none = true
null_or_same operation (some p) = p == operation

-- AND state IN ('ready','submitting')
-- AND (provider_operation_id IS NULL OR provider_operation_id=$2)
unfoldable pub may_prepare : CommandRequest → FilingRow → Bool
may_prepare req f =
    is_filing req.filing_id req.tax_year f
    && (f.state == state_ready || f.state == state_submitting)
    && null_or_same req.provider_operation_id f.provider_operation_id

-- The UPDATE of a command that is not PrepareFilingSubmission.
abbrev pub mark_filing : ℤ → String → FilingRow → FilingRow
mark_filing now new_state f = record f { state = new_state; updated_at = now }

abbrev pub prepare_filing : ℤ → String → String → FilingRow → FilingRow
prepare_filing now new_state operation f = record f {
  state = new_state;
  provider_operation_id = some operation;
  updated_at = now;
}

-- PrepareFilingSubmission: the update repeats the test of the state and refuses another operation
-- ID. The unique index has its say only where a row is updated.
unfoldable pub prepare_rows :
    ℤ → String → CommandRequest → List FilingRow → Result Error (String × List FilingRow)
prepare_rows now new_state req filings = do
  fail_if (rows_affected (may_prepare req) filings == 0)
      (no_longer_permits req.filing_id req.tax_year req.command_type)
  fail_if (taken_elsewhere req.provider_operation_id req.filing_id req.tax_year filings)
      database_error
  ok (
    req.provider_operation_id,
    update_where (may_prepare req) (prepare_filing now new_state req.provider_operation_id) filings,
  )

-- Any other command.
unfoldable pub mark_rows :
    ℤ → String → CommandRequest → String → List FilingRow → Result Error (String × List FilingRow)
mark_rows now new_state req operation filings = do
  fail_if (rows_affected (is_filing req.filing_id req.tax_year) filings == 0)
      (no_longer_permits req.filing_id req.tax_year req.command_type)
  ok (
    operation,
    update_where (is_filing req.filing_id req.tax_year) (mark_filing now new_state) filings,
  )

-- The key is new: the filing moves, and the command is stored with its result.
unfoldable pub first_command :
    Faults → ℤ → String → CommandRequest → Db → Result Error (CommandResult × Db)
unfolding prepare_rows mark_rows
first_command faults now new_state req db = do
  fail_if faults.select_filing database_error
  f ←
      or_fail (find_filing req.filing_id req.tax_year db.filings)
        (filing_not_found req.filing_id req.tax_year)
  fail_if (not (command_allows_state req.command_type f.state))
      (cannot_transition req.command_type req.filing_id req.tax_year f.state)
  fail_if (req.command_type == prepare && req.provider_operation_id == "") operation_id_required
  fail_if faults.update_filing database_error
  (operation, filings) ←
      if req.command_type == prepare
      then prepare_rows now new_state req db.filings
      else mark_rows now new_state req (coalesce f.provider_operation_id) db.filings
  fail_if faults.insert_command database_error
  let res : CommandResult = record {
    filing_id = req.filing_id;
    new_state = new_state;
    provider_operation_id = operation;
    applied = true;
    duplicate_attempts = 0;
  }
  let row : CommandRow = record {
    idempotency_key = req.idempotency_key;
    command_type = req.command_type;
    filing_id = req.filing_id;
    tax_year = req.tax_year;
    payload = readable req;
    result = readable res;
    duplicate_attempts = 0;
    created_at = now;
  }
  ok (res, record db { filings = filings; commands = row ∷ db.commands })

-- The transaction up to its commit.
unfoldable pub run_command :
    Faults → ℤ → String → CommandRequest → Db → Result Error (CommandResult × Db)
run_command faults now new_state req db = do
  fail_if faults.begin_tx database_error
  fail_if faults.select_command database_error
  elim (find_command req.idempotency_key db.commands) [
    | some row ↦ replay_command faults req row db
    | none ↦ first_command faults now new_state req db
  ]

-- The deferred rollback: an error before the commit leaves the tables as they were.
unfoldable pub finish :
    Commit → Db → Result Error (CommandResult × Db) → Result Error CommandResult × Db
finish c db (err e) = (err e, db)
finish committed db (ok (res, db')) = (ok res, db')
finish refused db (ok (res, db')) = (err database_error, db)
finish unacknowledged db (ok (res, db')) = (err database_error, db')

unfoldable pub apply_command : Faults → ℤ → CommandRequest → Db → Result Error CommandResult × Db
apply_command faults now req db = elim (lookup req.command_type command_transitions) [
  | none ↦ (err (unknown_command_type req.command_type), db)
  | some new_state ↦ finish faults.commit db (run_command faults now new_state req db)
]
