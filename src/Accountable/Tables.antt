-- ===== src/Accountable/Tables.antt =====
-- The tables of internal/accountable/server.go and the statements that the service runs on them.
-- A row is a record, a table a list of rows; a statement that breaks a key or the unique index on
-- `provider_operation_id` has no result.
pub mod Laws
use dbos_conformance.Common.{
  ℕ, String, ℤ, Bool, false, not, ◌&&◌, ◌||◌, Option, none, some, List, [], ◌∷◌, ◌==◌, string_eq,
  int_eq, if◌then◌else◌, length, keep,
}
use dbos_conformance.Accountable.Command.{CommandRequest, CommandResult}

-- A jsonb column, seen by what json.Unmarshal makes of it: a value, or an error.
pub data Document {ℓ} (A : Type ℓ) : Type ℓ where
  readable : A → Document A
  unreadable : Document A

pub record FilingRow : Type 0 where
  pub filing_id : String
  pub tax_year : ℤ
  pub scenario : String
  pub state : String
  pub provider_operation_id : Option String
  pub updated_at : ℤ

pub record CommandRow : Type 0 where
  pub idempotency_key : String
  pub command_type : String
  pub filing_id : String
  pub tax_year : ℤ
  pub payload : Document CommandRequest
  pub result : Document CommandResult
  pub duplicate_attempts : ℕ
  pub created_at : ℤ

pub record ConflictRow : Type 0 where
  pub event_id : String
  pub filing_id : String
  pub tax_year : ℤ
  pub existing_input : String
  pub requested_input : String
  pub created_at : ℤ

pub record Db : Type 0 where
  pub filings : List FilingRow
  pub commands : List CommandRow
  pub conflicts : List ConflictRow

-- The test `filing_id=$1 AND tax_year=$2`.
abbrev pub is_filing : String → ℤ → FilingRow → Bool
is_filing id year f = f.filing_id == id && f.tax_year == year

unfoldable pub find_filing : String → ℤ → List FilingRow → Option FilingRow
find_filing id year [] = none
find_filing id year (f ∷ fs) = if is_filing id year f then some f else find_filing id year fs

unfoldable pub find_command : String → List CommandRow → Option CommandRow
find_command key [] = none
find_command key (c ∷ cs) = if c.idempotency_key == key then some c else find_command key cs

-- UPDATE … SET … WHERE …
unfoldable pub update_where {ℓ} : {A : Type ℓ} → (A → Bool) → (A → A) → List A → List A
update_where test set_row [] = []
update_where test set_row (r ∷ rs) =
    (if test r then set_row r else r) ∷ update_where test set_row rs

-- tag.RowsAffected() of that statement.
unfoldable pub rows_affected {ℓ} : {A : Type ℓ} → (A → Bool) → List A → ℕ
rows_affected test rs = length (keep test rs)

-- coalesce(provider_operation_id,'')
abbrev pub coalesce : Option String → String
coalesce none = ""
coalesce (some s) = s

abbrev pub holds : String → Option String → Bool
holds operation none = false
holds operation (some p) = p == operation

-- Another filing holds the operation ID: the unique index refuses the update.
unfoldable pub taken_elsewhere : String → String → ℤ → List FilingRow → Bool
taken_elsewhere operation id year [] = false
taken_elsewhere operation id year (f ∷ fs) =
    not (is_filing id year f) && holds operation f.provider_operation_id
    || taken_elsewhere operation id year fs
