-- ===== src/Accountable/Handlers.antt =====
-- The HTTP handlers of internal/accountable/server.go. A request body is given as what json decoding
-- makes of it (`none`: an error); `fails` says that the handler's statement fails in the database.
use dbos_conformance.Common.{
  ℕ, zero, suc, ◌+◌, String, ℤ, pos, negsuc, Bool, false, ◌||◌, Option, none, some, List, [], ◌∷◌,
  ◌++◌, ◌==◌, string_eq, int_eq, nat_eq, if◌then◌else◌, Result, ok, err, Reply, json, plain,
}
use Prim.Native.String as Text
use dbos_conformance.Domain.{scenario_ok, state_ready}
use dbos_conformance.Domain.Decimal.{show_nat}
use dbos_conformance.Accountable.Command.{CommandRequest, CommandResult, Error, is_conflict}
use dbos_conformance.Accountable.Tables.{
  FilingRow, ConflictRow, Db, is_filing, find_filing, update_where,
}
use dbos_conformance.Accountable.Apply.{Faults, apply_command}

-- POST /commands
unfoldable pub answer_command : Result Error CommandResult → Reply CommandResult
answer_command (ok res) = json 200 res
answer_command (err e) = if is_conflict e then plain 409 else plain 500

unfoldable pub post_command : Faults → ℤ → Option CommandRequest → Db → Reply CommandResult × Db
post_command faults now none db = (plain 400, db)
post_command faults now (some req) db =
    if req.idempotency_key == ""
    then (plain 400, db)
    else (let (answer, db') = apply_command faults now req db in (answer_command answer, db'))

pub record WorkflowStartConflict : Type 0 where
  pub event_id : String
  pub filing_id : String
  pub tax_year : ℤ
  pub existing_input : String
  pub requested_input : String

abbrev pub has_event : String → List ConflictRow → Bool
has_event id [] = false
has_event id (c ∷ cs) = c.event_id == id || has_event id cs

-- INSERT … ON CONFLICT(event_id) DO NOTHING
unfoldable pub insert_conflict : ℤ → WorkflowStartConflict → List ConflictRow → List ConflictRow
insert_conflict now c rows =
    if has_event c.event_id rows
    then rows
    else record {
      event_id = c.event_id;
      filing_id = c.filing_id;
      tax_year = c.tax_year;
      existing_input = c.existing_input;
      requested_input = c.requested_input;
      created_at = now;
    }
      ∷ rows

-- POST /workflow-start-conflicts
unfoldable pub post_conflict : Bool → ℤ → Option WorkflowStartConflict → Db → Reply (Unit {0}) × Db
post_conflict fails now none db = (plain 400, db)
post_conflict fails now (some c) db =
    if c.event_id == ""
      || c.filing_id == ""
      || c.tax_year == pos 0
      || c.existing_input == ""
      || c.requested_input == ""
    then (plain 400, db)
    else if fails
    then (plain 500, db)
    else (plain 202, record db { conflicts = insert_conflict now c db.conflicts })

abbrev pub reset_filing : ℤ → String → FilingRow → FilingRow
reset_filing now scenario f = record f {
  scenario = scenario;
  state = state_ready;
  provider_operation_id = none;
  updated_at = now;
}

abbrev pub new_filing : ℤ → String → ℤ → String → FilingRow
new_filing now id year scenario = record {
  filing_id = id;
  tax_year = year;
  scenario = scenario;
  state = state_ready;
  provider_operation_id = none;
  updated_at = now;
}

-- INSERT INTO filings … ON CONFLICT (filing_id, tax_year) DO UPDATE SET state='ready', …
unfoldable pub upsert_filing : ℤ → String → ℤ → String → List FilingRow → List FilingRow
upsert_filing now id year scenario filings = elim (find_filing id year filings) [
  | none ↦ new_filing now id year scenario ∷ filings
  | some f ↦ update_where (is_filing id year) (reset_filing now scenario) filings
]

abbrev pub default_scenario : String → String
default_scenario scenario = if scenario == "" then scenario_ok else scenario

pub record SeedRequest : Type 0 where
  pub prefix : String
  pub count : ℤ
  pub tax_year : ℤ
  pub scenario : String

-- The loop over `i <= req.Count`: `rounds` are left, and the statement of round `i` fails where
-- `fails i` says so. What was inserted before stays.
unfoldable pub seed_loop :
    (ℕ → Bool) → ℤ → SeedRequest → ℕ → ℕ → List String → Db → Reply (List String) × Db
seed_loop fails now req zero i ids db = (json 200 ids, db)
seed_loop fails now req (suc rounds) i ids db =
    let id = Text.◌++◌ req.prefix (show_nat i) in
    let rest =
      seed_loop fails now req rounds (i + 1) (ids ++ id ∷ [])
        (record db { filings = upsert_filing now id req.tax_year req.scenario db.filings }) in
    if fails i then (plain 500, db) else rest

-- The rounds that the loop makes from `i := 1`.
abbrev pub rounds_of : ℤ → ℕ
rounds_of (pos n) = n
rounds_of (negsuc n) = 0

-- POST /seed
unfoldable pub post_seed : (ℕ → Bool) → ℤ → Option SeedRequest → Db → Reply (List String) × Db
post_seed fails now none db = (plain 400, db)
post_seed fails now (some req) db =
    let count = if req.count == pos 0 then pos 1 else req.count in
    seed_loop fails now (record req { count = count; scenario = default_scenario req.scenario })
      (rounds_of count) 1 [] db

-- PUT /filings/{id}; the answer repeats the ID.
unfoldable pub put_filing : Bool → ℤ → String → Option (ℤ × String) → Db → Reply String × Db
put_filing fails now id none db = (plain 400, db)
put_filing fails now id (some (year, scenario)) db = if fails then (plain 500, db) else (
  json 200 id,
  record db { filings = upsert_filing now id year (default_scenario scenario) db.filings },
)
