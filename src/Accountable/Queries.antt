-- ===== src/Accountable/Queries.antt =====
-- The queries of internal/accountable/server.go: GET /filings/{id}, GET /filings and GET /metrics.
-- `fails` says that a statement of the handler fails in the database.
use dbos_conformance.Common.{
  ℕ, ◌+◌, String, ℤ, Bool, ◌&&◌, ◌||◌, Option, none, some, List, [], ◌∷◌, ◌==◌, ◌-ℤ◌, int_ltb,
  string_eq, int_eq, nat_eq, if◌then◌else◌, Reply, json, plain, keep, map, length, Dict, insert,
  count_at,
}
use dbos_conformance.Domain.{state_ready, state_submitting, state_submitted, state_needs_review}
use dbos_conformance.Accountable.Tables.{FilingRow, CommandRow, Db, find_filing, coalesce}

-- The struct `Filing` of the answers.
pub record Filing : Type 0 where
  pub filing_id : String
  pub tax_year : ℤ
  pub scenario : String
  pub state : String
  pub provider_operation_id : String
  pub updated_at : ℤ

-- The columns of a SELECT, scanned into that struct.
unfoldable pub scan_filing : FilingRow → Filing
scan_filing f = record {
  filing_id = f.filing_id;
  tax_year = f.tax_year;
  scenario = f.scenario;
  state = f.state;
  provider_operation_id = coalesce f.provider_operation_id;
  updated_at = f.updated_at;
}

-- GET /filings/{id}. `as_int` is how the driver reads the text of the year as an int parameter.
unfoldable pub get_filing : (String → Option ℤ) → Bool → String → String → Db → Reply Filing
get_filing as_int fails id year db = if year == "" then plain 400 else elim (as_int year) [
  | none ↦ plain 500
  | some y ↦ if fails then plain 500 else elim (find_filing id y db.filings) [
    | none ↦ plain 404
    | some f ↦ json 200 (scan_filing f)
  ]
]

-- The query of GET /filings, its parameters read off the URL ("" where absent).
pub record ListQuery : Type 0 where
  pub state : String
  pub nonterminal : String
  pub reconcilable : String
  pub stale_seconds : String

abbrev pub is_nonterminal : String → Bool
is_nonterminal s = s == state_ready || s == state_submitting || s == state_submitted

abbrev pub is_reconcilable : String → Bool
is_reconcilable s =
    s == state_ready || s == state_submitting || s == state_submitted || s == state_needs_review

-- The WHERE clause. `seconds` is how Postgres reads the text in front of ' seconds' as an interval.
unfoldable pub selects : (String → ℤ) → ℤ → ListQuery → FilingRow → Bool
selects seconds now q f =
    (q.state == "" || f.state == q.state)
    && (q.nonterminal == "" || is_nonterminal f.state)
    && (q.reconcilable == "" || is_reconcilable f.state)
    && (q.stale_seconds == "" || int_ltb f.updated_at (now -ℤ seconds q.stale_seconds))

-- ORDER BY filing_id, under the collation `le`.
unfoldable pub insert_ordered :
    (String → String → Bool) → FilingRow → List FilingRow → List FilingRow
insert_ordered le f [] = f ∷ []
insert_ordered le f (g ∷ gs) =
    if le f.filing_id g.filing_id then f ∷ g ∷ gs else g ∷ insert_ordered le f gs

unfoldable pub order_by_id : (String → String → Bool) → List FilingRow → List FilingRow
order_by_id le [] = []
order_by_id le (f ∷ fs) = insert_ordered le f (order_by_id le fs)

-- GET /filings
unfoldable pub list_filings :
    (String → ℤ) → (String → String → Bool) → Bool → ℤ → ListQuery → Db → Reply (List Filing)
list_filings seconds le fails now q db =
    if fails
    then plain 500
    else json 200 (map scan_filing (order_by_id le (keep (selects seconds now q) db.filings)))

pub record Metrics : Type 0 where
  pub commands_applied : ℕ
  pub duplicate_command_attempts : ℕ
  pub filings_by_state : Dict ℕ
  pub workflow_start_conflicts : ℕ

abbrev pub sum_duplicates : List CommandRow → ℕ
sum_duplicates [] = 0
sum_duplicates (c ∷ cs) = c.duplicate_attempts + sum_duplicates cs

-- SELECT state, count(*) FROM filings GROUP BY state
unfoldable pub count_by_state : List FilingRow → Dict ℕ
count_by_state [] = []
count_by_state (f ∷ fs) =
    let counts = count_by_state fs in insert f.state (count_at f.state counts + 1) counts

-- GET /metrics
unfoldable pub get_metrics : Bool → Db → Reply Metrics
get_metrics fails db =
    if fails
    then plain 500
    else json 200 (record {
      commands_applied = length db.commands;
      duplicate_command_attempts = sum_duplicates db.commands;
      filings_by_state = count_by_state db.filings;
      workflow_start_conflicts = length db.conflicts;
    })
