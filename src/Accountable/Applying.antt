-- ===== src/Accountable/Applying.antt =====
-- `applyCommand` of internal/accountable/server.go carries out the commands that are permitted, when the
-- database does not fail.
use dbos_conformance.Common.{
  ℤ, String, Bool, true, false, none, some, List, [], ◌∷◌, ◌==◌, ◌||◌, ◌≡◌, refl, inl, inr, ◌⊎◌,
  arith, eq_iff, string_eq, int_eq, nat_eq, lookup, ok, int_beq_iff, eq_refl,
}
use dbos_conformance.Accountable.Command.{
  CommandRequest, prepare, mark_accepted, mark_rejected, mark_needs_review, command_transitions,
  command_allows_state,
}
use dbos_conformance.Accountable.Tables.{
  FilingRow, Db, is_filing, find_filing, find_command, update_where, rows_affected, coalesce,
  taken_elsewhere,
}
use dbos_conformance.Accountable.Tables.Laws.{find_filing-update_where, find_filing-key}
use dbos_conformance.Accountable.First.{first_result, first_row}
use dbos_conformance.Accountable.Apply.{
  no_faults, null_or_same, may_prepare, mark_filing, prepare_filing, prepare_rows, mark_rows,
  first_command, run_command, finish, apply_command,
}
use dbos_conformance.Accountable.Permitted.{
  IsOpen, Permitted, prepares, submits, resolves, IsApplied,
}

-- A row that a lookup finds and a test accepts is affected.
affected :
    (test : FilingRow → Bool) (id : String) (year : ℤ) (fs : List FilingRow) (f : FilingRow)
    → find_filing id year fs ≡ some f
    → test f ≡ true
    → (rows_affected test fs == 0) ≡ false
unfolding find_filing rows_affected
affected test id year [] f h t = absurd (ground arith)
affected test id year (g ∷ fs) f h t = ground (arith, affected test id year fs f)

is_its :
    (req : CommandRequest) (fs : List FilingRow) (f : FilingRow)
    → find_filing req.filing_id req.tax_year fs ≡ some f
    → is_filing req.filing_id req.tax_year f ≡ true
is_its req fs f found =
    let (same_id, same_year) = find_filing-key req.filing_id req.tax_year fs found in
    ground (arith, eq_iff f.filing_id req.filing_id, int_beq_iff f.tax_year req.tax_year)

may_be_prepared :
    (req : CommandRequest) (fs : List FilingRow) (f : FilingRow)
    → find_filing req.filing_id req.tax_year fs ≡ some f
    → (f.state ≡ "ready") ⊎ (f.state ≡ "submitting")
    → (f.provider_operation_id ≡ none) ⊎ (f.provider_operation_id ≡ some req.provider_operation_id)
    → may_prepare req f ≡ true
unfolding may_prepare
may_be_prepared req fs f found states same =
    let early : (f.state == "ready" || f.state == "submitting") ≡ true =
      ground (arith, eq_iff f.state "ready", eq_iff f.state "submitting") in
    let agrees : null_or_same req.provider_operation_id f.provider_operation_id ≡ true = elim same [
      | inl e ↦ rw e refl
      | inr e ↦ rw e (eq_refl req.provider_operation_id)
    ] in
    rw (is_its req fs f found, early, agrees, may_prepare) refl

module _ (now : ℤ) (req : CommandRequest) (db : Db) (f : FilingRow) (target : String)
    (leads : lookup req.command_type command_transitions ≡ some target)
    (fresh : find_command req.idempotency_key db.commands ≡ none)
    (found : find_filing req.filing_id req.tax_year db.filings ≡ some f)
    (allowed : command_allows_state req.command_type f.state ≡ true) where
  abbrev after : String → List FilingRow → Db
  after operation filings = record db {
    filings = filings;
    commands = first_row now req (first_result req target operation) ∷ db.commands;
  }

  applies :
      (operation : String) (filings : List FilingRow) (f' : FilingRow)
      → first_command no_faults now target req db
        ≡ ok (first_result req target operation, after operation filings)
      → find_filing req.filing_id req.tax_year filings ≡ some f'
      → f'.state ≡ target
      → coalesce f'.provider_operation_id ≡ operation
      → f'.updated_at ≡ now
      → IsApplied now req target operation
          (apply_command no_faults now req db).0
          (apply_command no_faults now req db).1
  unfolding apply_command run_command finish find_command
  applies operation filings f' first there moved held stamped =
      let whole : apply_command no_faults now req db
          ≡ (ok (first_result req target operation), after operation filings) =
        rw (leads, fresh, first, apply_command, run_command, finish) refl in
      rw whole record {
        told = refl;
        filing = f';
        found = there;
        moved = moved;
        held = held;
        stamped = stamped;
        row = first_row now req (first_result req target operation);
        kept = rw (eq_refl req.idempotency_key) refl;
        payload = refl;
      }

  abbrev Applies : String → Type 0
  Applies operation =
      IsApplied now req target operation (apply_command no_faults now req db).0
        (apply_command no_faults now req db).1

  pub marks-IsApplied :
      (req.command_type == prepare) ≡ false → Applies (coalesce f.provider_operation_id)
  unfolding first_command mark_rows
  marks-IsApplied other =
      let rows =
        affected (is_filing req.filing_id req.tax_year) _ _ db.filings f found
          (is_its req db.filings f found) in
      let marked =
        update_where (is_filing req.filing_id req.tax_year) (mark_filing now target) db.filings in
      applies (coalesce f.provider_operation_id) marked (mark_filing now target f)
        (rw (found, allowed, other, rows, first_command, mark_rows) refl)
        (rw
          (
            find_filing-update_where (is_filing req.filing_id req.tax_year) (mark_filing now target)
                req.filing_id req.tax_year db.filings (λ g. (refl, refl)),
            found,
            is_its req db.filings f found,
          )
          refl)
        refl refl refl

  pub prepares-IsApplied :
      (req.command_type == prepare) ≡ true
      → (req.provider_operation_id == "") ≡ false
      → may_prepare req f ≡ true
      → taken_elsewhere req.provider_operation_id req.filing_id req.tax_year db.filings ≡ false
      → Applies req.provider_operation_id
  unfolding first_command prepare_rows
  prepares-IsApplied is_prepare named may free =
      let rows = affected (may_prepare req) _ _ db.filings f found may in
      let set_row = prepare_filing now target req.provider_operation_id in
      applies req.provider_operation_id (update_where (may_prepare req) set_row db.filings)
        (set_row f)
        (rw (found, allowed, is_prepare, named, rows, free, first_command, prepare_rows) refl)
        (rw
          (
            find_filing-update_where (may_prepare req) set_row req.filing_id req.tax_year db.filings
                (λ g. (refl, refl)),
            found,
            may,
          )
          refl)
        refl refl refl

module _ (now : ℤ) (req : CommandRequest) (db : Db) (f : FilingRow) (target operation : String)
    (fresh : find_command req.idempotency_key db.commands ≡ none)
    (found : find_filing req.filing_id req.tax_year db.filings ≡ some f) where
  resolved :
      (type : String)
      → lookup type command_transitions ≡ some target
      → ((state : String) → IsOpen state → command_allows_state type state ≡ true)
      → (type == prepare) ≡ false
      → req.command_type ≡ type
      → IsOpen f.state
      → operation ≡ coalesce f.provider_operation_id
      → IsApplied now req target operation
          (apply_command no_faults now req db).0
          (apply_command no_faults now req db).1
  resolved type leads allows other is still keeps = rw keeps (
      marks-IsApplied now req db f target (rw is leads) fresh found (rw is (allows f.state still))
        (rw is other))

  pub permitted-IsApplied :
      Permitted req db.filings f target operation
      → IsApplied now req target operation
          (apply_command no_faults now req db).0
          (apply_command no_faults now req db).1
  unfolding lookup command_allows_state may_prepare
  permitted-IsApplied (prepares type state named same free to keeps) = rw keeps (
      prepares-IsApplied now req db f target (rw (type, to) refl) fresh found
        (rw type (ground (arith, eq_iff f.state "ready", eq_iff f.state "submitting")))
        (rw type refl) (ground (arith, eq_iff req.provider_operation_id ""))
        (may_be_prepared req db.filings f found state same) free)
  permitted-IsApplied (submits type state to keeps) = rw keeps (
      marks-IsApplied now req db f target (rw (type, to) refl) fresh found (rw (type, state) refl)
        (rw type refl))
  permitted-IsApplied (resolves type state keeps) = elim type [
    | inl (is, to) ↦ resolved mark_accepted (rw to refl) undecided refl is state keeps
    | inr (inl (is, to)) ↦ resolved mark_rejected (rw to refl) undecided refl is state keeps
    | inr (inr (is, to)) ↦ resolved mark_needs_review (rw to refl) undecided refl is state keeps
  ]
    where
      undecided :
          (state : String)
          → IsOpen state
          → (state == "submitting" || state == "submitted" || state == "needs_review") ≡ true
      undecided state still =
          ground (
            arith,
            eq_iff state "submitting",
            eq_iff state "submitted",
            eq_iff state "needs_review",
          )
