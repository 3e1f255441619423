-- ===== src/Accountable/Tables/Laws.antt =====
-- Lookups after updates, for the tables of internal/accountable/server.go.
use mathlib.Core.Option
use dbos_conformance.Common.{
  String, ℤ, Bool, false, some, List, [], ◌∷◌, ◌≡◌, refl, arith, eq_iff, int_beq_iff, string_eq,
  int_eq, nat_eq, if◌then◌else◌,
}
use dbos_conformance.Accountable.Tables.{
  FilingRow, CommandRow, is_filing, find_filing, find_command, update_where, holds, taken_elsewhere,
}

-- One row as an update leaves it.
abbrev pub updated {ℓ} : {A : Type ℓ} → (A → Bool) → (A → A) → A → A
updated test set_row r = if test r then set_row r else r

abbrev pub KeepsFiling : (FilingRow → FilingRow) → Type 0
KeepsFiling g = (f : FilingRow) → ((g f).filing_id ≡ f.filing_id) × ((g f).tax_year ≡ f.tax_year)

-- An update that leaves the keys alone is seen through a lookup.
pub find_filing-update_where :
    (test : FilingRow → Bool) (g : FilingRow → FilingRow) (id : String) (year : ℤ)
    (fs : List FilingRow)
    → KeepsFiling g
    → find_filing id year (update_where test g fs)
      ≡ Option.map (updated test g) (find_filing id year fs)
unfolding find_filing update_where
find_filing-update_where test g id year [] keeps = refl
find_filing-update_where test g id year (f ∷ fs) keeps =
    ground (arith, keeps f, find_filing-update_where test g id year fs keeps)

-- What a lookup finds has the key that was asked for.
pub find_filing-key :
    (id : String) (year : ℤ) (fs : List FilingRow) {f : FilingRow}
    → find_filing id year fs ≡ some f
    → (f.filing_id ≡ id) × (f.tax_year ≡ year)
unfolding find_filing
find_filing-key id year [] h = absurd (ground arith)
find_filing-key id year (g ∷ fs) {f} h =
    ground (
      arith,
      eq_iff g.filing_id id,
      int_beq_iff g.tax_year year,
      find_filing-key id year fs {f = f},
    )

pub find_command-key :
    (key : String) (cs : List CommandRow) {c : CommandRow}
    → find_command key cs ≡ some c
    → c.idempotency_key ≡ key
unfolding find_command
find_command-key key [] h = absurd (ground arith)
find_command-key key (d ∷ cs) {c} h =
    ground (arith, eq_iff d.idempotency_key key, find_command-key key cs {c = c})

pub find_command-update_where :
    (test : CommandRow → Bool) (g : CommandRow → CommandRow) (key : String) (cs : List CommandRow)
    → ((c : CommandRow) → (g c).idempotency_key ≡ c.idempotency_key)
    → find_command key (update_where test g cs) ≡ Option.map (updated test g) (find_command key cs)
unfolding find_command update_where
find_command-update_where test g key [] keeps = refl
find_command-update_where test g key (c ∷ cs) keeps =
    ground (arith, keeps c, find_command-update_where test g key cs keeps)

-- The unique index: no other filing that is found holds the operation ID.
pub taken_elsewhere-find_filing :
    (operation id : String) (year : ℤ) (other : String) (other_year : ℤ) (fs : List FilingRow)
    {f : FilingRow}
    → taken_elsewhere operation id year fs ≡ false
    → find_filing other other_year fs ≡ some f
    → is_filing id year f ≡ false
    → holds operation f.provider_operation_id ≡ false
unfolding taken_elsewhere find_filing
taken_elsewhere-find_filing operation id year other other_year [] h found e = absurd (ground arith)
taken_elsewhere-find_filing operation id year other other_year (g ∷ fs) {f} h found e =
    ground (arith, taken_elsewhere-find_filing operation id year other other_year fs {f = f})
