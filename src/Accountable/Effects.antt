-- ===== src/Accountable/Effects.antt =====
-- Under one key, at most one call is answered as having taken effect.
use mathlib.Core.Option
use dbos_conformance.Common.{
  ◌≤◌, String, ℤ, true, false, some, List, [], ◌∷◌, ◌==◌, ◌≡◌, refl, sym, subst, arith, eq_iff,
  string_eq, int_eq, nat_eq, Bool-cases, inl, inr, ap, ◌∙◌, ◌⊎◌, Result, ◌&&◌,
}
use dbos_conformance.Accountable.Command.{CommandRequest, CommandResult, Error}
use dbos_conformance.Accountable.Tables.{CommandRow, Db, find_command}
use dbos_conformance.Accountable.Tables.Laws.{find_command-update_where, updated}
use dbos_conformance.Accountable.Apply.{Faults, bump, has_key, apply_command}
use dbos_conformance.Accountable.First.{first_row}
use dbos_conformance.Accountable.Outcome.{Outcome, failed, replayed, applied, apply_command-Outcome}
use dbos_conformance.Accountable.History.{Call, reports_effect, effects_reported}

-- The tables have a command under the key.
abbrev pub Knows : String → Db → Type 0
Knows key db = (row : CommandRow) × (find_command key db.commands ≡ some row)

module _ (now : ℤ) (key : String) (req : CommandRequest) (db : Db) where
  Outcome-Knows :
      {answer : Result Error CommandResult} {db' : Db}
      → Outcome now req db answer db'
      → Knows key db
      → Knows key db'
  unfolding find_command
  Outcome-Knows (failed e told same) k = subst (Knows key) (sym same) k
  Outcome-Knows (replayed res r told) (row, known) = (
    updated (has_key req.idempotency_key) bump row,
    ap (λ (d : Db). find_command key d.commands) r.counted
        ∙ find_command-update_where (has_key req.idempotency_key) bump key db.commands (λ c. refl)
        ∙ ap (Option.map (updated (has_key req.idempotency_key) bump)) known,
  )
  Outcome-Knows (applied res new_state leads fresh first told) (row, known) =
      (row, rw first.stored (ground (arith, eq_iff req.idempotency_key key)))

  -- Under a known key the answer reports no effect.
  known_no_effect :
      {answer : Result Error CommandResult} {db' : Db}
      → Outcome now req db answer db'
      → Knows key db
      → req.idempotency_key ≡ key
      → reports_effect answer ≡ false
  known_no_effect (failed e told same) k e' = rw told
  known_no_effect (replayed res r (inl told)) k e = rw (told, r.result)
  known_no_effect (replayed res r (inr told)) k e = rw told
  known_no_effect (applied res new_state leads fresh first told) (row, known) e =
      absurd (ground (arith, ap (λ k. find_command k db.commands) e))

  -- An effect that is reported is stored under its key.
  effect-Knows :
      {answer : Result Error CommandResult} {db' : Db}
      → Outcome now req db answer db'
      → reports_effect answer ≡ true
      → req.idempotency_key ≡ key
      → Knows key db'
  unfolding find_command
  effect-Knows (failed e told same) h e' = absurd (ground arith)
  effect-Knows (replayed res r told) h e =
      Outcome-Knows (replayed res r told)
        (r.row, subst (λ k. find_command k db.commands ≡ some r.row) e r.known)
  effect-Knows (applied res new_state leads fresh first told) h e =
      (first_row now req res, rw first.stored (ground (arith, eq_iff req.idempotency_key key)))

  known_keeps_filings :
      {answer : Result Error CommandResult} {db' : Db}
      → Outcome now req db answer db'
      → Knows key db
      → req.idempotency_key ≡ key
      → db'.filings ≡ db.filings
  known_keeps_filings (failed e told same) k e' = ap (λ (d : Db). d.filings) same
  known_keeps_filings (replayed res r told) k e = ap (λ (d : Db). d.filings) r.counted
  known_keeps_filings (applied res new_state leads fresh first told) (row, known) e =
      absurd (ground (arith, ap (λ k. find_command k db.commands) e))

module _ (now : ℤ) (key : String) (req : CommandRequest) (db : Db) where
  effect_or_not :
      {answer : Result Error CommandResult} {db' : Db}
      → Outcome now req db answer db'
      → Knows key db' ⊎ ((req.idempotency_key == key && reports_effect answer) ≡ false)
  effect_or_not {answer} o = elim (Bool-cases (req.idempotency_key == key)) [
    | inl same ↦ elim (Bool-cases (reports_effect answer)) [
      | inl effect ↦ inl (effect-Knows now key req db o effect ((eq_iff _ _).0 same))
      | inr e ↦ inr (rw (same, e))
    ]
    | inr other ↦ inr (rw other)
  ]

no_more_effects :
    (key : String) (cs : List Call) (db : Db) → Knows key db → effects_reported key cs db ≡ 0
unfolding effects_reported
no_more_effects key [] db k = refl
no_more_effects key (c ∷ cs) db k =
    let o = apply_command-Outcome c.faults c.now c.request db in
    let rest =
      no_more_effects key cs (apply_command c.faults c.now c.request db).1
        (Outcome-Knows c.now key c.request db o k) in
    ground (
      arith,
      rest,
      eq_iff c.request.idempotency_key key,
      known_no_effect c.now key c.request db o k,
    )

-- One answer with an effect at most, and none once the tables have the key.
effects_bounded :
    (key : String) (cs : List Call) (db : Db)
    → (effects_reported key cs db ≤ 1) × (Knows key db → effects_reported key cs db ≡ 0)
unfolding effects_reported
effects_bounded key [] db = (omega arith, λ k. refl)
effects_bounded key (c ∷ cs) db =
    let o = apply_command-Outcome c.faults c.now c.request db in
    let (at_most_one, none_left) =
      effects_bounded key cs (apply_command c.faults c.now c.request db).1 in
    (
      elim (effect_or_not c.now key c.request db o) [
        | inl k ↦ ground (arith, none_left k)
        | inr e ↦ rw e at_most_one
      ],
      no_more_effects key (c ∷ cs) db,
    )

-- In every history of commands, from any tables and with any faults, at most one call with a given
-- idempotency key is answered as applied.
pub at_most_one_effect : (key : String) (cs : List Call) (db : Db) → effects_reported key cs db ≤ 1
at_most_one_effect key cs db = (effects_bounded key cs db).0

-- Under a key that the tables have, no call moves a filing, whether it repeats the stored command or
-- asks for another one.
pub known_key_keeps_filings :
    (faults : Faults) (now : ℤ) (req : CommandRequest) (db : Db) (row : CommandRow)
    → find_command req.idempotency_key db.commands ≡ some row
    → (apply_command faults now req db).1.filings ≡ db.filings
known_key_keeps_filings faults now req db row known =
    known_keeps_filings now req.idempotency_key req db (apply_command-Outcome faults now req db)
      (row, known) refl
