-- ===== src/Accountable/WellFormed.antt =====
-- What holds of the filings of internal/accountable/server.go between two requests.
use dbos_conformance.Common.{
  ℕ, zero, suc, ◌+◌, String, ℤ, Bool, true, false, none, some, List, [], ◌∷◌, ◌==◌, ◌≡◌, ◌≢◌, refl,
  sym, subst, subst₂, arith, eq_iff, string_eq, int_eq, nat_eq, Bool-cases, inl, inr, ◌⊎◌, lookup,
}
use dbos_conformance.Domain.{state_ready, state_submitting}
use dbos_conformance.Accountable.Command.{
  CommandRequest, prepare, command_transitions, command_allows_state,
}
use dbos_conformance.Accountable.Tables.{FilingRow, Db, find_filing}
use dbos_conformance.Accountable.Apply.{Faults, apply_command}
use dbos_conformance.Accountable.Transitions.{known_command}
use dbos_conformance.Accountable.Steps.{
  FilingStep, untouched, intended, reached, apply_command-before,
}
use dbos_conformance.Accountable.Ownership.{
  OwnOperations, command-OwnOperations, upsert-OwnOperations, upsert-find,
}
use dbos_conformance.Accountable.Handlers.{
  upsert_filing, SeedRequest, WorkflowStartConflict, seed_loop, default_scenario, post_command,
  post_conflict, post_seed, put_filing,
}
use dbos_conformance.Accountable.Service.{
  Request, command, conflict, seed, put, serve, serve_all, empty_db,
}

-- A filing that has left `ready` has a submission intent on record: its operation ID, which is not
-- empty. One that is ready has none.
abbrev pub HasIntent : FilingRow → Type 0
HasIntent f =
    ((f.state ≡ state_ready) × (f.provider_operation_id ≡ none))
    ⊎ ((f.state ≢ state_ready)
        × ((operation : String) × (f.provider_operation_id ≡ some operation) × (operation ≢ "")))

abbrev pub EachHasIntent : List FilingRow → Type 0
EachHasIntent fs =
    (id : String) (year : ℤ) (f : FilingRow) → find_filing id year fs ≡ some f → HasIntent f

excluded :
    (c s t known_type target : String)
    → command_allows_state known_type state_ready ≡ false
    → (target == state_ready) ≡ false
    → command_allows_state c s ≡ true
    → c ≡ known_type
    → t ≡ target
    → (s ≢ state_ready) × (t ≢ state_ready)
excluded c s t known_type target refused elsewhere allowed e f = (
  λ q. cc (refused, sym (subst₂ (λ c s. command_allows_state c s ≡ true) e q allowed)),
  λ q. ground (arith, eq_iff target state_ready),
)

-- A command that is not PrepareFilingSubmission needs a filing that is not ready, and leads to none
-- that is.
other_command :
    (c s t : String)
    → (c == prepare) ≡ false
    → lookup c command_transitions ≡ some t
    → command_allows_state c s ≡ true
    → (s ≢ state_ready) × (t ≢ state_ready)
unfolding command_allows_state
other_command c s t other leads allowed = elim (known_command c t leads) [
  | inl (e, f) ↦ absurd (ground (arith, eq_iff c prepare))
  | inr (inl (e, f)) ↦ excluded c s t _ _ refl refl allowed e f
  | inr (inr (inl (e, f))) ↦ excluded c s t _ _ refl refl allowed e f
  | inr (inr (inr (inl (e, f)))) ↦ excluded c s t _ _ refl refl allowed e f
  | inr (inr (inr (inr (e, f)))) ↦ excluded c s t _ _ refl refl allowed e f
]

step-HasIntent :
    (now : ℤ) (req : CommandRequest) (fs : List FilingRow) (f f' : FilingRow)
    → FilingStep now req fs f f'
    → HasIntent f
    → HasIntent f'
step-HasIntent now req fs f f' (untouched e) h = subst HasIntent (sym e) h
step-HasIntent now req fs f f' (intended p given here free e) h = subst HasIntent (sym e) (
    inr (
      (λ q. ground (arith, eq_iff state_submitting state_ready)),
      (req.provider_operation_id, refl, λ q. ground (arith, eq_iff req.provider_operation_id "")),
    ))
step-HasIntent now req fs f f' (reached t here other leads allowed e) (inl (ready, _)) =
    absurd ((other_command req.command_type f.state t other leads allowed).0 ready)
step-HasIntent now req fs f f' (reached t here other leads allowed e) (inr (_, intent_kept)) =
    subst HasIntent (sym e)
      (inr ((other_command req.command_type f.state t other leads allowed).1, intent_kept))

pub command-EachHasIntent :
    (faults : Faults) (now : ℤ) (req : CommandRequest) (db : Db)
    → EachHasIntent db.filings
    → EachHasIntent (apply_command faults now req db).1.filings
command-EachHasIntent faults now req db each id year f' found =
    let (f, before, step) = apply_command-before faults now req db id year f' found in
    step-HasIntent now req db.filings f f' step (each id year f before)

upsert-EachHasIntent :
    (now : ℤ) (key : String) (key_year : ℤ) (scenario : String) (fs : List FilingRow)
    → EachHasIntent fs
    → EachHasIntent (upsert_filing now key key_year scenario fs)
upsert-EachHasIntent now key key_year scenario fs each id year f found =
    elim (upsert-find now key key_year scenario id year fs f found) [
      | inl fresh ↦ inl fresh
      | inr old ↦ each id year f old
    ]

-- What holds of the filings between two requests.
pub record IsWellFormed (db : Db) : Type 0 where
  pub each : EachHasIntent db.filings
  pub own : OwnOperations db.filings

upsert-IsWellFormed :
    (now : ℤ) (id : String) (year : ℤ) (scenario : String) (db : Db)
    → IsWellFormed db
    → IsWellFormed (record db { filings = upsert_filing now id year scenario db.filings })
upsert-IsWellFormed now id year scenario db w = record {
  each = upsert-EachHasIntent now id year scenario db.filings w.each;
  own = upsert-OwnOperations now id year scenario db.filings w.own;
}

seed-IsWellFormed :
    (fails : ℕ → Bool) (now : ℤ) (req : SeedRequest) (rounds i : ℕ) (ids : List String) (db : Db)
    → IsWellFormed db
    → IsWellFormed (seed_loop fails now req rounds i ids db).1
unfolding seed_loop
seed-IsWellFormed fails now req zero i ids db w = w
seed-IsWellFormed fails now req (suc rounds) i ids db w = elim (Bool-cases (fails i)) [
  | inl e ↦ rw e w
  | inr e ↦ rw e (
      seed-IsWellFormed fails now req rounds (i + 1) _ _
        (upsert-IsWellFormed now _ req.tax_year req.scenario db w))
]

conflict-IsWellFormed :
    (fails : Bool) (now : ℤ) (c : WorkflowStartConflict) (db : Db)
    → IsWellFormed db
    → IsWellFormed (post_conflict fails now (some c) db).1
unfolding post_conflict
conflict-IsWellFormed fails now c db w =
    let same : (post_conflict fails now (some c) db).1.filings ≡ db.filings = ground arith in
    record {
      each = subst EachHasIntent (sym same) w.each;
      own = subst OwnOperations (sym same) w.own;
    }

post-IsWellFormed :
    (faults : Faults) (now : ℤ) (req : CommandRequest) (db : Db)
    → IsWellFormed db
    → IsWellFormed (post_command faults now (some req) db).1
unfolding post_command
post-IsWellFormed faults now req db w = elim (Bool-cases (req.idempotency_key == "")) [
  | inl e ↦ rw (e, post_command) w
  | inr e ↦
      rw (e, post_command)
        (record {
          each = command-EachHasIntent faults now req db w.each;
          own = command-OwnOperations faults now req db w.own;
        })
]

put-IsWellFormed :
    (fails : Bool) (now : ℤ) (id : String) (year : ℤ) (scenario : String) (db : Db)
    → IsWellFormed db
    → IsWellFormed (put_filing fails now id (some (year, scenario)) db).1
unfolding put_filing
put-IsWellFormed true now id year scenario db w = w
put-IsWellFormed false now id year scenario db w =
    upsert-IsWellFormed now id year (default_scenario scenario) db w

-- One request keeps it.
pub serve-IsWellFormed : (r : Request) (db : Db) → IsWellFormed db → IsWellFormed (serve r db)
unfolding serve post_command post_conflict post_seed put_filing
serve-IsWellFormed (command faults now none) db w = w
serve-IsWellFormed (command faults now (some req)) db w = post-IsWellFormed faults now req db w
serve-IsWellFormed (conflict fails now none) db w = w
serve-IsWellFormed (conflict fails now (some c)) db w = conflict-IsWellFormed fails now c db w
serve-IsWellFormed (seed fails now none) db w = w
serve-IsWellFormed (seed fails now (some req)) db w = seed-IsWellFormed fails now _ _ 1 [] db w
serve-IsWellFormed (put fails now id none) db w = w
serve-IsWellFormed (put fails now id (some (year, scenario))) db w =
    put-IsWellFormed fails now id year scenario db w

serve_all-keeps : (rs : List Request) (db : Db) → IsWellFormed db → IsWellFormed (serve_all rs db)
unfolding serve_all
serve_all-keeps [] db w = w
serve_all-keeps (r ∷ rs) db w = serve_all-keeps rs (serve r db) (serve-IsWellFormed r db w)

-- After any requests to the empty tables, whatever fails in them, a filing that has left `ready` has a
-- non-empty operation ID on record and a ready one has none, and no two filings share an ID.
pub serve_all-IsWellFormed : (rs : List Request) → IsWellFormed (serve_all rs empty_db)
unfolding find_filing
serve_all-IsWellFormed rs = serve_all-keeps rs empty_db (record {
  each = λ id year f found. absurd (ground arith);
  own = λ id year other other_year f g operation found there e e'. absurd (ground arith);
})
