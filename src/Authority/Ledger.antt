-- ===== src/Authority/Ledger.antt =====
-- The state of the provider in internal/authority/server.go, and how it is persisted and rolled back.
-- `cloneState` copies every submission, so a rollback snapshot is a value here.
use dbos_conformance.Common.{
  ℕ, ◌*◌, String, ℤ, pos, Bool, true, false, Option, none, some, [], ◌==◌, string_eq, int_eq,
  if◌then◌else◌, Dict,
}

pub record Submission : Type 0 where
  pub id : String
  pub filing_id : String
  pub scenario : String
  pub callback_url : String
  pub status : String
  pub outcome : String
  pub attempts : ℕ
  pub created_at : ℤ
  pub callback_finished : Bool

pub record Metrics : Type 0 where
  pub submission_attempts : ℕ
  pub submissions : ℕ
  pub duplicate_submissions : ℕ
  pub callbacks_sent : ℕ
  pub throttled_429 : ℕ
  pub transient_5xx : ℕ

-- A map field is `none` where it is nil: the stored JSON may lack it.
pub record PersistentState : Type 0 where
  pub submissions : Option (Dict Submission)
  pub rate_limits : Option (Dict ℕ)
  pub server_errors : Option (Dict ℕ)
  pub timeouts : Option (Dict ℕ)
  pub metrics : Metrics

-- time.Duration, in nanoseconds.
pub record Timing : Type 0 where
  pub completion_delay : ℤ
  pub ambiguous_completion_delay : ℤ
  pub delayed_completion_delay : ℤ
  pub late_callback_delay : ℤ
  pub lost_response_delay : ℤ

abbrev pub seconds : ℕ → ℤ
seconds n = pos (n * 1000000000)

abbrev or_default : ℤ → ℤ → ℤ
or_default value default = if value == pos 0 then default else value

unfoldable pub with_defaults : Timing → Timing
with_defaults t =
    let completion = or_default t.completion_delay (seconds 2) in
    record {
      completion_delay = completion;
      ambiguous_completion_delay = or_default t.ambiguous_completion_delay completion;
      delayed_completion_delay = or_default t.delayed_completion_delay (seconds 25);
      late_callback_delay = or_default t.late_callback_delay (seconds 23);
      lost_response_delay = or_default t.lost_response_delay (seconds 8);
    }

-- `pool` is `none` for a server without a database, and else the row of `authority_state`, if there
-- is one.
pub record Server : Type 0 where
  pub subs : Dict Submission
  pub rl_attempts : Dict ℕ
  pub se_attempts : Dict ℕ
  pub tl_attempts : Dict ℕ
  pub metrics : Metrics
  pub pool : Option (Option PersistentState)
  pub timing : Timing

abbrev pub no_metrics : Metrics
no_metrics = record {
  submission_attempts = 0;
  submissions = 0;
  duplicate_submissions = 0;
  callbacks_sent = 0;
  throttled_429 = 0;
  transient_5xx = 0;
}

unfoldable pub new_server : Timing → Server
unfolding with_defaults
new_server timing = record {
  subs = [];
  rl_attempts = [];
  se_attempts = [];
  tl_attempts = [];
  metrics = no_metrics;
  pool = none;
  timing = with_defaults timing;
}

abbrev pub snapshot : Server → PersistentState
snapshot s = record {
  submissions = some s.subs;
  rate_limits = some s.rl_attempts;
  server_errors = some s.se_attempts;
  timeouts = some s.tl_attempts;
  metrics = s.metrics;
}

abbrev pub unless_nil {ℓ} : {A : Type ℓ} → Option A → A → A
unless_nil none old = old
unless_nil (some new) old = new

unfoldable pub restore : PersistentState → Server → Server
restore state s = record s {
  subs = unless_nil state.submissions s.subs;
  rl_attempts = unless_nil state.rate_limits s.rl_attempts;
  se_attempts = unless_nil state.server_errors s.se_attempts;
  tl_attempts = unless_nil state.timeouts s.tl_attempts;
  metrics = state.metrics;
}

-- How the database ends the upsert of the state. After `unacknowledged` the row is written and the
-- caller has an error, such as its five-second timeout.
pub data Persist : Type 0 where
  stored failed unacknowledged : Persist

abbrev pub write_row : Server → Server
write_row s = record s { pool = some (some (snapshot s)) }

abbrev pub persist_row : Persist → Server → Bool × Server
persist_row stored s = (true, write_row s)
persist_row failed s = (false, s)
persist_row unacknowledged s = (false, write_row s)

-- `persistDurablyLocked`: whether it returned no error, and the server after it.
unfoldable pub persist : Persist → Server → Bool × Server
persist p s = elim s.pool [ none ↦ (true, s) | some row ↦ persist_row p s ]

-- `saveOrFailLocked`
unfoldable pub save_or_fail : Persist → PersistentState → Server → Bool × Server
unfolding persist restore
save_or_fail p before s =
    let (saved, s') = persist p s in if saved then (true, s') else (false, restore before s')

-- NewPersistentServer, where the database answers: the ledger of the row, if there is one.
unfoldable pub new_persistent_server : Timing → Option PersistentState → Server
unfolding new_server restore
new_persistent_server timing none = record (new_server timing) { pool = some none }
new_persistent_server timing (some state) =
    restore state (record (new_server timing) { pool = some (some state) })
