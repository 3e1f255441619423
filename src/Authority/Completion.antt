-- ===== src/Authority/Completion.antt =====
-- The goroutine that `scheduleCompletion` of internal/authority/server.go starts, cut where it sleeps,
-- waits for HTTP or takes the lock: each step below is one critical section or one attempt to deliver.
use Prim.Native.String as Text
use dbos_conformance.Common.{
  ℕ, ◌+◌, ◌-◌, String, ℤ, pos, Bool, true, false, not, ◌||◌, Option, none, some, List, [], ◌∷◌,
  ◌==◌, ltb, string_eq, int_eq, nat_eq, if◌then◌else◌, Dict, lookup, insert, ◌-ℤ◌, int_ltb,
}
use dbos_conformance.Domain.{
  Callback, scenario_delayed, scenario_timeout_ambiguous, scenario_dup_callback,
  scenario_no_callback_done,
}
use dbos_conformance.Authority.Ledger.{Submission, Timing, Server, Persist, persist}

-- The delay that `scheduleCompletion` sleeps first.
unfoldable pub scenario_delay : Timing → String → ℤ
scenario_delay timing scenario =
    if scenario == scenario_delayed
    then timing.delayed_completion_delay
    else if scenario == scenario_timeout_ambiguous
    then timing.ambiguous_completion_delay
    else timing.completion_delay

unfoldable pub completion_delay : Timing → ℤ → Submission → ℤ
unfolding scenario_delay
completion_delay timing now sub =
    let delay = scenario_delay timing sub.scenario in
    let elapsed = now -ℤ sub.created_at in if int_ltb delay elapsed then pos 0 else delay -ℤ elapsed

-- Where the goroutine stands. `delivering` holds the URL, the callbacks that are left with the one
-- being sent first, its attempt, and `delivered`.
pub data Stage : Type 0 where
  sleeping : Stage
  delivering : String → List Callback → ℕ → Bool → Stage
  finishing : Stage
  ended : Stage

pub record Task : Type 0 where
  pub id : String
  pub stage : Stage

abbrev pub accepted_callback : String → String → Callback
accepted_callback id suffix = record {
  callback_id = Text.◌++◌ id suffix;
  submission_id = id;
  outcome = "accepted";
  detail = "";
}

-- The callbacks of a scenario, in the order in which they are sent.
unfoldable pub callbacks : String → String → List Callback
callbacks scenario id =
    if scenario == scenario_no_callback_done
    then []
    else if scenario == scenario_dup_callback
    then accepted_callback id "-cb1"
      ∷ accepted_callback id "-cb1"
      ∷ accepted_callback id "-cb2"
      ∷ []
    else accepted_callback id "-cb1" ∷ []

-- What the goroutine does next once the callbacks are through.
abbrev pub next_stage : String → List Callback → Bool → Stage
next_stage url [] delivered = if delivered then finishing else ended
next_stage url (cb ∷ rest) delivered = delivering url (cb ∷ rest) 1 delivered

abbrev pub put_sub : Submission → Server → String → Server
put_sub sub s id = record s { subs = insert id sub s.subs }

abbrev pub completed : Submission → Submission
completed sub = record sub { status = "completed"; outcome = "accepted" }

-- The status and outcome are set back after a failed write.
abbrev pub set_back : Submission → Server → String → Server
set_back old s id = record s { subs = insert id old s.subs }

abbrev pub after_completion : String → Submission → Server → Task × Server
after_completion id current s =
    if current.callback_finished then (record { id = id; stage = ended }, s) else (
      record {
        id = id;
        stage = next_stage current.callback_url (callbacks current.scenario id) true;
      },
      s,
    )

-- The first critical section.
unfoldable pub wake : Persist → String → Server → Task × Server
unfolding callbacks
wake p id s = elim (lookup id s.subs) [
  | none ↦ (record { id = id; stage = ended }, s)
  | some current ↦
      if current.status == "processing"
      then (let (saved, s') = persist p (put_sub (completed current) s id) in
          if saved
          then after_completion id (completed current) s'
          else (record { id = id; stage = ended }, set_back current s' id))
      else after_completion id current s
]

abbrev pub count_callback : Server → Server
count_callback s = record s {
  metrics = record (s.metrics) { callbacks_sent = s.metrics.callbacks_sent + 1 };
}

abbrev pub uncount_callback : Server → Server
uncount_callback s = record s {
  metrics = record (s.metrics) { callbacks_sent = s.metrics.callbacks_sent - 1 };
}

-- `err == nil` and `resp.StatusCode < 300`
abbrev pub is_delivered : Option ℕ → Bool
is_delivered none = false
is_delivered (some code) = ltb code 300

-- One attempt of `sendCallback`: the status code of the POST (`none`: a transport error), and how the
-- metric's write ends if it is below 300. The tenth failed attempt gives the callback up.
unfoldable pub deliver :
    Option ℕ
    → Persist
    → String
    → String
    → Callback
    → List Callback
    → ℕ
    → Bool
    → Server
    → Task × Server
deliver code p id url cb rest attempt delivered s =
    if is_delivered code
    then (let (saved, s') = persist p (count_callback s) in
        if saved
        then (record { id = id; stage = next_stage url rest delivered }, s')
        else (record { id = id; stage = next_stage url rest false }, uncount_callback s'))
    else if ltb attempt 10
    then (record { id = id; stage = delivering url (cb ∷ rest) (attempt + 1) delivered }, s)
    else (record { id = id; stage = next_stage url rest false }, s)

-- The last critical section: the callbacks are marked as finished.
unfoldable pub finish : Persist → String → Server → Task × Server
finish p id s = elim (lookup id s.subs) [
  | none ↦ (record { id = id; stage = ended }, s)
  | some current ↦
      (let (saved, s') = persist p (put_sub (record current { callback_finished = true }) s id) in
        if saved then (record { id = id; stage = ended }, s') else (
          record { id = id; stage = ended },
          put_sub (record current { callback_finished = false }) s' id,
        ))
]

-- What the goroutine meets at its next step: the answer to a POST and the end of a write, each read
-- only where the step has one.
pub record Meets : Type 0 where
  pub code : Option ℕ
  pub write : Persist

unfoldable pub advance : Meets → Task → Server → Task × Server
unfolding wake deliver finish
advance m t s = elim t.stage [
  | sleeping ↦ wake m.write t.id s
  | delivering url [] attempt delivered ↦ (record t { stage = next_stage url [] delivered }, s)
  | delivering url (cb ∷ rest) attempt delivered ↦
      deliver m.code m.write t.id url cb rest attempt delivered s
  | finishing ↦ finish m.write t.id s
  | ended ↦ (t, s)
]

-- `resumePending`: the submissions whose completion is scheduled again after a start.
unfoldable pub resume_pending : Dict Submission → List Task
resume_pending [] = []
resume_pending ((key, sub) ∷ subs) =
    let rest = resume_pending subs in
    if sub.status == "processing" || not sub.callback_finished
    then record { id = sub.id; stage = sleeping } ∷ rest
    else rest
