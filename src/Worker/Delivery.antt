-- ===== src/Worker/Delivery.antt =====
-- The provider's `sendCallback` of internal/authority/server.go against POST /callbacks of
-- cmd/worker/main.go.
use dbos_conformance.Common.{
  ℕ, ◌+◌, ◌<◌, String, Bool, true, false, ◌||◌, Option, some, List, ◌∷◌, ◌==◌, string_eq, ◌≡◌, ◌≢◌,
  refl, ◌∙◌, arith, eq_iff, Bool-cases, inl, inr, ltb,
}
use dbos_conformance.Domain.{Callback}
use dbos_conformance.Authority.Ledger.{Server, Persist}
use dbos_conformance.Authority.Completion.{delivering, is_delivered, deliver}
use dbos_conformance.Worker.Callbacks.{
  Signal, Sent, sent, unknown_workflow, send_failed, signal_of, answer_to, handle_callback,
}

abbrev pub is_sent : Sent → Bool
is_sent sent = true
is_sent unknown_workflow = false
is_sent send_failed = false

answer_to-is_delivered : (s : Sent) → is_delivered (some (answer_to s)) ≡ is_sent s
answer_to-is_delivered sent = refl
answer_to-is_delivered unknown_workflow = refl
answer_to-is_delivered send_failed = refl

-- A callback with both IDs counts as delivered at the provider exactly if the workflow of its
-- submission ID was signalled under its callback ID.
pub delivered_iff_signalled :
    (send : Signal → Sent) (cb : Callback)
    → cb.submission_id ≢ ""
    → cb.callback_id ≢ ""
    → is_delivered (some (handle_callback send (some cb))) ≡ is_sent (send (signal_of cb))
unfolding handle_callback
delivered_iff_signalled send cb named keyed =
    let test : (cb.submission_id == "" || cb.callback_id == "") ≡ false =
      ground (arith, eq_iff cb.submission_id "", eq_iff cb.callback_id "") in
    rw test (answer_to-is_delivered (send (signal_of cb)))

deliver_again :
    (code : Option ℕ) (p : Persist) (id url : String) (cb : Callback) (rest : List Callback)
    (attempt : ℕ) (delivered : Bool) (s : Server)
    → is_delivered code ≡ false
    → attempt < 10
    → deliver code p id url cb rest attempt delivered s
      ≡ (record { id = id; stage = delivering url (cb ∷ rest) (attempt + 1) delivered }, s)
unfolding deliver
deliver_again code p id url cb rest attempt delivered s lost early =
    let more : ltb attempt 10 ≡ true = ground arith in rw (lost, more, deliver) refl

unsent_code :
    (send : Signal → Sent) (cb : Callback)
    → is_sent (send (signal_of cb)) ≡ false
    → is_delivered (some (handle_callback send (some cb))) ≡ false
unfolding handle_callback
unsent_code send cb unsent = elim (Bool-cases (cb.submission_id == "" || cb.callback_id == "")) [
  | inl e ↦ rw e refl
  | inr e ↦ rw e (answer_to-is_delivered (send (signal_of cb)) ∙ unsent)
]

-- A callback that did not reach its workflow is sent again: after any of the first nine attempts the
-- provider's goroutine stands at the same callback with the next attempt, and its ledger is the one of
-- before.
pub unsignalled_is_retried :
    (send : Signal → Sent) (p : Persist) (id url : String) (cb : Callback) (rest : List Callback)
    (attempt : ℕ) (delivered : Bool) (s : Server)
    → is_sent (send (signal_of cb)) ≡ false
    → attempt < 10
    → deliver (some (handle_callback send (some cb))) p id url cb rest attempt delivered s
      ≡ (record { id = id; stage = delivering url (cb ∷ rest) (attempt + 1) delivered }, s)
unsignalled_is_retried send p id url cb rest attempt delivered s unsent early =
    deliver_again (some (handle_callback send (some cb))) p id url cb rest attempt delivered s
      (unsent_code send cb unsent) early
