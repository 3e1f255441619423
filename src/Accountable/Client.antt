-- ===== src/Accountable/Client.antt =====
-- The service's client in internal/accountable/server.go. An HTTP exchange is given as its result: the
-- text of a transport error, or the reply.
use Prim.Native.String as Text
use dbos_conformance.Common.{
  ℕ, String, ℤ, Option, none, some, List, ◌==◌, ◌!=◌, string_eq, nat_eq, if◌then◌else◌, Result, ok,
  err, Reply, plain, status_code, reply_body, ◌≡◌, ◌≢◌, arith, Bool-cases, inl, inr,
}
use dbos_conformance.Domain.Decimal.{show_nat}
use dbos_conformance.Accountable.Command.{CommandRequest, CommandResult, Error, is_conflict}
use dbos_conformance.Accountable.Tables.{Db}
use dbos_conformance.Accountable.Apply.{Faults, apply_command}
use dbos_conformance.Accountable.Handlers.{answer_command, post_command}
use dbos_conformance.Accountable.Queries.{Filing}

-- The decoder's error, whatever its text.
abbrev pub decode {ℓ} : {A : Type ℓ} → Option A → Result String A
decode none = err "undecodable body"
decode (some a) = ok a

-- Client.GetFiling
unfoldable pub fetch_filing : String → Result String (Reply Filing) → Result String Filing
fetch_filing id (err e) = err e
fetch_filing id (ok r) =
    if status_code r == 404
    then err (Text.◌++◌ "filing " (Text.◌++◌ id " not found in accountable"))
    else decode (reply_body r)

-- Client.ApplyCommand
unfoldable pub send_command :
    CommandRequest → Result String (Reply CommandResult) → Result String CommandResult
send_command req (err e) = err e
send_command req (ok r) =
    if status_code r != 200
    then err (
        Text.◌++◌ "command "
          (Text.◌++◌ req.command_type (Text.◌++◌ " failed: HTTP " (show_nat (status_code r)))))
    else decode (reply_body r)

-- Client.RecordWorkflowStartConflict, by the status code.
unfoldable pub report_conflict : Result String ℕ → Result String (Unit {0})
report_conflict (err e) = err e
report_conflict (ok code) =
    if code != 202
    then err (Text.◌++◌ "record workflow-start conflict failed: HTTP " (show_nat code))
    else ok tt

-- Client.ListFilings
unfoldable pub fetch_filings : Result String (Reply (List Filing)) → Result String (List Filing)
fetch_filings (err e) = err e
fetch_filings (ok r) = decode (reply_body r)

no_result_of_plain :
    (req : CommandRequest) (res : CommandResult) (code : ℕ)
    → send_command req (ok (plain code)) ≢ ok res
unfolding send_command
no_result_of_plain req res code h = elim (Bool-cases (code != 200)) [
  | inl e ↦ let bad = rw e at h in ground arith
  | inr e ↦ let bad = rw e at h in ground arith
]

result_of_answer :
    (req : CommandRequest) (res : CommandResult) (answer : Result Error CommandResult)
    → send_command req (ok (answer_command answer)) ≡ ok res
    → answer ≡ ok res
unfolding send_command answer_command
result_of_answer req res (ok r) h = ground arith
result_of_answer req res (err e) h = elim (Bool-cases (is_conflict e)) [
  | inl c ↦ absurd (no_result_of_plain req res 409 (rw c at h))
  | inr c ↦ absurd (no_result_of_plain req res 500 (rw c at h))
]

-- A result that the client hands on is the result of `applyCommand` in the service: no error of the
-- service, and no refused request, reaches the caller as a result.
pub client_sees_result :
    (faults : Faults) (now : ℤ) (req : CommandRequest) (db : Db) (res : CommandResult)
    → send_command req (ok (post_command faults now (some req) db).0) ≡ ok res
    → (apply_command faults now req db).0 ≡ ok res
unfolding post_command
client_sees_result faults now req db res h = elim (Bool-cases (req.idempotency_key == "")) [
  | inl e ↦ absurd (no_result_of_plain req res 400 (rw (e, post_command) at h))
  | inr e ↦ result_of_answer req res _ (rw (e, post_command) at h)
]
