-- ===== src/Authority/Client.antt =====
-- The provider's client in internal/authority/server.go. An HTTP exchange is given as its result: the
-- text of a transport error, or the response.
use Prim.Native.String as Text
use dbos_conformance.Common.{
  ℕ, String, Option, none, some, ◌==◌, ◌!=◌, leb, string_eq, nat_eq, if◌then◌else◌, Result, ok, err,
}
use dbos_conformance.Domain.Decimal.{show_nat}
use dbos_conformance.Authority.Submit.{SubmitResponse, Response, StatusResponse}

-- *RetryableError, by its message. The only error that Submit returns.
pub record RetryableError : Type 0 where
  pub msg : String

pub record SubmitOutcome : Type 0 where
  pub result : String
  pub detail : String

abbrev pub ambiguous : String → Result RetryableError SubmitOutcome
ambiguous detail = ok (record { result = "ambiguous"; detail = detail })

abbrev read_submit : Option SubmitResponse → Result RetryableError SubmitOutcome
read_submit none = ambiguous "unreadable response"
read_submit (some r) = ok (record { result = r.status; detail = r.detail })

abbrev read_response : Response → Result RetryableError SubmitOutcome
read_response r =
    if r.code == 429
    then err (record { msg = "authority rate limited (429)" })
    else if r.code == 504
    then ambiguous "gateway timeout"
    else if leb 500 r.code
    then (if r.request_effect == "none"
        then err (record { msg = Text.◌++◌ "authority no-effect 5xx: " (show_nat r.code) })
        else ambiguous (Text.◌++◌ "authority ambiguous 5xx: " (show_nat r.code)))
    else read_submit r.body

-- Client.Submit
unfoldable pub submit : Result String Response → Result RetryableError SubmitOutcome
submit (err e) = ambiguous e
submit (ok r) = read_response r

-- The errors of Client.Status.
pub data StatusError : Type 0 where
  transport : String → StatusError
  lookup_failed : ℕ → StatusError
  unexpected : ℕ → StatusError
  unreadable : StatusError

abbrev read_status : ℕ → Option StatusResponse → Result StatusError StatusResponse
read_status code body =
    if leb 500 code
    then err (lookup_failed code)
    else if code != 200
    then err (unexpected code)
    else elim body [ none ↦ err unreadable | some r ↦ ok r ]

-- Client.Status: the status code and the decoded body.
unfoldable pub status :
    Result String (ℕ × Option StatusResponse) → Result StatusError StatusResponse
status (err e) = err (transport e)
status (ok (code, body)) = read_status code body
