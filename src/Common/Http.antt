-- ===== src/Common/Http.antt =====
-- What a handler answers: a status code with a JSON value, or a status code with a plain text or no
-- body, which no client of the program reads.
use Prim.Native.Nat.{ℕ}
use mathlib.Core.Option.{Option, none, some}

pub data Reply {ℓ} (A : Type ℓ) : Type ℓ where
  json : ℕ → A → Reply A
  plain : ℕ → Reply A

abbrev pub status_code {ℓ} : {A : Type ℓ} → Reply A → ℕ
status_code (json code a) = code
status_code (plain code) = code

-- The decoded body, where the answer has one.
abbrev pub reply_body {ℓ} : {A : Type ℓ} → Reply A → Option A
reply_body (json code a) = some a
reply_body (plain code) = none
