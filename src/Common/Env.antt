-- ===== src/Common/Env.antt =====
-- envOr, envInt and envDuration, of which each program under cmd/ has its copy. `env` is os.Getenv, and
-- the parsers are strconv.Atoi and time.ParseDuration, `none` on an error.
use Prim.Native.String.{String}
use mathlib.Core.Option.{Option, none, some}
use dbos_conformance.Common.Int.{ℤ}
use dbos_conformance.Common.Tests.{◌!=◌, string_eq, if◌then◌else◌}

-- envOr
abbrev pub env_or : (String → String) → String → String → String
env_or env key default = let v = env key in if v != "" then v else default

-- envInt and envDuration
unfoldable pub env_parsed : (String → Option ℤ) → (String → String) → String → ℤ → ℤ
env_parsed parse env key default =
    let v = env key in if v != "" then elim (parse v) [ none ↦ default | some n ↦ n ] else default
