-- ===== src/Chaos/Tests.antt =====
-- internal/chaos/chaos.go at concrete settings.
use Prim.Native.String as Text
use dbos_conformance.Common.{
  ◌≤◌, String, true, List, [], ◌∷◌, ◌==◌, string_eq, if◌then◌else◌, ◌≡◌, refl,
}
use dbos_conformance.Chaos.Points.{Chaos, init, unarmed, come_to}
use dbos_conformance.Chaos.Progress.{exits_at_most_once_each}

abbrev join : String → String → String
join dir file = Text.◌++◌ dir (Text.◌++◌ "/" file)

abbrev env : String → String
env key = if key == "CHAOS_CRASH_AT" then " before-submit,,after-submit " else ""

abbrev armed : Chaos
armed = record { points = "before-submit" ∷ "after-submit" ∷ []; once = true; state_dir = ".chaos" }

init_arms : init env unarmed ≡ armed
unfolding init
init_arms = refl

abbrev reached : List String
reached = "before-submit" ∷ "before-submit" ∷ "after-submit" ∷ "before-submit" ∷ "after-submit" ∷ []

exits_at_most_once_each_example : (come_to join armed reached []).0 ≤ 2
exits_at_most_once_each_example = exits_at_most_once_each join armed reached refl
