-- ===== src/Chaos/Points.antt =====
-- `Init` and `Crash` of internal/chaos/chaos.go. The files that exist are a map from path to content,
-- and `join` is filepath.Join.
use dbos_conformance.Common.{
  ℕ, ◌+◌, String, Bool, true, false, not, ◌||◌, none, some, List, [], ◌∷◌, ◌==◌, ◌!=◌, string_eq,
  if◌then◌else◌, Dict, lookup, insert, map, keep,
}
use dbos_conformance.Chaos.Texts.{split_commas, trim_space}

-- The variables of the package.
pub record Chaos : Type 0 where
  pub points : List String
  pub once : Bool
  pub state_dir : String

abbrev pub unarmed : Chaos
unarmed = record { points = []; once = true; state_dir = ".chaos" }

-- `env` is os.Getenv.
unfoldable pub init : (String → String) → Chaos → Chaos
unfolding split_commas trim_space
init env c =
    let dir = env "CHAOS_STATE_DIR" in
    record {
      points = keep (λ p. p != "") (map trim_space (split_commas (env "CHAOS_CRASH_AT")));
      once = if env "CHAOS_ONCE" == "0" then false else c.once;
      state_dir = if dir != "" then dir else c.state_dir;
    }

abbrev pub is_armed : String → List String → Bool
is_armed point [] = false
is_armed point (p ∷ ps) = p == point || is_armed point ps

pub data Fate : Type 0 where
  passes exits : Fate

abbrev pub count_exit : Fate → ℕ
count_exit passes = 0
count_exit exits = 1

module _ (join : String → String → String) (c : Chaos) where
  -- `written` is whether the marker's file can be written.
  unfoldable pub crash : Bool → String → Dict String → Fate × Dict String
  crash written point files =
      let marker = join c.state_dir point in
      if not (is_armed point c.points)
      then (passes, files)
      else if c.once
      then elim (lookup marker files) [
        | some content ↦ (passes, files)
        | none ↦ (exits, if written then insert marker "fired\n" files else files)
      ]
      else (exits, files)

  -- How often the process exits at the points that it and the processes after it come to, in their
  -- order, and the files then. Every marker can be written.
  unfoldable pub come_to : List String → Dict String → ℕ × Dict String
  unfolding crash
  come_to [] files = (0, files)
  come_to (point ∷ reached) files =
      let (fate, files') = crash true point files in
      let (n, files'') = come_to reached files' in (count_exit fate + n, files'')
