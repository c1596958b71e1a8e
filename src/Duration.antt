-- ===== src/Duration.antt =====
-- `NormalizeDuration` of utils/utils.go. A duration is a number of nanoseconds, which a cost never
-- has below zero. `int(d.Hours())`, `int(d.Minutes())` and `int(d.Seconds())` go through floating
-- point numbers of package time and are parameters; `d.Milliseconds()` and `d.Microseconds()` are
-- whole numbers.
pub mod Parts
use Prim.Native.String
use go_taskflow.Base.{
  ℕ, ◌+◌, ◌*◌, ◌/◌, ◌%◌, ◌<◌, ◌≡◌, String, List, [], ◌∷◌, ◌++◌, Bool, true, false, ◌||◌,
  if◌then◌else◌, ◌==◌, ltb,
}

-- The units, their letters and their nanoseconds.
pub data Scale : Type 0 where
  hours minutes seconds milliseconds microseconds nanoseconds : Scale

abbrev pub letters : Scale → String
letters hours = "h"
letters minutes = "m"
letters seconds = "s"
letters milliseconds = "ms"
letters microseconds = "µs"
letters nanoseconds = "ns"

-- What the code relies on of package time: up to some duration, the whole hours, minutes and seconds
-- are not rounded up.
pub record WholeParts : Type 0 where
  pub whole_hours : ℕ → ℕ
  pub whole_minutes : ℕ → ℕ
  pub whole_seconds : ℕ → ℕ
  pub limit : ℕ
  pub hours-eq : (d : ℕ) → d < limit → whole_hours d ≡ d / 3600000000000
  pub minutes-eq : (d : ℕ) → d < limit → whole_minutes d ≡ d / 60000000000
  pub seconds-eq : (d : ℕ) → d < limit → whole_seconds d ≡ d / 1000000000

abbrev pub part : ℕ → Scale → List (ℕ × Scale)
part n u = if n == 0 then [] else (n, u) ∷ []

abbrev pub no_part : List (ℕ × Scale) → Bool
no_part [] = true
no_part (p ∷ ps) = false

module _ (whole : WholeParts) where
  -- The parts that are written, in order.
  unfoldable pub duration_parts : ℕ → List (ℕ × Scale)
  duration_parts d =
      let parts =
        part (whole.whole_hours d) hours
        ++ (part (whole.whole_minutes d % 60) minutes
            ++ (part (whole.whole_seconds d % 60) seconds
                ++ (part (d / 1000000 % 1000) milliseconds
                    ++ part (d / 1000 % 1000) microseconds))) in
      if ltb 0 (d % 1000) || no_part parts then parts ++ (d % 1000, nanoseconds) ∷ [] else parts

  -- The text, where `decimal` is `%d`.
  unfoldable pub parts_text : (ℕ → String) → List (ℕ × Scale) → String
  parts_text decimal [] = ""
  parts_text decimal ((n, u) ∷ ps) =
      String.◌++◌ (decimal n) (String.◌++◌ (letters u) (parts_text decimal ps))

  unfoldable pub normalize_duration : (ℕ → String) → ℕ → String
  unfolding duration_parts parts_text
  normalize_duration decimal d = parts_text decimal (duration_parts d)
