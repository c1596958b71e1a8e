-- ===== src/Tests/Durations.antt =====
-- A duration of one minute, two seconds and five nanoseconds.
use go_taskflow.Base.{◌/◌, ◌≡◌, refl, [], ◌∷◌, false, arith, total, All}
use go_taskflow.Duration.{WholeParts, minutes, seconds, nanoseconds, no_part, duration_parts}
use go_taskflow.Duration.Parts.{worth, Fits, duration_parts_lem}

-- The whole parts without rounding, up to a hundred days.
abbrev pub whole : WholeParts
whole = record {
  whole_hours = λ d. d / 3600000000000;
  whole_minutes = λ d. d / 60000000000;
  whole_seconds = λ d. d / 1000000000;
  limit = 8640000000000000;
  hours-eq = λ d low. refl;
  minutes-eq = λ d low. refl;
  seconds-eq = λ d low. refl;
}

parts_of_it : duration_parts whole 62000000005 ≡ (1, minutes) ∷ (2, seconds) ∷ (5, nanoseconds) ∷ []
unfolding duration_parts
parts_of_it = refl

duration_parts_lem_example :
    (total worth (duration_parts whole 62000000005) ≡ 62000000005)
    × All (λ p. Fits p.0 p.1) (duration_parts whole 62000000005)
    × (no_part (duration_parts whole 62000000005) ≡ false)
duration_parts_lem_example = duration_parts_lem whole 62000000005 (omega arith)
