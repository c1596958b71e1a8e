-- ===== src/Duration/Parts.antt =====
-- The parts of a duration add up to it.
use go_taskflow.Base.{
  ℕ, ◌+◌, ◌*◌, ◌/◌, ◌%◌, ◌<◌, ◌≡◌, refl, ap, ◌∙◌, List, [], ◌∷◌, ◌++◌, false, ◌||◌, ◌==◌, ltb,
  arith, Bool-cases, inl, inr, total, total-append, All, All-append, if_both, sym,
}
use go_taskflow.Duration.{
  Scale, hours, minutes, seconds, milliseconds, microseconds, nanoseconds, WholeParts, part,
  no_part, duration_parts,
}

abbrev pub size : Scale → ℕ
size hours = 3600000000000
size minutes = 60000000000
size seconds = 1000000000
size milliseconds = 1000000
size microseconds = 1000
size nanoseconds = 1

-- How many of a unit there are below the next one.
abbrev pub Fits : ℕ → Scale → Type 0
Fits n hours = Unit
Fits n minutes = n < 60
Fits n seconds = n < 60
Fits n _ = n < 1000

abbrev pub worth : ℕ × Scale → ℕ
worth (n, u) = n * size u

total-part : (n : ℕ) (u : Scale) → total worth (part n u) ≡ n * size u
total-part n u = elim (Bool-cases (n == 0)) [
  | inl e ↦
      let zero : n ≡ 0 = ground arith in
      let nothing : 0 * size u ≡ 0 = omega arith in
      rw (e, part) (sym (ap (λ k. k * size u) zero ∙ nothing))
  | inr e ↦ rw (e, part) (omega arith)
]

Fits-part : (n : ℕ) (u : Scale) → Fits n u → All (λ p. Fits p.0 p.1) (part n u)
Fits-part n u f = if_both (All (λ (p : ℕ × Scale). Fits p.0 p.1)) (n == 0) tt (f, tt)

-- A duration is the sum of its whole hours and of what is left in each smaller unit.
split_up :
    (d : ℕ)
    → d / 3600000000000 * 3600000000000
        + d / 60000000000 % 60 * 60000000000
        + d / 1000000000 % 60 * 1000000000
        + d / 1000000 % 1000 * 1000000
        + d / 1000 % 1000 * 1000
        + d % 1000
      ≡ d
split_up d = omega arith

no_part-snoc : (ps : List (ℕ × Scale)) (p : ℕ × Scale) → no_part (ps ++ p ∷ []) ≡ false
no_part-snoc [] p = refl
no_part-snoc (q ∷ ps) p = refl

module _ (whole : WholeParts) (d : ℕ) (low : d < whole.limit) where
  abbrev larger : List (ℕ × Scale)
  larger =
      part (whole.whole_hours d) hours
      ++ (part (whole.whole_minutes d % 60) minutes
          ++ (part (whole.whole_seconds d % 60) seconds
              ++ (part (d / 1000000 % 1000) milliseconds ++ part (d / 1000 % 1000) microseconds)))

  total-larger : total worth larger + d % 1000 ≡ d
  total-larger =
      let h = part (whole.whole_hours d) hours in
      let m = part (whole.whole_minutes d % 60) minutes in
      let s = part (whole.whole_seconds d % 60) seconds in
      let ms = part (d / 1000000 % 1000) milliseconds in
      let us = part (d / 1000 % 1000) microseconds in
      let h' =
        total-part (whole.whole_hours d) hours
        ∙ ap (λ n. n * 3600000000000) (whole.hours-eq d low) in
      let m' =
        total-part (whole.whole_minutes d % 60) minutes
        ∙ ap (λ n. n % 60 * 60000000000) (whole.minutes-eq d low) in
      let s' =
        total-part (whole.whole_seconds d % 60) seconds
        ∙ ap (λ n. n % 60 * 1000000000) (whole.seconds-eq d low) in
      let ms' = total-part (d / 1000000 % 1000) milliseconds in
      let us' = total-part (d / 1000 % 1000) microseconds in
      omega (
        arith,
        total-append worth h (m ++ (s ++ (ms ++ us))),
        total-append worth m (s ++ (ms ++ us)),
        total-append worth s (ms ++ us),
        total-append worth ms us,
        split_up d,
      )

  Fits-larger : All (λ (p : ℕ × Scale). Fits p.0 p.1) larger
  Fits-larger =
      let F : ℕ × Scale → Type 0 = λ p. Fits p.0 p.1 in
      All-append F (part (whole.whole_hours d) hours) _ (Fits-part _ hours tt) (
        All-append F (part (whole.whole_minutes d % 60) minutes) _
          (Fits-part _ minutes (omega arith))
          (All-append F (part (whole.whole_seconds d % 60) seconds) _
            (Fits-part _ seconds (omega arith))
            (All-append F (part (d / 1000000 % 1000) milliseconds) _
              (Fits-part _ milliseconds (omega arith)) (Fits-part _ microseconds (omega arith)))))

  -- Up to the duration at which package time rounds up, the parts that are written add up to the
  -- duration; minutes and seconds are below 60 and the smaller units below 1000; and there is at
  -- least one part.
  pub duration_parts_lem :
      (total worth (duration_parts whole d) ≡ d)
      × All (λ p. Fits p.0 p.1) (duration_parts whole d)
      × (no_part (duration_parts whole d) ≡ false)
  unfolding duration_parts
  duration_parts_lem = elim (Bool-cases (ltb 0 (d % 1000) || no_part larger)) [
    | inl e ↦
        rw (e, duration_parts)
          (
            total-append worth larger ((d % 1000, nanoseconds) ∷ []) ∙ omega (arith, total-larger),
            All-append (λ (p : ℕ × Scale). Fits p.0 p.1) larger ((d % 1000, nanoseconds) ∷ [])
                Fits-larger (omega arith, tt),
            no_part-snoc larger (d % 1000, nanoseconds),
          )
    | inr e ↦
        rw (e, duration_parts)
          (
            let t = total-larger in let low_part : d % 1000 ≡ 0 = ground arith in omega arith,
            Fits-larger,
            ground arith,
          )
  ]
