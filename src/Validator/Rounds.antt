-- ===== src/Validator/Rounds.antt =====
-- The loop on `changed` of validator.go: it ends, and finds exactly the skipped tasks.
use text.Mathlib.Text.{◌==◌ as str_eq}
use text.Mathlib.TextPositions.{eq_refl}
use go_taskflow.Base.{
  ℕ, zero, suc, ◌+◌, ◌<◌, ◌≤◌, ◌≡◌, ◌↔◌, refl, ap, sym, ◌∙◌, String, List, [], ◌∷◌, true, false,
  Bool, Bool-cases, inl, inr, if◌then◌else◌, length, arith, not, number, str_eq-cases, some, Ranges,
}
use go_taskflow.Memory.{Heap}
use go_taskflow.Node
use go_taskflow.Validator.{mark, skip_branches, skip_round, skip_loop}
use go_taskflow.Validator.Skips.{
  Has, Has-head, Part-tail, is_entry, IsSkipped, Sound, Part, marks, Closed, skip_branches-Sound,
  skip_round-Sound, skip_round-keeps, skip_branches-covers, skip_round-Closed, IsSkipped-marked,
}

-- How many entries are not marked.
abbrev unmarked : (String → Bool) → List (String × ℕ) → ℕ
unmarked skipped l = number (λ (e : String × ℕ). not (skipped e.0)) l

unmarked-le-length :
    (skipped : String → Bool) (l : List (String × ℕ)) → unmarked skipped l ≤ length l
unmarked-le-length skipped [] = omega arith
unmarked-le-length skipped ((k, n) ∷ l) = ground (arith, unmarked-le-length skipped l)

-- A new mark leaves fewer.
unmarked-mark-le :
    (skipped : String → Bool) (k : String) (l : List (String × ℕ))
    → unmarked (mark skipped k) l ≤ unmarked skipped l
unmarked-mark-le skipped k [] = omega arith
unmarked-mark-le skipped k ((j, n) ∷ l) = ground (arith, unmarked-mark-le skipped k l)

unmarked-mark-lt :
    (skipped : String → Bool) (k : String) (n : ℕ) (l : List (String × ℕ))
    → Has k n l
    → skipped k ≡ false
    → unmarked (mark skipped k) l < unmarked skipped l
unmarked-mark-lt skipped k n [] here free = absurd (here refl)
unmarked-mark-lt skipped k n ((j, a) ∷ l) here free = elim (str_eq-cases j k) [
  | inl same ↦
      let at : skipped j ≡ false = ap skipped same ∙ free in
      let marked : str_eq k j ≡ true = ap (λ x. str_eq k x) same ∙ eq_refl k in
      ground (arith, unmarked-mark-le skipped k l)
  | inr other ↦ ground (arith, unmarked-mark-lt skipped k n l (ground arith) free)
]

module _ (h : Heap) (ran : String → Bool) (m : List (String × ℕ)) where
  -- A round that sets `changed` marks an entry.
  skip_round-unmarked :
      (l : List (String × ℕ)) (skipped : String → Bool) (changed : Bool)
      → Part h ran m l
      → let (after, set) = skip_round h ran l skipped changed in
        unmarked after m + (if set then 1 else 0) ≤ unmarked skipped m + (if changed then 1 else 0)
  unfolding skip_round
  skip_round-unmarked [] skipped changed p = omega arith
  skip_round-unmarked ((k, n) ∷ l) skipped changed p =
      elim (Bool-cases (marks h ran m skipped k n)) [
        | inl e ↦
            let fewer = unmarked-mark-lt skipped k n m (p k n (Has-head k n l)) (ground arith) in
            let rest = skip_round-unmarked l (mark skipped k) true (Part-tail h ran m (k, n) l p) in
            rw (e, skip_round) (omega arith)
        | inr e ↦
            let rest = skip_round-unmarked l skipped changed (Part-tail h ran m (k, n) l p) in
            rw (e, skip_round) rest
      ]

  module _ (nodes : Ranges ℕ) where
    pub range-Part : (i : ℕ) → Part h ran m (nodes.range i m)
    range-Part i k n here e = here (nodes.number-range i m (is_entry k n) ∙ e)

    abbrev Settled : (String → Bool) → Type 0
    Settled skipped = (k : String) → (skipped k ≡ true) ↔ IsSkipped h ran m k

    skip_loop-changed :
        (fuel i : ℕ) (skipped after : String → Bool)
        → (skip_round h ran (nodes.range i m) skipped false).1 ≡ true
        → skip_loop nodes fuel h ran m (i + 1) (skip_round h ran (nodes.range i m) skipped false).0
          ≡ some after
        → skip_loop nodes (suc fuel) h ran m i skipped ≡ some after
    unfolding skip_loop
    skip_loop-changed fuel i skipped after e runs = rw (e, skip_loop) runs

    -- Where the marks are sound and the first loop's are among them, the loop ends with the skipped
    -- tasks marked, if its fuel is above the number of entries that are not marked yet.
    skip_loop-Settled :
        (fuel i : ℕ) (skipped : String → Bool)
        → unmarked skipped m < fuel
        → Sound h ran m skipped
        → ((k : String) (n : ℕ)
            → Has k n m
            → ran k ≡ false
            → Node.has_cond_predecessor h n ≡ true
            → skipped k ≡ true)
        → (after : String → Bool) × (skip_loop nodes fuel h ran m i skipped ≡ some after)
          × Settled after
    unfolding skip_loop
    skip_loop-Settled zero i skipped low sound start = absurd (omega arith)
    skip_loop-Settled (suc fuel) i skipped low sound start =
        let fewer = skip_round-unmarked (nodes.range i m) skipped false (range-Part i) in
        let sound' =
          skip_round-Sound h ran m (nodes.range i m) skipped false (range-Part i) sound in
        elim (Bool-cases (skip_round h ran (nodes.range i m) skipped false).1) [
          | inl e ↦
              let (after, runs, settled) =
                skip_loop-Settled fuel (i + 1) (skip_round h ran (nodes.range i m) skipped false).0
                  (ground arith) sound'
                  (λ k n here out cond.
                    skip_round-keeps h ran m (nodes.range i m) skipped false k
                      (start k n here out cond)) in
              (after, skip_loop-changed fuel i skipped after e runs, settled)
          | inr e ↦
              let (same, closed) = skip_round-Closed h ran m (nodes.range i m) skipped e in
              let closed' : Closed h ran m skipped m = λ k n here out deps.
                closed k n (λ z. here (sym (nodes.number-range i m (is_entry k n)) ∙ z)) out deps in
              (
                skipped,
                rw (e, skip_loop) (ap some same),
                λ k. (sound k, IsSkipped-marked h ran m skipped start closed' k),
              )
        ]

    -- Step 3 of `run` ends, and behind it a name is marked exactly when its task is skipped, in
    -- whatever order the loops go through the map.
    pub skips_found :
        (skipped : String → Bool) × (skip_loop nodes
            (suc (length m))
            h
            ran
            m
            2
            (skip_branches h ran (nodes.range 0 m) (λ _. false))
          ≡ some skipped)
        × ((k : String) → (skipped k ≡ true) ↔ IsSkipped h ran m k)
    skips_found =
        let first = skip_branches h ran (nodes.range 0 m) (λ _. false) in
        skip_loop-Settled (suc (length m)) 2 first (omega (arith, unmarked-le-length first m))
          (skip_branches-Sound h ran m (nodes.range 0 m) (λ _. false) (range-Part 0)
            (λ k e. absurd (ground arith)))
          (λ k n here out cond.
            skip_branches-covers h ran m (nodes.range 0 m) (λ _. false) k n
              (λ z. here (sym (nodes.number-range 0 m (is_entry k n)) ∙ z)) out cond)
