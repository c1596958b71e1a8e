-- ===== src/Executor/Schedule.antt =====
-- Runs by a given schedule: which goroutine takes each step, and what the step reads.
use mathlib.Core.Path.{subst}
use mathlib.Core.List.{append_assoc}
use go_taskflow.Base.{
  ℕ, zero, suc, ◌≡◌, refl, sym, ◌∙◌, List, [], ◌∷◌, ◌++◌, Option, none, some, ltb, ◌^◌,
  if◌then◌else◌, Bool-cases, inl, inr, arith,
}
use go_taskflow.Queue.{Queue}
use go_taskflow.Sort.{Sort}
use go_taskflow.Executor.{System, Step, turn, Reach}
use go_taskflow.Executor.Within.{Within, stay, go, Within-Reach}
use go_taskflow.Executor.Goroutine.{Thread, Input}
use go_taskflow.Executor.Act.{Core, act}

module _ (𝓠 : Queue ℕ) (𝓢 : Sort) where
  -- Goroutine `k` behind `before` takes a step.
  unfoldable pub step_at : Input → Core 𝓠 𝓢 → ℕ → List Thread → List Thread → Option (System 𝓠 𝓢)
  step_at i c k before [] = none
  step_at i c zero before (t ∷ after) = elim (act 𝓠 𝓢 i c t t.pc) [
    | none ↦ none
    | some (d, new) ↦ some (record { core = d; threads = before ++ (new ++ after) })
  ]
  step_at i c (suc k) before (t ∷ after) = step_at i c k (before ++ t ∷ []) after

  -- The counter of `wg` must fit its 32 bits before each step.
  unfoldable pub drive : List (ℕ × Input) → System 𝓠 𝓢 → Option (System 𝓠 𝓢)
  unfolding step_at
  drive [] s = some s
  drive ((k, i) ∷ turns) s = elim (step_at i s.core k [] s.threads) [
    | none ↦ none
    | some u ↦ if ltb s.core.wg (2 ^ 32) then drive turns u else none
  ]

  abbrev goes_to : List Thread → List Thread → Option (Core 𝓠 𝓢 × List Thread) → Option (System 𝓠 𝓢)
  goes_to before after r = elim r [
    | none ↦ none
    | some (d, new) ↦ some (record { core = d; threads = before ++ (new ++ after) })
  ]

  goes_to-Step :
      (i : Input) (s u : System 𝓠 𝓢) (before : List Thread) (t : Thread) (after : List Thread)
      (r : Option (Core 𝓠 𝓢 × List Thread))
      → s.threads ≡ before ++ t ∷ after
      → act 𝓠 𝓢 i s.core t t.pc ≡ r
      → goes_to before after r ≡ some u
      → Step 𝓠 𝓢 s u
  goes_to-Step i s u before t after none at acts e = absurd cc
  goes_to-Step i s u before t after (some (d, new)) at acts e =
      turn i t before after new d at acts cc

  step_at-Step :
      (i : Input) (s u : System 𝓠 𝓢) (k : ℕ) (before after : List Thread)
      → s.threads ≡ before ++ after
      → step_at i s.core k before after ≡ some u
      → Step 𝓠 𝓢 s u
  unfolding step_at
  step_at-Step i s u k before [] at e = absurd cc
  step_at-Step i s u zero before (t ∷ after) at e =
      goes_to-Step i s u before t after (act 𝓠 𝓢 i s.core t t.pc) at refl e
  step_at-Step i s u (suc k) before (t ∷ after) at e =
      step_at-Step i s u k (before ++ t ∷ []) after (at ∙ sym (append_assoc before (t ∷ []) after))
        e

  -- What a schedule drives a system to is reached, within the bounds of `wg`.
  pub drive-Within :
      (turns : List (ℕ × Input)) (s u v : System 𝓠 𝓢)
      → Within 𝓠 𝓢 s u
      → drive turns u ≡ some v
      → Within 𝓠 𝓢 s v
  unfolding drive
  drive-Within [] s u v r e = let same : u ≡ v = cc in subst (Within 𝓠 𝓢 s) same r
  drive-Within ((k, i) ∷ turns) s u v r e =
      on (step_at i u.core k [] u.threads) refl e
        (λ w goes reached. drive-Within turns s w v reached goes)
    where
      on :
          (o : Option (System 𝓠 𝓢))
          → step_at i u.core k [] u.threads ≡ o
          → (elim o [
            | none ↦ none
            | some w ↦ if ltb u.core.wg (2 ^ 32) then drive turns w else none
          ])
            ≡ some v
          → ((w : System 𝓠 𝓢) → drive turns w ≡ some v → Within 𝓠 𝓢 s w → Within 𝓠 𝓢 s v)
          → Within 𝓠 𝓢 s v
      on none at goes rest = absurd cc
      on (some w) at goes rest = elim (Bool-cases (ltb u.core.wg (2 ^ 32))) [
        | inl low ↦
            rest w (rw low at goes)
              (go r (ground arith) (step_at-Step i u w k [] u.threads refl at))
        | inr high ↦
            absurd (let no : ◌≡◌ {A = Option (System 𝓠 𝓢)} none (some v) = rw high at goes in cc no)
      ]

  pub drive-Reach :
      (turns : List (ℕ × Input)) (s v : System 𝓠 𝓢) → drive turns s ≡ some v → Reach 𝓠 𝓢 s v
  drive-Reach turns s v e = Within-Reach 𝓠 𝓢 (drive-Within turns s s v stay e)
