-- ===== src/Executor/Alone.antt =====
-- One goroutine that takes several steps while no other takes any.
use go_taskflow.Base.{ℕ, zero, suc, ◌≡◌, refl, [], ◌∷◌, Option, none, some}
use go_taskflow.Queue.{Queue}
use go_taskflow.Sort.{Sort}
use go_taskflow.Executor.Goroutine.{Thread, Input}
use go_taskflow.Executor.Act.{Core, act}

module _ (𝓠 : Queue ℕ) (𝓢 : Sort) where
  -- The first `n` steps of a goroutine, each by `act`, as long as it can take them and starts no
  -- other goroutine.
  unfoldable pub solo : ℕ → Input → Core 𝓠 𝓢 → Thread → Option (Core 𝓠 𝓢 × Thread)
  solo zero i c t = some (c, t)
  solo (suc n) i c t = elim (act 𝓠 𝓢 i c t t.pc) [
    | none ↦ none
    | some (d, new) ↦ elim new [
      | [] ↦ none
      | r ∷ rest ↦ elim rest [ [] ↦ solo n i d r | x ∷ l ↦ none ]
    ]
  ]

  pub solo-suc :
      (n : ℕ) (i : Input) (c d : Core 𝓠 𝓢) (t r : Thread)
      → act 𝓠 𝓢 i c t t.pc ≡ some (d, r ∷ [])
      → solo (suc n) i c t ≡ solo n i d r
  unfolding solo
  solo-suc n i c d t r e = rw (e, solo) refl
