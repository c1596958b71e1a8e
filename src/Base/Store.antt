-- ===== src/Base/Store.antt =====
-- Memory as a function from addresses, written one address at a time.
use Prim.Native.Nat.{ℕ}
use go_taskflow.Base.Tests.{if◌then◌else◌, ◌==◌}

module _ {ℓ} {A : Type ℓ} where
  abbrev pub update : (ℕ → A) → ℕ → A → ℕ → A
  update f i a j = if i == j then a else f j
