-- ===== src/Base/Words.antt =====
-- atomic.Int32 as its bit pattern, a number below 2 ^ 32. `Add(1)` and `Add(-1)` wrap.
use Prim.Native.Nat.{ℕ, ◌+◌, ◌-◌, ◌*◌, ◌%◌, ◌^◌}

abbrev pub int32 : ℕ → ℕ
int32 n = n % 2 ^ 32

abbrev pub incr32 : ℕ → ℕ
incr32 n = int32 (n + 1)

abbrev pub decr32 : ℕ → ℕ
decr32 n = int32 (n + (2 ^ 32 - 1))

-- `k` times `Add(-1)`.
abbrev pub minus32 : ℕ → ℕ → ℕ
minus32 n k = int32 (n + (2 ^ 32 - 1) * k)
