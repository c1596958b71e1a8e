-- ===== src/Executor/Within.antt =====
-- Runs in which the counter of `wg` stays within its 32 bits, and what every such run of one closed
-- graph keeps.
use go_taskflow.Base.{ℕ, ◌<◌, ◌^◌, ◌≡◌, ◌≢◌, [], Bool, true, false, if◌then◌else◌, ◌==◌, All, total}
use go_taskflow.Memory.{Heap, nil}
use go_taskflow.Queue.{Queue}
use go_taskflow.Sort.{Sort}
use go_taskflow.Executor.{System, Step, Reach, here, next}
use go_taskflow.Executor.Goroutine.{Pc, deciding, leaving, ended, Thread}
use go_taskflow.Executor.Act.{Core, is_over}
use go_taskflow.Executor.Shape.{SameShape}
use go_taskflow.Executor.Homes.{IsMember, IsAtHome}
use go_taskflow.Executor.Invariant.{IsAccounted}

-- Who holds `e.mu`, and who stands in `scheduleGraph`.
abbrev pub decides_at : Pc → ℕ
decides_at (deciding k pg) = 1
decides_at _ = 0

abbrev pub has_left : Pc → Bool
has_left (leaving k pg) = true
has_left ended = true
has_left _ = false

abbrev pub decides : Thread → ℕ
decides t = decides_at t.pc

abbrev pub calls : Thread → ℕ
calls t = if t.node == nil then 1 else 0

module _ (𝓠 : Queue ℕ) (𝓢 : Sort) where
  -- A run in which `wg`, which keeps its counter in 32 bits, never overflows.
  pub data Within (s : System 𝓠 𝓢) : System 𝓠 𝓢 → Type 0 where
    stay : Within s s
    go : {u v : System 𝓠 𝓢} → Within s u → u.core.wg < 2 ^ 32 → Step 𝓠 𝓢 u v → Within s v

  pub Within-Reach : {s u : System 𝓠 𝓢} → Within s u → Reach 𝓠 𝓢 s u
  Within-Reach stay = here
  Within-Reach (go w b st) = next (Within-Reach w) st

  -- Where somebody holds `e.mu`, the graph is over or the queue has a node.
  abbrev pub HasWork : Core 𝓠 𝓢 → Thread → Type 0
  HasWork c t =
      (k pg : ℕ) → t.pc ≡ deciding k pg → is_over 𝓠 𝓢 c.heap k ≡ false → 𝓠.contents c.wq ≢ []

  -- Behind its loop, `invokeGraph` has found the graph over, and it stays so.
  abbrev pub IsOver : ℕ → Heap → Thread → Type 0
  IsOver g h t = has_left t.pc ≡ true → is_over 𝓠 𝓢 h g ≡ true

  module _ (h : Heap) (g : ℕ) where
    pub record IsSound (s : System 𝓠 𝓢) : Type 0 where
      pub accounted : IsAccounted 𝓠 𝓢 s
      pub shape : SameShape h s.core.heap
      pub at_home : All (λ t. IsAtHome h g t.node t.pc) s.threads
      pub queued : All (IsMember h g) (𝓠.contents s.core.wq)
      pub one_caller : total calls s.threads ≡ 1
      pub held_once : total decides s.threads ≡ (if s.core.mu then 1 else 0)
      pub has_work : All (HasWork s.core) s.threads
      pub left_over : All (IsOver g s.core.heap) s.threads
