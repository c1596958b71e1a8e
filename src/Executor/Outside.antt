-- ===== src/Executor/Outside.antt =====
-- Goroutines of nodes are outside `scheduleGraph`, and what they count is bounded.
use go_taskflow.Base.{ℕ, ◌≤◌, ◌≡◌, ◌≢◌, refl, List, [], ◌∷◌, false, arith, total, length}
use go_taskflow.Memory.{Heap, nil}
use go_taskflow.Executor.Goroutine.{
  release, settle, watch, Pc, setting_up, scheduling, putting, looping, deciding, leaving, scanning,
  resetting, ended, overdrawn, crashed, Thread,
}
use go_taskflow.Executor.Weights.{refs, units, homed, in_graph}
use go_taskflow.Executor.Homes.{IsMember, IsAtHome}
use go_taskflow.Executor.Within.{has_left, decides_at}

module _ (h : Heap) (g : ℕ) where
  -- A goroutine of a node does not stand in `scheduleGraph`.
  pub IsAtHome-in_graph : (a : ℕ) (pc : Pc) → IsAtHome h g a pc → a ≢ nil → in_graph pc ≡ false
  IsAtHome-in_graph a (scheduling rest release) m real = refl
  IsAtHome-in_graph a (scheduling rest settle) m real = refl
  IsAtHome-in_graph a (scheduling rest (watch k pg)) m real = absurd (real m.0.0)
  IsAtHome-in_graph a (putting n rest release) m real = refl
  IsAtHome-in_graph a (putting n rest settle) m real = refl
  IsAtHome-in_graph a (putting n rest (watch k pg)) m real = absurd (real m.1.0)
  IsAtHome-in_graph a (setting_up k pg) m real = absurd (real m.0)
  IsAtHome-in_graph a (looping k pg) m real = absurd (real m.0)
  IsAtHome-in_graph a (deciding k pg) m real = absurd (real m.0)
  IsAtHome-in_graph a (leaving k pg) m real = absurd (real m.0)
  IsAtHome-in_graph a ended m real = absurd (real m)
  IsAtHome-in_graph a overdrawn m real = absurd m
  IsAtHome-in_graph a (crashed k) m real = absurd m
  IsAtHome-in_graph a _ m real = refl

  pub IsAtHome-IsMember : (a : ℕ) (pc : Pc) → IsAtHome h g a pc → a ≢ nil → IsMember h g a
  IsAtHome-IsMember a (scheduling rest release) m real = m.0
  IsAtHome-IsMember a (scheduling rest settle) m real = m.0
  IsAtHome-IsMember a (scheduling rest (watch k pg)) m real = absurd (real m.0.0)
  IsAtHome-IsMember a (putting n rest release) m real = m.1
  IsAtHome-IsMember a (putting n rest settle) m real = m.1
  IsAtHome-IsMember a (putting n rest (watch k pg)) m real = absurd (real m.1.0)
  IsAtHome-IsMember a (setting_up k pg) m real = absurd (real m.0)
  IsAtHome-IsMember a (looping k pg) m real = absurd (real m.0)
  IsAtHome-IsMember a (deciding k pg) m real = absurd (real m.0)
  IsAtHome-IsMember a (leaving k pg) m real = absurd (real m.0)
  IsAtHome-IsMember a ended m real = absurd (real m)
  IsAtHome-IsMember a overdrawn m real = absurd m
  IsAtHome-IsMember a (crashed k) m real = absurd m
  IsAtHome-IsMember a (scanning rest cand) m real = m.0
  IsAtHome-IsMember a (resetting cand) m real = m.0
  IsAtHome-IsMember a _ m real = m

pub out_decides : (pc : Pc) → in_graph pc ≡ false → decides_at pc ≡ 0
out_decides (deciding k pg) e = absurd cc
out_decides (scheduling rest k) e = refl
out_decides (putting n rest k) e = refl
out_decides (crashed k) e = refl
out_decides _ e = refl

pub out_left : (pc : Pc) → in_graph pc ≡ false → has_left pc ≡ false
out_left (leaving k pg) e = absurd cc
out_left ended e = absurd cc
out_left _ e = refl

pub total-homed-le-length : (h : Heap) (g : ℕ) (l : List ℕ) → total (homed h g) l ≤ length l
total-homed-le-length h g [] = omega arith
total-homed-le-length h g (n ∷ l) = ground (arith, total-homed-le-length h g l)

pub refs-le-units : (h : Heap) (g : ℕ) (t : Thread) → refs h g t ≤ units t
refs-le-units h g t = ground arith

pub total-refs-le-units :
    (h : Heap) (g : ℕ) (ts : List Thread) → total (refs h g) ts ≤ total units ts
total-refs-le-units h g [] = omega arith
total-refs-le-units h g (t ∷ ts) = omega (arith, refs-le-units h g t, total-refs-le-units h g ts)
