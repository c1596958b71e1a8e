-- ===== src/Executor/Sums.antt =====
-- Sums over goroutines and nodes, between heaps of the same shape, and predicates on lists of them.
use go_taskflow.Base.{ℕ, ◌≡◌, refl, List, [], ◌∷◌, arith, total}
use go_taskflow.Memory.{Heap}
use go_taskflow.Executor.Goroutine.{Pc, Thread}
use go_taskflow.Executor.Shape.{SameShape}
use go_taskflow.Executor.Weights.{homed, refs, pending}

homed-SameShape : (h k : Heap) (g n : ℕ) → SameShape h k → homed k g n ≡ homed h g n
homed-SameShape h k g n s = ground (arith, s.node n)

pub total-homed-SameShape :
    (h k : Heap) (g : ℕ) (l : List ℕ) → SameShape h k → total (homed k g) l ≡ total (homed h g) l
total-homed-SameShape h k g [] s = refl
total-homed-SameShape h k g (n ∷ l) s =
    omega (arith, homed-SameShape h k g n s, total-homed-SameShape h k g l s)

pending-SameShape : (h k : Heap) (g : ℕ) (pc : Pc) → SameShape h k → pending k g pc ≡ pending h g pc
pending-SameShape h k g (Pc.putting n rest a) s = homed-SameShape h k g n s
pending-SameShape h k g _ s = refl

refs-SameShape : (h k : Heap) (g : ℕ) (t : Thread) → SameShape h k → refs k g t ≡ refs h g t
refs-SameShape h k g t s =
    ground (arith, homed-SameShape h k g t.node s, pending-SameShape h k g t.pc s)

pub total-refs-SameShape :
    (h k : Heap) (g : ℕ) (ts : List Thread)
    → SameShape h k
    → total (refs k g) ts ≡ total (refs h g) ts
total-refs-SameShape h k g [] s = refl
total-refs-SameShape h k g (t ∷ ts) s =
    omega (arith, refs-SameShape h k g t s, total-refs-SameShape h k g ts s)
