-- ===== src/Executor/Homes.antt =====
-- Runs of one graph whose edges stay inside it: where the goroutines are at home.
use go_taskflow.Base.{ℕ, ◌≡◌, ◌≢◌, List, All}
use go_taskflow.Memory.{Heap, Ptr, nil}
use go_taskflow.Flow
use go_taskflow.Executor.Goroutine.{
  After, settle, watch, Pc, setting_up, scheduling, putting, looping, deciding, leaving, scanning,
  resetting, ended, overdrawn, crashed,
}

-- A node of graph `g`.
abbrev pub IsMember : Heap → ℕ → ℕ → Type 0
IsMember h g n = (n ≢ nil) × ((h.node n).g ≡ g)

-- The nodes of graph `g` lead to nodes of the graph, and so do the branches of its conditions.
pub record IsClosed (h : Heap) (g : ℕ) : Type 0 where
  pub listed : All (IsMember h g) (h.graph g).nodes
  pub successors : (a : ℕ) → (h.node a).g ≡ g → All (IsMember h g) (h.node a).successors
  pub branches :
      (a : ℕ) (m : List (ℕ × ℕ)) (k : ℕ)
      → (h.node a).g ≡ g
      → (h.node a).ptr ≡ Ptr.condition m
      → Flow.map_get k m ≢ nil
      → (h.node (Flow.map_get k m)).g ≡ g

-- What a loop of `schedule` may be given: a condition may hand it nil, and recovers.
abbrev pub MayFollow : Heap → ℕ → After → ℕ → Type 0
MayFollow h g settle n = n ≢ nil → (h.node n).g ≡ g
MayFollow h g _ n = IsMember h g n

-- Who stands in the loop.
abbrev pub Owns : Heap → ℕ → After → ℕ → Type 0
Owns h g (watch k pg) a = (a ≡ nil) × (k ≡ g)
Owns h g _ a = IsMember h g a

-- Goroutine `a` stands at a point where all that it still has to visit belongs to graph `g`, and
-- has not crashed.
abbrev pub IsAtHome : Heap → ℕ → ℕ → Pc → Type 0
IsAtHome h g a (setting_up k pg) = (a ≡ nil) × (k ≡ g)
IsAtHome h g a (scheduling rest k) = Owns h g k a × All (MayFollow h g k) rest
IsAtHome h g a (putting n rest k) = IsMember h g n × Owns h g k a × All (MayFollow h g k) rest
IsAtHome h g a (looping k pg) = (a ≡ nil) × (k ≡ g)
IsAtHome h g a (deciding k pg) = (a ≡ nil) × (k ≡ g)
IsAtHome h g a (leaving k pg) = (a ≡ nil) × (k ≡ g)
IsAtHome h g a (scanning rest cand) =
    IsMember h g a × All (IsMember h g) rest × All (IsMember h g) cand
IsAtHome h g a (resetting cand) = IsMember h g a × All (IsMember h g) cand
IsAtHome h g a ended = a ≡ nil
IsAtHome h g a overdrawn = ⊥
IsAtHome h g a (crashed k) = ⊥
IsAtHome h g a _ = IsMember h g a
