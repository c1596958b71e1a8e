-- ===== src/Executor/Static.antt =====
-- Flows of static tasks, and what the steps of a run never change in them.
use go_taskflow.Base.{ℕ, ◌≡◌, refl, List, [], ◌∷◌, true, false, arith, length}
use go_taskflow.Memory.{Heap, Ptr, is_condition}
use go_taskflow.Node.Counters.{strong}
use go_taskflow.Executor.Goroutine.{After, release, settle, watch, scheduling}
use go_taskflow.Executor.Shape.{SameShape}
use go_taskflow.Executor.Homes.{IsAtHome, IsMember}
use go_taskflow.Executor.Ledger.{is_plain}

-- Every node is that of a static task.
pub record IsStatic (h : Heap) : Type 0 where
  pub ptr : (a : ℕ) → (h.node a).ptr ≡ Ptr.static
  pub typ : (a : ℕ) → is_condition (h.node a).typ ≡ false

-- Where no node is a condition, every dependent counts.
pub strong-IsStatic :
    (h : Heap) (ds : List ℕ)
    → ((a : ℕ) → is_condition (h.node a).typ ≡ false)
    → strong h.node ds ≡ length ds
strong-IsStatic h [] typ = refl
strong-IsStatic h (d ∷ ds) typ = ground (arith, typ d, strong-IsStatic h ds typ)

pub scheduling-IsMember :
    (h : Heap) (g a n : ℕ) (rest : List ℕ) (k : After)
    → is_plain (scheduling rest k) ≡ true
    → IsAtHome h g a (scheduling (n ∷ rest) k)
    → IsMember h g n
scheduling-IsMember h g a n rest release plain home = home.1.0
scheduling-IsMember h g a n rest settle plain home = absurd cc
scheduling-IsMember h g a n rest (watch k pg) plain home = home.1.0

module _ (h k : Heap) (same : SameShape h k) (st : IsStatic h) where
  pub succ_eq : (a : ℕ) → (k.node a).successors ≡ (h.node a).successors
  succ_eq a = ground (arith, same.node a)

  pub ptr_eq : (a : ℕ) → (k.node a).ptr ≡ Ptr.static
  ptr_eq a = ground (arith, same.node a, st.ptr a)

  pub own : (g n : ℕ) → (h.node n).g ≡ g → (k.node n).g ≡ g
  own g n e = ground (arith, same.node n)

  pub typ_eq : (a : ℕ) → is_condition (k.node a).typ ≡ false
  typ_eq a = ground (arith, same.node a, st.typ a)
