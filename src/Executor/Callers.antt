-- ===== src/Executor/Callers.antt =====
-- What a step does to the number of callers and to who holds `e.mu`.
use mathlib.Core.Path.{subst}
use go_taskflow.Base.{
  ℕ, ◌+◌, ◌≤◌, ◌≡◌, ◌≢◌, refl, List, [], ◌∷◌, false, Bool-cases, inl, inr, if◌then◌else◌, arith,
  Option, none, some, All, total,
}
use go_taskflow.Memory.{Heap, Ptr}
use go_taskflow.Queue.{Queue, contents-pop}
use go_taskflow.Sort.{Sort}
use go_taskflow.Executor.Goroutine.{
  Pc, checking, handling, choosing, closing, scheduling, putting, looping, deciding, leaving,
  dropping, scanning, dereffing, ending, ended, overdrawn, crashed, Thread, at, Input,
}
use go_taskflow.Executor.Act.{Core, act, Ensures, is_over, schedule_one, leave, invoke_node}
use go_taskflow.Executor.Handlers.{
  handle, choose, after_close, after_drop, after_deref, resume, nil_panic,
}
use go_taskflow.Executor.Flat.{IsFlat}
use go_taskflow.Executor.Homes.{IsMember, IsAtHome}
use go_taskflow.Executor.Within.{decides, calls}

module _ (𝓠 : Queue ℕ) (𝓢 : Sort) where
  -- `Pop` of a queue that has a node.
  pub pops_one :
      (q : 𝓠.Carrier) → 𝓠.contents q ≢ [] → (n : ℕ) × (r : 𝓠.Carrier) × (𝓠.pop q ≡ some (n, r))
  pops_one q full = go (𝓠.contents q) refl
    where
      go : (l : List ℕ) → 𝓠.contents q ≡ l → (n : ℕ) × (r : 𝓠.Carrier) × (𝓠.pop q ≡ some (n, r))
      go [] e = absurd (full e)
      go (n ∷ l) e = let (r, pops, rest) = 𝓠.pop-cons q n l e in (n, r, pops)

  pub handle-decides :
      (t : Thread) (h : Heap) (a : ℕ) (p : Ptr) (i : Input) → decides (at t (handle h a p i).1) ≡ 0
  unfolding handle
  handle-decides t h a Ptr.static i = ground arith
  handle-decides t h a (Ptr.condition m) i = ground arith
  handle-decides t h a (Ptr.subflow k) i = ground arith

  pub choose-decides :
      (t : Thread) (h : Heap) (a : ℕ) (p : Ptr) (choice : ℕ)
      → decides (at t (choose h a p choice).1) ≡ 0
  unfolding choose
  choose-decides t h a p choice = ground arith

  pub after_close-decides :
      (t : Thread) (h : Heap) (a : ℕ) (p : Ptr) → decides (at t (after_close h a p)) ≡ 0
  unfolding after_close
  after_close-decides t h a p = ground arith

  pub after_drop-decides :
      (t : Thread) (h : Heap) (a : ℕ) (p : Ptr) → decides (at t (after_drop h a p)) ≡ 0
  unfolding after_drop
  after_drop-decides t h a p = ground arith

  pub after_deref-decides : (t : Thread) (p : Ptr) → decides (at t (after_deref p)) ≡ 0
  unfolding after_deref
  after_deref-decides t p = ground arith

  pub invoke_node-decides :
      (i : Input) (c : Core 𝓠 𝓢) (t : Thread) (k pg : ℕ)
      → 1 ≤ (if c.mu then 1 else 0)
      → (is_over 𝓠 𝓢 c.heap k ≡ false → 𝓠.contents c.wq ≢ [])
      → Ensures 𝓠 𝓢
          (λ d new. total decides new + (if c.mu then 1 else 0) ≡ 1 + (if d.mu then 1 else 0))
          (act 𝓠 𝓢 i c t (deciding k pg))
  unfolding act invoke_node
  invoke_node-decides i c t k pg b full = elim (Bool-cases (is_over 𝓠 𝓢 c.heap k)) [
    | inl e ↦ rw e (ground arith)
    | inr e ↦ let (n, q, pops) = pops_one c.wq (full e) in rw (e, pops, invoke_node) (ground arith)
  ]

  pub invoke_node-calls :
      (h : Heap) (g : ℕ) (i : Input) (c : Core 𝓠 𝓢) (t : Thread) (k pg : ℕ)
      → All (IsMember h g) (𝓠.contents c.wq)
      → Ensures 𝓠 𝓢 (λ d new. total calls new ≡ calls t) (act 𝓠 𝓢 i c t (deciding k pg))
  unfolding act invoke_node
  invoke_node-calls h g i c t k pg q = go (𝓠.pop c.wq) refl
    where
      go :
          (o : Option (ℕ × 𝓠.Carrier))
          → 𝓠.pop c.wq ≡ o
          → Ensures 𝓠 𝓢 (λ d new. total calls new ≡ calls t) (act 𝓠 𝓢 i c t (deciding k pg))
      go none e = ground arith
      go (some (n, r)) e =
          let first : IsMember h g n =
            (subst (All (IsMember h g)) (contents-pop 𝓠 c.wq n r e) q).0 in
          ground arith

  -- A step leaves the number of those who stand in `scheduleGraph`.
  pub act-calls :
      (h : Heap) (g : ℕ) (i : Input) (c : Core 𝓠 𝓢) (t : Thread) (pc : Pc)
      → IsAtHome h g t.node pc
      → All (IsMember h g) (𝓠.contents c.wq)
      → Ensures 𝓠 𝓢 (λ d new. total calls new ≡ calls t) (act 𝓠 𝓢 i c t pc)
  unfolding act schedule_one leave
  act-calls h g i c t (deciding k pg) m q = invoke_node-calls h g i c t k pg q
  act-calls h g i c t ending m q = ground arith
  act-calls h g i c t (scheduling [] k) m q = omega arith
  act-calls h g i c t (scheduling (n ∷ rest) k) m q = ground arith
  act-calls h g i c t (putting n rest k) m q = ground arith
  act-calls h g i c t (looping k pg) m q = ground arith
  act-calls h g i c t (dropping []) m q = omega arith
  act-calls h g i c t (dropping (s ∷ rest)) m q = omega arith
  act-calls h g i c t (scanning [] cand) m q = omega arith
  act-calls h g i c t (scanning (n ∷ rest) cand) m q = omega arith
  act-calls h g i c t overdrawn m q = tt
  act-calls h g i c t ended m q = tt
  act-calls h g i c t (crashed k) m q = tt
  act-calls h g i c t _ m q = omega arith

  -- A step takes `e.mu` or gives it up as it comes to `deciding` or leaves it.
  pub act-decides :
      (i : Input) (c : Core 𝓠 𝓢) (t : Thread) (pc : Pc)
      → IsFlat c.heap
      → decides (at t pc) ≤ (if c.mu then 1 else 0)
      → ((k pg : ℕ) → pc ≡ deciding k pg → is_over 𝓠 𝓢 c.heap k ≡ false → 𝓠.contents c.wq ≢ [])
      → Ensures 𝓠 𝓢
          (λ d new.
            total decides new + (if c.mu then 1 else 0)
            ≡ decides (at t pc) + (if d.mu then 1 else 0))
          (act 𝓠 𝓢 i c t pc)
  unfolding act schedule_one leave resume nil_panic
  act-decides i c t (deciding k pg) flat b full = invoke_node-decides i c t k pg b (full k pg refl)
  act-decides i c t handling flat b full =
      omega (arith, handle-decides t c.heap t.node (c.heap.node t.node).ptr i)
  act-decides i c t (choosing choice) flat b full =
      omega (arith, choose-decides t c.heap t.node (c.heap.node t.node).ptr choice)
  act-decides i c t (closing ok) flat b full =
      omega (arith, after_close-decides t c.heap t.node (c.heap.node t.node).ptr)
  act-decides i c t dereffing flat b full =
      omega (arith, after_deref-decides t (c.heap.node t.node).ptr)
  act-decides i c t ending flat b full = ground arith
  act-decides i c t (scheduling [] k) flat b full = ground arith
  act-decides i c t (scheduling (n ∷ rest) k) flat b full = ground arith
  act-decides i c t (putting n rest k) flat b full = ground arith
  act-decides i c t (looping k pg) flat b full = ground arith
  act-decides i c t (leaving k pg) flat b full = ground arith
  act-decides i c t (dropping []) flat b full =
      omega (arith, after_drop-decides t c.heap t.node (c.heap.node t.node).ptr)
  act-decides i c t (dropping (s ∷ rest)) flat b full = omega arith
  act-decides i c t (scanning [] cand) flat b full = omega arith
  act-decides i c t (scanning (n ∷ rest) cand) flat b full = omega arith
  act-decides i c t checking flat b full = ground arith
  act-decides i c t overdrawn flat b full = tt
  act-decides i c t ended flat b full = tt
  act-decides i c t (crashed k) flat b full = tt
  act-decides i c t _ flat b full = omega arith
