-- ===== src/Executor/Roots.antt =====
-- Where the goroutines of a flow without subflows can stand after one step.
use go_taskflow.Base.{ℕ, ◌≡◌, ◌≢◌, refl, List, [], ◌∷◌, true, false, if_both, arith, All}
use go_taskflow.Memory.{Heap, Ptr, nil}
use go_taskflow.Queue.{Queue}
use go_taskflow.Sort.{Sort}
use go_taskflow.Executor.Goroutine.{
  After, release, settle, watch, Pc, opening, handling, choosing, closing, scheduling, putting,
  looping, deciding, leaving, dropping, dereffing, Thread, at, Input,
}
use go_taskflow.Executor.Handlers.{
  choose, handle, after_close, after_drop, after_deref, resume, nil_panic,
}
use go_taskflow.Executor.Act.{
  Core, act, Ensures, schedule_one, invoke_node, leave, may_go_on, is_over,
}
use go_taskflow.Executor.Flat.{IsFlat}
use go_taskflow.Executor.Weights.{in_graph, is_setting, IsRooted, is_watch}

-- Rooted, and not about to set a graph up.
abbrev pub IsPlaced : Thread → Type 0
IsPlaced t = IsRooted t × (is_setting t.pc ≡ false)

module _ (𝓠 : Queue ℕ) (𝓢 : Sort) where
  abbrev Places : Core 𝓠 𝓢 → List Thread → Type 0
  Places c new = All IsPlaced new

  handle-IsPlaced :
      (t : Thread) (h : Heap) (a : ℕ) (p : Ptr) (i : Input)
      → ((k : ℕ) → p ≢ Ptr.subflow k)
      → IsPlaced (at t (handle h a p i).1)
  unfolding handle
  handle-IsPlaced t h a Ptr.static i flat = ground arith
  handle-IsPlaced t h a (Ptr.condition m) i flat = ground arith
  handle-IsPlaced t h a (Ptr.subflow k) i flat = absurd (flat k refl)

  after_close-IsPlaced :
      (t : Thread) (h : Heap) (a : ℕ) (p : Ptr)
      → ((k : ℕ) → p ≢ Ptr.subflow k)
      → IsPlaced (at t (after_close h a p))
  unfolding after_close
  after_close-IsPlaced t h a Ptr.static flat = ground arith
  after_close-IsPlaced t h a (Ptr.condition m) flat = ground arith
  after_close-IsPlaced t h a (Ptr.subflow k) flat = absurd (flat k refl)

  choose-IsPlaced :
      (t : Thread) (h : Heap) (a : ℕ) (p : Ptr) (choice : ℕ)
      → IsPlaced (at t (choose h a p choice).1)
  unfolding choose
  choose-IsPlaced t h a p choice = ground arith

  resume-IsPlaced :
      (t : Thread) (k : After) → (is_watch k ≡ true → t.node ≡ nil) → IsPlaced (at t (resume k))
  unfolding resume
  resume-IsPlaced t release root = (λ e. cc, refl)
  resume-IsPlaced t settle root = (λ e. cc, refl)
  resume-IsPlaced t (watch g pg) root = (root, refl)

  schedule_one-IsPlaced :
      (c : Core 𝓠 𝓢) (t : Thread) (n : ℕ) (rest : List ℕ) (k : After)
      → (is_watch k ≡ true → t.node ≡ nil)
      → IsPlaced (schedule_one 𝓠 𝓢 c t n rest k).1
  unfolding schedule_one nil_panic resume
  schedule_one-IsPlaced c t n rest release root = ground arith
  schedule_one-IsPlaced c t n rest settle root = ground arith
  schedule_one-IsPlaced c t n rest (watch g pg) root = ground (arith, root refl)

  invoke_node-IsPlaced :
      (c : Core 𝓠 𝓢) (t : Thread) (g pg : ℕ)
      → t.node ≡ nil
      → All IsPlaced (invoke_node 𝓠 𝓢 c t g pg).1
  unfolding invoke_node
  invoke_node-IsPlaced c t g pg root = ground arith

  after_drop-IsPlaced :
      (t : Thread) (h : Heap) (a : ℕ) (p : Ptr) → IsPlaced (at t (after_drop h a p))
  unfolding after_drop
  after_drop-IsPlaced t h a p = ground arith

  after_deref-IsPlaced : (t : Thread) (p : Ptr) → IsPlaced (at t (after_deref p))
  unfolding after_deref
  after_deref-IsPlaced t p = ground arith

  leave-IsPlaced :
      (c : Core 𝓠 𝓢) (t : Thread) (g pg : ℕ) → t.node ≡ nil → IsPlaced (leave 𝓠 𝓢 c t g pg).1
  unfolding leave
  leave-IsPlaced c t g pg root = ground arith

  -- After a step every goroutine in the place of the old one is rooted and sets no graph up.
  pub act-IsPlaced :
      (i : Input) (c : Core 𝓠 𝓢) (t : Thread) (pc : Pc)
      → IsFlat c.heap
      → (in_graph pc ≡ true → t.node ≡ nil)
      → Ensures 𝓠 𝓢 Places (act 𝓠 𝓢 i c t pc)
  unfolding act
  act-IsPlaced i c t opening flat root = ground arith
  act-IsPlaced i c t handling flat root =
      (handle-IsPlaced t c.heap t.node (c.heap.node t.node).ptr i (flat t.node), tt)
  act-IsPlaced i c t (closing ok) flat root =
      (after_close-IsPlaced t c.heap t.node (c.heap.node t.node).ptr (flat t.node), tt)
  act-IsPlaced i c t (choosing choice) flat root =
      (choose-IsPlaced t c.heap t.node (c.heap.node t.node).ptr choice, tt)
  act-IsPlaced i c t (scheduling [] k) flat root = (resume-IsPlaced t k root, tt)
  act-IsPlaced i c t (scheduling (n ∷ rest) k) flat root =
      (schedule_one-IsPlaced c t n rest k root, tt)
  act-IsPlaced i c t (putting n rest k) flat root =
      if_both (Ensures 𝓠 𝓢 Places) c.mu tt ((root, refl), tt)
  act-IsPlaced i c t (looping h pg) flat root =
      if_both (Ensures 𝓠 𝓢 Places) c.mu tt
        (if_both (Ensures 𝓠 𝓢 Places) (may_go_on 𝓠 𝓢 c h) ((root, refl), tt) tt)
  act-IsPlaced i c t (deciding h pg) flat root =
      if_both (Ensures 𝓠 𝓢 Places) (is_over 𝓠 𝓢 c.heap h) ((root, refl), tt)
        (invoke_node-IsPlaced c t h pg (root refl))
  act-IsPlaced i c t (leaving h pg) flat root = (leave-IsPlaced c t h pg (root refl), tt)
  act-IsPlaced i c t (dropping []) flat root =
      (after_drop-IsPlaced t c.heap t.node (c.heap.node t.node).ptr, tt)
  act-IsPlaced i c t dereffing flat root = (after_deref-IsPlaced t (c.heap.node t.node).ptr, tt)
  act-IsPlaced i c t _ flat root = ground arith
