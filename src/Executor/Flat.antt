-- ===== src/Executor/Flat.antt =====
-- Flows without subflows: their steps keep the shape of the heap.
use go_taskflow.Base.{ℕ, ◌≡◌, ◌≢◌, refl, List, [], ◌∷◌, if_both, ◌==◌, arith}
use go_taskflow.Memory.{Ptr, Heap, is_condition}
use go_taskflow.Node
use go_taskflow.Graph
use go_taskflow.Queue.{Queue}
use go_taskflow.Sort.{Sort}
use go_taskflow.Executor.Goroutine.{
  After, Pc, opening, checking, marking, handling, finishing, choosing, recovering, closing,
  setting_up, scheduling, putting, looping, deciding, leaving, dropping, scanning, resetting,
  dereffing, restoring, ending, ended, overdrawn, crashed, Thread, Input,
}
use go_taskflow.Executor.Handlers.{scan_one, choose, handle, recover}
use go_taskflow.Executor.Act.{
  Core, act, Ensures, launch, schedule_one, invoke_node, leave, may_go_on, is_over,
}
use go_taskflow.Executor.Shape.{
  SameShape, SameShape-refl, SameShape-trans, put_node-SameShape, put_graph-SameShape,
  setup-SameShape, graph_setup-SameShape,
}

abbrev pub IsFlat : Heap → Type 0
IsFlat h = (a k : ℕ) → (h.node a).ptr ≢ Ptr.subflow k

pub handle_flat :
    (h : Heap) (a : ℕ) (p : Ptr) (i : Input)
    → ((k : ℕ) → p ≢ Ptr.subflow k)
    → (handle h a p i).0 ≡ h
unfolding handle
handle_flat h a Ptr.static i flat = ground arith
handle_flat h a (Ptr.condition m) i flat = ground arith
handle_flat h a (Ptr.subflow k) i flat = absurd (flat k refl)

choose-SameShape : (h : Heap) (a : ℕ) (p : Ptr) (c : ℕ) → SameShape h (choose h a p c).0
unfolding choose
choose-SameShape h a p c = record { node = λ b. ground arith; nodes = λ g. ground arith }

recover-SameShape : (h : Heap) (a : ℕ) (p : Ptr) → SameShape h (recover h a p)
unfolding recover
recover-SameShape h a p = record { node = λ b. ground arith; nodes = λ g. ground arith }

scan_one-SameShape : (h : Heap) (n : ℕ) (cand : List ℕ) → SameShape h (scan_one h n cand).1
unfolding scan_one
scan_one-SameShape h n cand = record { node = λ b. ground arith; nodes = λ g. ground arith }

module _ (𝓠 : Queue ℕ) (𝓢 : Sort) where
  pub launch-SameShape : (h : Heap) (g : ℕ) → SameShape h (launch 𝓠 𝓢 h g)
  unfolding launch
  launch-SameShape h g =
      SameShape-trans (graph_setup-SameShape h g) (put_graph-SameShape (Graph.setup h g) g _ refl)

  schedule_one-SameShape :
      (c : Core 𝓠 𝓢) (t : Thread) (n : ℕ) (rest : List ℕ) (k : After)
      → SameShape c.heap (schedule_one 𝓠 𝓢 c t n rest k).0.heap
  unfolding schedule_one Graph.ref
  schedule_one-SameShape c t n rest k = record {
    node = λ b. ground arith;
    nodes = λ g. ground arith;
  }

  leave-SameShape :
      (c : Core 𝓠 𝓢) (t : Thread) (g pg : ℕ) → SameShape c.heap (leave 𝓠 𝓢 c t g pg).0.heap
  unfolding leave
  leave-SameShape c t g pg = record { node = λ b. ground arith; nodes = λ k. ground arith }

  invoke_node-heap :
      (c : Core 𝓠 𝓢) (t : Thread) (g pg : ℕ) → (invoke_node 𝓠 𝓢 c t g pg).0.heap ≡ c.heap
  unfolding invoke_node
  invoke_node-heap c t g pg = ground arith

  -- In a flow without subflows every step keeps the shape of the heap.
  pub act-SameShape :
      (i : Input) (c : Core 𝓠 𝓢) (t : Thread) (pc : Pc)
      → IsFlat c.heap
      → Ensures 𝓠 𝓢 (λ c' new. SameShape c.heap c'.heap) (act 𝓠 𝓢 i c t pc)
  unfolding act Node.deref Graph.deref
  act-SameShape i c t opening flat = SameShape-refl c.heap
  act-SameShape i c t checking flat = SameShape-refl c.heap
  act-SameShape i c t marking flat = put_node-SameShape c.heap t.node _ refl
  act-SameShape i c t handling flat =
      rw (handle_flat c.heap t.node (c.heap.node t.node).ptr i (flat t.node))
        (SameShape-refl c.heap)
  act-SameShape i c t finishing flat = put_node-SameShape c.heap t.node _ refl
  act-SameShape i c t (choosing choice) flat = choose-SameShape c.heap t.node _ choice
  act-SameShape i c t recovering flat = recover-SameShape c.heap t.node (c.heap.node t.node).ptr
  act-SameShape i c t (closing ok) flat = SameShape-refl c.heap
  act-SameShape i c t (setting_up g pg) flat = launch-SameShape c.heap g
  act-SameShape i c t (scheduling [] k) flat = SameShape-refl c.heap
  act-SameShape i c t (scheduling (n ∷ rest) k) flat = schedule_one-SameShape c t n rest k
  act-SameShape i c t (putting n rest k) flat =
      if_both (Ensures 𝓠 𝓢 (λ c' new. SameShape c.heap c'.heap)) c.mu tt (SameShape-refl c.heap)
  act-SameShape i c t (looping g pg) flat =
      if_both (Ensures 𝓠 𝓢 (λ c' new. SameShape c.heap c'.heap)) c.mu tt (
        if_both (Ensures 𝓠 𝓢 (λ c' new. SameShape c.heap c'.heap)) (may_go_on 𝓠 𝓢 c g)
          (SameShape-refl c.heap) tt)
  act-SameShape i c t (deciding g pg) flat =
      if_both (Ensures 𝓠 𝓢 (λ c' new. SameShape c.heap c'.heap)) (is_over 𝓠 𝓢 c.heap g)
        (SameShape-refl c.heap) (rw (invoke_node-heap c t g pg) (SameShape-refl c.heap))
  act-SameShape i c t (leaving g pg) flat = leave-SameShape c t g pg
  act-SameShape i c t (dropping []) flat = SameShape-refl c.heap
  act-SameShape i c t (dropping (s ∷ rest)) flat =
      if_both (SameShape c.heap) (is_condition (c.heap.node t.node).typ) (SameShape-refl c.heap)
        (put_node-SameShape c.heap s _ refl)
  act-SameShape i c t (scanning [] cand) flat = SameShape-refl c.heap
  act-SameShape i c t (scanning (n ∷ rest) cand) flat = scan_one-SameShape c.heap n cand
  act-SameShape i c t (resetting cand) flat = setup-SameShape c.heap t.node
  act-SameShape i c t dereffing flat = put_graph-SameShape c.heap _ _ refl
  act-SameShape i c t restoring flat = setup-SameShape c.heap t.node
  act-SameShape i c t ending flat =
      if_both (Ensures 𝓠 𝓢 (λ d n. SameShape c.heap d.heap)) (c.wg == 0) (SameShape-refl c.heap)
        (SameShape-refl c.heap)
  act-SameShape i c t ended flat = tt
  act-SameShape i c t overdrawn flat = tt
  act-SameShape i c t (crashed k) flat = tt
