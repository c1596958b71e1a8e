-- ===== src/Executor/Steady.antt =====
-- What a step of a goroutine leaves as it is while another one holds `e.mu`.
use go_taskflow.Base.{ℕ, ◌≡◌, refl, List, [], ◌∷◌, true, false, if_both, ◌==◌, arith}
use go_taskflow.Memory.{Heap, Ptr}
use go_taskflow.Node
use go_taskflow.Graph
use go_taskflow.Queue.{Queue}
use go_taskflow.Sort.{Sort}
use go_taskflow.Executor.Goroutine.{
  After, Pc, opening, checking, marking, handling, finishing, choosing, recovering, closing,
  setting_up, scheduling, putting, looping, deciding, leaving, dropping, scanning, resetting,
  dereffing, restoring, ending, ended, overdrawn, crashed, Thread, Input,
}
use go_taskflow.Executor.Handlers.{scan_one, choose, recover}
use go_taskflow.Executor.Act.{
  Core, act, Ensures, schedule_one, invoke_node, leave, may_go_on, is_over,
}
use go_taskflow.Executor.Flat.{IsFlat, handle_flat}
use go_taskflow.Executor.Weights.{in_graph, held, is_setting}
use go_taskflow.Executor.Accounting.{setup-graph}

-- A graph that was canceled stays so.
abbrev pub StaysCanceled : ℕ → Heap → Heap → Type 0
StaysCanceled g h k = (h.graph g).canceled ≡ true → (k.graph g).canceled ≡ true

module _ (𝓠 : Queue ℕ) (𝓢 : Sort) (g : ℕ) where
  abbrev Stays : Core 𝓠 𝓢 → Core 𝓠 𝓢 → List Thread → Type 0
  Stays c d new = StaysCanceled g c.heap d.heap

  choose-StaysCanceled : (h : Heap) (a : ℕ) (p : Ptr) (c : ℕ) → StaysCanceled g h (choose h a p c).0
  unfolding choose
  choose-StaysCanceled h a p c = ground arith

  recover-StaysCanceled : (h : Heap) (a : ℕ) (p : Ptr) → StaysCanceled g h (recover h a p)
  unfolding recover
  recover-StaysCanceled h a p = ground arith

  scan_one-StaysCanceled :
      (h : Heap) (n : ℕ) (cand : List ℕ) → StaysCanceled g h (scan_one h n cand).1
  unfolding scan_one
  scan_one-StaysCanceled h n cand = ground arith

  schedule_one-StaysCanceled :
      (c : Core 𝓠 𝓢) (t : Thread) (n : ℕ) (rest : List ℕ) (k : After)
      → StaysCanceled g c.heap (schedule_one 𝓠 𝓢 c t n rest k).0.heap
  unfolding schedule_one Graph.ref
  schedule_one-StaysCanceled c t n rest k = ground arith

  -- The step of a goroutine of a node.
  pub act-StaysCanceled :
      (i : Input) (c : Core 𝓠 𝓢) (t : Thread) (pc : Pc)
      → IsFlat c.heap
      → in_graph pc ≡ false
      → Ensures 𝓠 𝓢 (Stays c) (act 𝓠 𝓢 i c t pc)
  unfolding act Node.deref Graph.deref
  act-StaysCanceled i c t opening flat out = λ e. e
  act-StaysCanceled i c t checking flat out = λ e. e
  act-StaysCanceled i c t marking flat out = λ e. e
  act-StaysCanceled i c t handling flat out =
      rw (handle_flat c.heap t.node (c.heap.node t.node).ptr i (flat t.node)) (λ e. e)
  act-StaysCanceled i c t finishing flat out = λ e. e
  act-StaysCanceled i c t (choosing choice) flat out =
      choose-StaysCanceled c.heap t.node (c.heap.node t.node).ptr choice
  act-StaysCanceled i c t recovering flat out =
      recover-StaysCanceled c.heap t.node (c.heap.node t.node).ptr
  act-StaysCanceled i c t (closing ok) flat out = λ e. e
  act-StaysCanceled i c t (setting_up k pg) flat out = absurd cc
  act-StaysCanceled i c t (scheduling [] k) flat out = λ e. e
  act-StaysCanceled i c t (scheduling (n ∷ rest) k) flat out =
      schedule_one-StaysCanceled c t n rest k
  act-StaysCanceled i c t (putting n rest k) flat out =
      if_both (Ensures 𝓠 𝓢 (Stays c)) c.mu tt (λ e. e)
  act-StaysCanceled i c t (looping k pg) flat out = absurd cc
  act-StaysCanceled i c t (deciding k pg) flat out = absurd cc
  act-StaysCanceled i c t (leaving k pg) flat out = absurd cc
  act-StaysCanceled i c t (dropping []) flat out = λ e. e
  act-StaysCanceled i c t (dropping (s ∷ rest)) flat out = ground arith
  act-StaysCanceled i c t (scanning [] cand) flat out = λ e. e
  act-StaysCanceled i c t (scanning (n ∷ rest) cand) flat out = scan_one-StaysCanceled c.heap n cand
  act-StaysCanceled i c t (resetting cand) flat out = rw (setup-graph c.heap t.node) (λ e. e)
  act-StaysCanceled i c t dereffing flat out = ground arith
  act-StaysCanceled i c t restoring flat out = rw (setup-graph c.heap t.node) (λ e. e)
  act-StaysCanceled i c t ending flat out =
      if_both (Ensures 𝓠 𝓢 (Stays c)) (c.wg == 0) (λ e. e) (λ e. e)
  act-StaysCanceled i c t overdrawn flat out = tt
  act-StaysCanceled i c t ended flat out = tt
  act-StaysCanceled i c t (crashed k) flat out = tt

  invoke_node-StaysCanceled :
      (c : Core 𝓠 𝓢) (t : Thread) (k pg : ℕ)
      → let (d, new) = invoke_node 𝓠 𝓢 c t k pg in Stays c d new
  unfolding invoke_node
  invoke_node-StaysCanceled c t k pg = ground arith

  -- The step of the caller behind the setup.
  pub caller-StaysCanceled :
      (i : Input) (c : Core 𝓠 𝓢) (t : Thread) (pc : Pc)
      → in_graph pc ≡ true
      → is_setting pc ≡ false
      → Ensures 𝓠 𝓢 (Stays c) (act 𝓠 𝓢 i c t pc)
  unfolding act leave
  caller-StaysCanceled i c t (setting_up k pg) inside calm = absurd cc
  caller-StaysCanceled i c t (scheduling [] k) inside calm = λ e. e
  caller-StaysCanceled i c t (scheduling (n ∷ rest) k) inside calm =
      schedule_one-StaysCanceled c t n rest k
  caller-StaysCanceled i c t (putting n rest k) inside calm =
      if_both (Ensures 𝓠 𝓢 (Stays c)) c.mu tt (λ e. e)
  caller-StaysCanceled i c t (looping k pg) inside calm =
      if_both (Ensures 𝓠 𝓢 (Stays c)) c.mu tt
        (if_both (Ensures 𝓠 𝓢 (Stays c)) (may_go_on 𝓠 𝓢 c k) (λ e. e) tt)
  caller-StaysCanceled i c t (deciding k pg) inside calm =
      if_both (Ensures 𝓠 𝓢 (Stays c)) (is_over 𝓠 𝓢 c.heap k) (λ e. e)
        (invoke_node-StaysCanceled c t k pg)
  caller-StaysCanceled i c t (leaving k pg) inside calm = ground arith
  caller-StaysCanceled i c t (crashed k) inside calm = tt
  caller-StaysCanceled i c t ended inside calm = tt
  caller-StaysCanceled i c t _ inside calm = absurd cc

  abbrev SameQueue : Core 𝓠 𝓢 → Core 𝓠 𝓢 → List Thread → Type 0
  SameQueue c d new = c.mu ≡ true → (d.wq ≡ c.wq) × (d.mu ≡ true)

  -- While `e.mu` is held, a goroutine that does not hold it leaves the queue alone.
  pub act-SameQueue :
      (i : Input) (c : Core 𝓠 𝓢) (t : Thread) (pc : Pc)
      → in_graph pc ≡ false
      → Ensures 𝓠 𝓢 (SameQueue c) (act 𝓠 𝓢 i c t pc)
  unfolding act schedule_one
  act-SameQueue i c t (scheduling [] k) out = λ e. (refl, e)
  act-SameQueue i c t (scheduling (n ∷ rest) k) out = ground arith
  act-SameQueue i c t (putting n rest k) out = ground arith
  act-SameQueue i c t (looping k pg) out = absurd cc
  act-SameQueue i c t (deciding k pg) out = absurd cc
  act-SameQueue i c t (leaving k pg) out = absurd cc
  act-SameQueue i c t ending out = ground arith
  act-SameQueue i c t (dropping []) out = λ e. (refl, e)
  act-SameQueue i c t (dropping (s ∷ rest)) out = λ e. (refl, e)
  act-SameQueue i c t (scanning [] cand) out = λ e. (refl, e)
  act-SameQueue i c t (scanning (n ∷ rest) cand) out = λ e. (refl, e)
  act-SameQueue i c t ended out = tt
  act-SameQueue i c t overdrawn out = tt
  act-SameQueue i c t (crashed k) out = tt
  act-SameQueue i c t _ out = λ e. (refl, e)

  abbrev SameCounter : Core 𝓠 𝓢 → Core 𝓠 𝓢 → List Thread → Type 0
  SameCounter c d new = (d.heap.graph g).join_counter ≡ (c.heap.graph g).join_counter

  -- Behind `deref` a goroutine of a node leaves the counters of the graphs alone.
  pub act-SameCounter :
      (i : Input) (c : Core 𝓠 𝓢) (t : Thread) (pc : Pc)
      → in_graph pc ≡ false
      → held pc ≡ false
      → Ensures 𝓠 𝓢 (SameCounter c) (act 𝓠 𝓢 i c t pc)
  unfolding act
  act-SameCounter i c t restoring out free = rw (setup-graph c.heap t.node) refl
  act-SameCounter i c t ending out free = ground arith
  act-SameCounter i c t (scheduling rest k) out free = absurd (ground arith)
  act-SameCounter i c t (putting n rest k) out free = absurd (ground arith)
  act-SameCounter i c t (crashed k) out free = tt
  act-SameCounter i c t overdrawn out free = tt
  act-SameCounter i c t ended out free = tt
  act-SameCounter i c t _ out free = absurd cc
