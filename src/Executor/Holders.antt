-- ===== src/Executor/Holders.antt =====
-- Goroutines of nodes whose `deref` is still to come: a step keeps one, or sends a signal.
use go_taskflow.Base.{
  ℕ, ◌≤◌, ◌≡◌, ◌≢◌, refl, List, [], ◌∷◌, true, false, not, ◌&&◌, Bool, if◌then◌else◌, ◌==◌, arith,
  total,
}
use go_taskflow.Memory.{Heap, Ptr, nil}
use go_taskflow.Queue.{Queue}
use go_taskflow.Sort.{Sort}
use go_taskflow.Executor.Goroutine.{
  Pc, checking, handling, choosing, closing, setting_up, scheduling, putting, looping, deciding,
  leaving, dropping, scanning, dereffing, restoring, ending, ended, overdrawn, crashed, Thread, at,
  Input,
}
use go_taskflow.Executor.Handlers.{
  handle, choose, is_canceled, after_close, after_drop, resume, nil_panic,
}
use go_taskflow.Executor.Act.{Core, act, Ensures, schedule_one, may_go_on}
use go_taskflow.Executor.Accounting.{setup-graph}
use go_taskflow.Executor.Flat.{IsFlat}
use go_taskflow.Executor.Weights.{in_graph, held}

abbrev pub holds_graph : Thread → ℕ
holds_graph t = if held t.pc then 1 else 0

module _ (𝓠 : Queue ℕ) (𝓢 : Sort) (g : ℕ) where
  -- Whether a step sends a signal to `scheCond` of graph `g`: in `deref`, in `schedule` behind `Put`
  -- and where it finds the graph canceled, and at the end of `scheduleGraph`.
  unfoldable pub signals : Core 𝓠 𝓢 → Thread → Pc → Bool
  signals c t dereffing = (c.heap.node t.node).g == g
  signals c t (putting n rest k) = (c.heap.node n).g == g
  signals c t (scheduling (n ∷ rest) k) =
      not (n == nil) && is_canceled c.heap n && (c.heap.node n).g == g
  signals c t (leaving k pg) = k == g
  signals c t _ = false

  abbrev Keeps : Core 𝓠 𝓢 → List Thread → Type 0
  Keeps d new = 1 ≤ total holds_graph new

  handle-holds :
      (t : Thread) (h : Heap) (a : ℕ) (p : Ptr) (i : Input)
      → 1 ≤ holds_graph (at t (handle h a p i).1)
  unfolding handle
  handle-holds t h a Ptr.static i = ground arith
  handle-holds t h a (Ptr.condition m) i = ground arith
  handle-holds t h a (Ptr.subflow k) i = ground arith

  choose-holds :
      (t : Thread) (h : Heap) (a : ℕ) (p : Ptr) (choice : ℕ)
      → 1 ≤ holds_graph (at t (choose h a p choice).1)
  unfolding choose
  choose-holds t h a p choice = ground arith

  after_close-holds :
      (t : Thread) (h : Heap) (a : ℕ) (p : Ptr)
      → ((k : ℕ) → p ≢ Ptr.subflow k)
      → 1 ≤ holds_graph (at t (after_close h a p))
  unfolding after_close
  after_close-holds t h a Ptr.static plain = omega arith
  after_close-holds t h a (Ptr.condition m) plain = omega arith
  after_close-holds t h a (Ptr.subflow k) plain = absurd (plain k refl)

  -- A goroutine of a node that holds its graph still does, unless it sends a signal.
  pub act-Keeps :
      (i : Input) (c : Core 𝓠 𝓢) (t : Thread) (pc : Pc)
      → IsFlat c.heap
      → (c.heap.node t.node).g ≡ g
      → in_graph pc ≡ false
      → held pc ≡ true
      → signals c t pc ≡ false
      → Ensures 𝓠 𝓢 Keeps (act 𝓠 𝓢 i c t pc)
  unfolding act signals schedule_one after_drop resume nil_panic
  act-Keeps i c t checking flat home out holds quiet = ground arith
  act-Keeps i c t handling flat home out holds quiet =
      let kept = handle-holds t c.heap t.node (c.heap.node t.node).ptr i in omega arith
  act-Keeps i c t (choosing choice) flat home out holds quiet =
      let kept = choose-holds t c.heap t.node (c.heap.node t.node).ptr choice in omega arith
  act-Keeps i c t (closing ok) flat home out holds quiet =
      let kept = after_close-holds t c.heap t.node (c.heap.node t.node).ptr (flat t.node) in
      omega arith
  act-Keeps i c t (setting_up k pg) flat home out holds quiet = absurd cc
  act-Keeps i c t (scheduling [] k) flat home out holds quiet = ground arith
  act-Keeps i c t (scheduling (n ∷ rest) k) flat home out holds quiet = ground arith
  act-Keeps i c t (putting n rest k) flat home out holds quiet = ground arith
  act-Keeps i c t (looping k pg) flat home out holds quiet = absurd cc
  act-Keeps i c t (deciding k pg) flat home out holds quiet = absurd cc
  act-Keeps i c t (leaving k pg) flat home out holds quiet = absurd cc
  act-Keeps i c t (dropping []) flat home out holds quiet = ground arith
  act-Keeps i c t (dropping (s ∷ rest)) flat home out holds quiet = omega arith
  act-Keeps i c t (scanning [] cand) flat home out holds quiet = omega arith
  act-Keeps i c t (scanning (n ∷ rest) cand) flat home out holds quiet = omega arith
  act-Keeps i c t dereffing flat home out holds quiet = absurd (ground arith)
  act-Keeps i c t restoring flat home out holds quiet = absurd cc
  act-Keeps i c t ending flat home out holds quiet = absurd cc
  act-Keeps i c t ended flat home out holds quiet = tt
  act-Keeps i c t overdrawn flat home out holds quiet = tt
  act-Keeps i c t (crashed k) flat home out holds quiet = tt
  act-Keeps i c t _ flat home out holds quiet = omega arith

  -- Behind `deref`, a goroutine of a node changes nothing that the loop of `invokeGraph` tests.
  pub act-SameTest :
      (i : Input) (c : Core 𝓠 𝓢) (t : Thread) (pc : Pc)
      → in_graph pc ≡ false
      → held pc ≡ false
      → Ensures 𝓠 𝓢 (λ d new. may_go_on 𝓠 𝓢 d g ≡ may_go_on 𝓠 𝓢 c g) (act 𝓠 𝓢 i c t pc)
  unfolding act may_go_on
  act-SameTest i c t restoring out free = rw (setup-graph c.heap t.node) refl
  act-SameTest i c t ending out free = ground arith
  act-SameTest i c t (scheduling rest k) out free = absurd (ground arith)
  act-SameTest i c t (putting n rest k) out free = absurd (ground arith)
  act-SameTest i c t (crashed k) out free = tt
  act-SameTest i c t overdrawn out free = tt
  act-SameTest i c t ended out free = tt
  act-SameTest i c t _ out free = absurd cc
