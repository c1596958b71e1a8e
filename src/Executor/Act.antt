-- ===== src/Executor/Act.antt =====
-- executor.go: one atomic step of one goroutine.
use go_taskflow.Base.{
  ℕ, ◌+◌, ◌-◌, List, [], ◌∷◌, Bool, true, false, not, ◌&&◌, ◌||◌, if◌then◌else◌, ◌==◌, Option, none,
  some,
}
use go_taskflow.Memory.{NodeState, Heap, put_graph, nil, is_condition}
use go_taskflow.Node
use go_taskflow.Graph
use go_taskflow.Observer.{Observer, open_span, close_span}
use go_taskflow.Queue.{Queue}
use go_taskflow.Sort.{Sort}
use go_taskflow.Executor.Goroutine.{
  After, release, watch, Pc, opening, checking, marking, handling, finishing, choosing, recovering,
  closing, setting_up, scheduling, putting, looping, deciding, leaving, dropping, scanning,
  resetting, dereffing, restoring, ending, ended, overdrawn, crashed, Thread, at, Input,
}
use go_taskflow.Executor.Handlers.{
  scan_one, set_state, cancel, is_canceled, choose, handle, recover, after_close, after_drop,
  after_deref, resume, nil_panic,
}

module _ (𝓠 : Queue ℕ) (𝓢 : Sort) where
  -- What the goroutines share: the heap, the queue `wq`, the counter of `wg`, the observer, and
  -- whether `mu` is held by a goroutine that stands at `deciding`.
  pub record Core : Type 0 where
    pub heap : Heap
    pub wq : 𝓠.Carrier
    pub wg : ℕ
    pub obs : Observer
    pub mu : Bool

  abbrev by_priority : Heap → List ℕ → List ℕ
  by_priority h l = 𝓢.sort (λ a. (h.node a).priority) l

  -- `g.setup()` and the sort of the entries.
  unfoldable pub launch : Heap → ℕ → Heap
  launch h g =
      let h' = Graph.setup h g in
      put_graph h' g (record (h'.graph g) { entries = by_priority h' (h'.graph g).entries })

  -- One turn of the loop of `schedule`: the test of `canceled`, `wg.Add(1)` and `ref`. The lock
  -- `scheCond.L` is held from `ref` to the end of `putting`; `deref` and `looping` wait for it, and
  -- no step of theirs in between would see another counter.
  unfoldable pub schedule_one : Core → Thread → ℕ → List ℕ → After → Core × Thread
  unfolding nil_panic resume
  schedule_one c t n rest k =
      if n == nil
      then (c, at t (nil_panic k))
      else if is_canceled c.heap n
      then (c, at t (resume k))
      else (
        record c { heap = Graph.ref c.heap (c.heap.node n).g; wg = c.wg + 1 },
        at t (putting n rest k),
      )

  -- The tests of `invokeGraph`: whether the inner loop ends, and whether the outer one does.
  abbrev pub is_over : Heap → ℕ → Bool
  is_over h g = Graph.recyclable (h.graph g) || (h.graph g).canceled

  unfoldable pub may_go_on : Core → ℕ → Bool
  may_go_on c g = is_over c.heap g || not (𝓠.len c.wq == 0)

  -- `wq.Pop()` and `invokeNode`: the goroutine of the node is handed to the pool.
  unfoldable pub invoke_node : Core → Thread → ℕ → ℕ → Core × List Thread
  invoke_node c t g pg = elim (𝓠.pop c.wq) [
    | none ↦ (c, at t (crashed (watch g pg)) ∷ [])
    | some (n, q) ↦ (
      record c { wq = q; mu = false },
      at t (looping g pg) ∷ record { node = n; parent = t.span; span = nil; pc = opening } ∷ [],
    )
  ]

  -- `scheduleGraph` behind `invokeGraph`: the parent graph is canceled with the graph.
  unfoldable pub leave : Core → Thread → ℕ → ℕ → Core × Thread
  leave c t g pg =
      let c' : Core =
        if (c.heap.graph g).canceled && not (pg == nil)
        then record c { heap = cancel c.heap pg }
        else c in
      (c', at t (if t.node == nil then ended else dropping (c.heap.node t.node).successors))

  abbrev one : Core × Thread → Option (Core × List Thread)
  one (c, t) = some (c, t ∷ [])

  -- One step of a goroutine: what is shared afterwards, and the goroutines that take its place. A
  -- step that waits for `mu`, for a signal or for ever is `none`.
  unfoldable pub act : Input → Core → Thread → Pc → Option (Core × List Thread)
  unfolding launch schedule_one may_go_on invoke_node leave choose handle recover after_close
      after_drop after_deref resume scan_one
  act i c t opening =
      let (s, o) = open_span c.obs c.heap t.node t.parent i.now in
      one (record c { obs = o }, record t { span = s; pc = checking })
  act i c t checking = one (c, at t (if is_canceled c.heap t.node then closing true else marking))
  act i c t marking =
      one (record c { heap = set_state c.heap t.node NodeState.running }, at t handling)
  act i c t handling =
      let (h, pc) = handle c.heap t.node (c.heap.node t.node).ptr i in
      one (record c { heap = h }, at t pc)
  act i c t finishing =
      one (record c { heap = set_state c.heap t.node NodeState.finished }, at t (closing true))
  act i c t (choosing choice) =
      let (h, pc) = choose c.heap t.node (c.heap.node t.node).ptr choice in
      one (record c { heap = h }, at t pc)
  act i c t recovering =
      one (record c { heap = recover c.heap t.node (c.heap.node t.node).ptr }, at t (closing false))
  act i c t (closing ok) = one (
    record c { obs = close_span c.obs t.span ok i.now },
    at t (after_close c.heap t.node (c.heap.node t.node).ptr),
  )
  act i c t (setting_up g pg) =
      let h = launch c.heap g in
      one (record c { heap = h }, at t (scheduling (h.graph g).entries (watch g pg)))
  act i c t (scheduling [] k) = one (c, at t (resume k))
  act i c t (scheduling (n ∷ rest) k) = one (schedule_one c t n rest k)
  act i c t (putting n rest k) =
      if c.mu then none else one (record c { wq = 𝓠.put n c.wq }, at t (scheduling rest k))
  act i c t (looping g pg) =
      if c.mu
      then none
      else if may_go_on c g
      then one (record c { mu = true }, at t (deciding g pg))
      else none
  act i c t (deciding g pg) =
      if is_over c.heap g
      then one (record c { mu = false }, at t (leaving g pg))
      else some (invoke_node c t g pg)
  act i c t (leaving g pg) = one (leave c t g pg)
  act i c t (dropping []) = one (c, at t (after_drop c.heap t.node (c.heap.node t.node).ptr))
  act i c t (dropping (s ∷ rest)) = one (
    record c {
      heap = if is_condition (c.heap.node t.node).typ then c.heap else Node.deref c.heap s;
    },
    at t (dropping rest),
  )
  act i c t (scanning [] cand) = one (c, at t (resetting cand))
  act i c t (scanning (n ∷ rest) cand) =
      let (cand', h) = scan_one c.heap n cand in
      one (record c { heap = h }, at t (scanning rest cand'))
  act i c t (resetting cand) = one (
    record c { heap = Node.setup c.heap t.node },
    at t (scheduling (by_priority c.heap cand) release),
  )
  act i c t dereffing = one (
    record c { heap = Graph.deref c.heap (c.heap.node t.node).g },
    at t (after_deref (c.heap.node t.node).ptr),
  )
  act i c t restoring = one (record c { heap = Node.setup c.heap t.node }, at t ending)
  act i c t ending =
      if c.wg == 0 then one (c, at t overdrawn) else some (record c { wg = c.wg - 1 }, [])
  act i c t ended = none
  act i c t overdrawn = none
  act i c t (crashed k) = none

  -- A property of the result of a step, where the step is taken.
  abbrev pub Ensures : (Core → List Thread → Type 0) → Option (Core × List Thread) → Type 0
  Ensures P none = Unit
  Ensures P (some (c, new)) = P c new
