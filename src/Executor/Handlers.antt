-- ===== src/Executor/Handlers.antt =====
-- executor.go: the parts of `invokeStatic`, `invokeSubflow`, `invokeCondition` and `sche_successors`
-- that read and write the heap alone.
use go_taskflow.Base.{ℕ, List, [], ◌∷◌, ◌++◌, Bool, true, ◌&&◌, if◌then◌else◌, ltb, length}
use go_taskflow.Memory.{NodeState, Ptr, Heap, put_node, put_graph, is_idle}
use go_taskflow.Node
use go_taskflow.Flow
use go_taskflow.Executor.Goroutine.{
  After, release, settle, watch, Pc, finishing, choosing, recovering, closing, setting_up,
  scheduling, looping, dropping, scanning, dereffing, restoring, ending, crashed, returned, chose,
  panicked, Input,
}

-- One turn of the loop of `sche_successors`, which holds the lock of node `n`.
unfoldable pub scan_one : Heap → ℕ → List ℕ → List ℕ × Heap
scan_one h n cand =
    if Node.recyclable (h.node n) && is_idle (h.node n).state
    then (cand ++ n ∷ [], put_node h n (record (h.node n) { state = NodeState.waiting }))
    else (cand, h)

abbrev pub set_state : Heap → ℕ → NodeState → Heap
set_state h a s = put_node h a (record (h.node a) { state = s })

abbrev pub cancel : Heap → ℕ → Heap
cancel h g = put_graph h g (record (h.graph g) { canceled = true })

-- `node.g.canceled.Load()`
abbrev pub is_canceled : Heap → ℕ → Bool
is_canceled h a = (h.graph (h.node a).g).canceled

-- `choice > uint(len(p.mapper))`, which panics, and the choice of the node.
unfoldable pub choose : Heap → ℕ → Ptr → ℕ → Heap × Pc
choose h a (Ptr.condition m) choice =
    if ltb (length m) choice
    then (h, recovering)
    else (set_state h a NodeState.finished, scheduling (Flow.map_get choice m ∷ []) settle)
choose h a _ choice = (h, recovering)

-- The call of the client's function. That of a subflow is called only once, and sets
-- `instantiated` unless it panics; a condition that returns makes a choice.
unfoldable pub instantiate : Heap → ℕ → Input → Heap × Pc
instantiate h k i =
    if (h.graph k).instantiated
    then (h, finishing)
    else let h' = Flow.run_calls h k i.calls in
      elim i.reply [
        | panicked ↦ (h', recovering)
        | _ ↦ (put_graph h' k (record (h'.graph k) { instantiated = true }), finishing)
      ]

unfoldable pub handle : Heap → ℕ → Ptr → Input → Heap × Pc
unfolding instantiate
handle h a Ptr.static i = elim i.reply [ panicked ↦ (h, recovering) | _ ↦ (h, finishing) ]
handle h a (Ptr.condition m) i = elim i.reply [
  | panicked ↦ (h, recovering)
  | chose c ↦ (h, choosing c)
  | returned ↦ (h, choosing 0)
]
handle h a (Ptr.subflow k) i = instantiate h k i

-- The deferred function after a panic.
unfoldable pub recover : Heap → ℕ → Ptr → Heap
recover h a (Ptr.subflow k) = cancel (cancel h (h.node a).g) k
recover h a _ = cancel h (h.node a).g

-- Where the deferred function goes on behind `closeSpan`.
unfoldable pub after_close : Heap → ℕ → Ptr → Pc
after_close h a (Ptr.subflow k) = setting_up k (h.node a).g
after_close h a _ = dropping (h.node a).successors

-- Behind `drop`: a condition schedules nothing here.
unfoldable pub after_drop : Heap → ℕ → Ptr → Pc
after_drop h a (Ptr.condition m) = dereffing
after_drop h a _ = scanning (h.node a).successors []

unfoldable pub after_deref : Ptr → Pc
after_deref (Ptr.condition m) = restoring
after_deref _ = ending

-- Where a goroutine goes on behind `schedule`.
unfoldable pub resume : After → Pc
resume release = dereffing
resume settle = closing true
resume (watch g pg) = looping g pg

-- A nil pointer in `schedule`: `invokeCondition` recovers from the panic, and nothing else does.
unfoldable pub nil_panic : After → Pc
nil_panic settle = recovering
nil_panic k = crashed k
