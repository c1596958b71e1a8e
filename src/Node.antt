-- ===== src/Node.antt =====
-- node.go: the operations of `innerNode`.
pub mod Counters
use Prim.Native.String
use text.Mathlib.Text.{◌==◌ as str_eq}
use go_taskflow.Base.{
  ℕ, ◌+◌, String, List, [], ◌∷◌, ◌++◌, Bool, true, false, if◌then◌else◌, ◌==◌, incr32, decr32,
}
use go_taskflow.Memory.{Node, NodeState, Heap, put_node, is_condition, blank_node}

-- `newNode`. The text `nanos` is `strconv.Itoa(time.Now().Nanosecond())`. The result is the new
-- address with the heap.
unfoldable pub new_node : Heap → String → String → ℕ × Heap
new_node h name nanos =
    let named = if str_eq name "" then String.◌++◌ "N_" nanos else name in
    (
      h.fresh,
      record (put_node h h.fresh (record blank_node { name = named })) { fresh = h.fresh + 1 },
    )

-- `recyclable`
abbrev pub recyclable : Node → Bool
recyclable n = n.join_counter == 0

-- `ref` and `deref`, through a pointer
unfoldable pub ref : Heap → ℕ → Heap
ref h a = put_node h a (record (h.node a) { join_counter = incr32 (h.node a).join_counter })

unfoldable pub deref : Heap → ℕ → Heap
deref h a = put_node h a (record (h.node a) { join_counter = decr32 (h.node a).join_counter })

-- The loop of `setup` over the dependents.
unfoldable pub ref_each : Heap → ℕ → List ℕ → Heap
unfolding ref
ref_each h a [] = h
ref_each h a (d ∷ ds) = ref_each (if is_condition (h.node d).typ then h else ref h a) a ds

-- `setup`
unfoldable pub setup : Heap → ℕ → Heap
unfolding ref_each
setup h a =
    ref_each (put_node h a (record (h.node a) { state = NodeState.idle })) a (h.node a).dependents

-- The loop of `drop` over the successors. The test of the type is inside the loop.
unfoldable pub deref_each : Heap → ℕ → List ℕ → Heap
unfolding deref
deref_each h a [] = h
deref_each h a (s ∷ ss) = deref_each (if is_condition (h.node a).typ then h else deref h s) a ss

-- `drop`
unfoldable pub drop : Heap → ℕ → Heap
unfolding deref_each
drop h a = deref_each h a (h.node a).successors

-- `precede`: node `v` depends on node `a`. The second write reads the heap after the first.
unfoldable pub precede : Heap → ℕ → ℕ → Heap
precede h a v =
    let h' = put_node h a (record (h.node a) { successors = (h.node a).successors ++ v ∷ [] }) in
    put_node h' v (record (h'.node v) { dependents = (h'.node v).dependents ++ a ∷ [] })

-- The loop of `hasCondPredecessor`
unfoldable pub any_condition : Heap → List ℕ → Bool
any_condition h [] = false
any_condition h (d ∷ ds) = if is_condition (h.node d).typ then true else any_condition h ds

unfoldable pub has_cond_predecessor : Heap → ℕ → Bool
unfolding any_condition
has_cond_predecessor h a = any_condition h (h.node a).dependents
