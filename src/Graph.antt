-- ===== src/Graph.antt =====
-- graph.go: the operations of `eGraph`. An operation on the counter of a graph is named like that
-- of a node, and a file that uses both brings the module.
pub mod Setup
use go_taskflow.Base.{
  ℕ, zero, suc, ◌+◌, String, List, [], ◌∷◌, ◌++◌, Bool, true, false, if◌then◌else◌, ◌==◌, incr32,
  decr32, Option, none, some,
}
use go_taskflow.Memory.{Node, Graph, Heap, Ptr, put_node, put_graph, blank_graph}
use go_taskflow.Node

-- `newGraph`: the new address with the heap.
unfoldable pub new_graph : Heap → String → ℕ × Heap
new_graph h name = (
  h.fresh,
  record (put_graph h h.fresh (record blank_graph { name = name })) { fresh = h.fresh + 1 },
)

-- `recyclable`
abbrev pub recyclable : Graph → Bool
recyclable g = g.join_counter == 0

-- `ref`
unfoldable pub ref : Heap → ℕ → Heap
ref h g = put_graph h g (record (h.graph g) { join_counter = incr32 (h.graph g).join_counter })

-- `deref`, whose lock and signal Executor treats.
unfoldable pub deref : Heap → ℕ → Heap
deref h g = put_graph h g (record (h.graph g) { join_counter = decr32 (h.graph g).join_counter })

-- The loop of `reset` over the nodes.
unfoldable pub zero_each : Heap → List ℕ → Heap
zero_each h [] = h
zero_each h (n ∷ ns) = zero_each (put_node h n (record (h.node n) { join_counter = 0 })) ns

-- `reset`
unfoldable pub reset : Heap → ℕ → Heap
unfolding zero_each
reset h g =
    zero_each (put_graph h g (record (h.graph g) { join_counter = 0; entries = [] }))
      (h.graph g).nodes

-- The loop of `push`.
unfoldable pub adopt_each : Heap → ℕ → List ℕ → Heap
adopt_each h g [] = h
adopt_each h g (n ∷ ns) = adopt_each (put_node h n (record (h.node n) { g = g })) g ns

-- `push`
unfoldable pub push : Heap → ℕ → List ℕ → Heap
unfolding adopt_each
push h g ns =
    adopt_each (put_graph h g (record (h.graph g) { nodes = (h.graph g).nodes ++ ns })) g ns

abbrev pub is_empty : List ℕ → Bool
is_empty [] = true
is_empty (x ∷ xs) = false

-- One turn of the loop of `setup`, and the loop.
unfoldable pub setup_one : Heap → ℕ → ℕ → Heap
setup_one h g n =
    let h' = Node.setup h n in
    if is_empty (h'.node n).dependents
    then put_graph h' g (record (h'.graph g) { entries = (h'.graph g).entries ++ n ∷ [] })
    else h'

unfoldable pub setup_each : Heap → ℕ → List ℕ → Heap
unfolding setup_one
setup_each h g [] = h
setup_each h g (n ∷ ns) = setup_each (setup_one h g n) g ns

-- `setup`
unfoldable pub setup : Heap → ℕ → Heap
unfolding reset setup_each
setup h g = let h' = reset h g in setup_each h' g (h'.graph g).nodes

-- The graph inside a node, if it is a subflow that was instantiated.
abbrev pub instantiated_subgraph : Heap → Ptr → Option ℕ
instantiated_subgraph h (Ptr.subflow g) =
    if g == 0 then none else if (h.graph g).instantiated then some g else none
instantiated_subgraph h _ = none

-- One turn of the loop of `walk` for each node, where `inner` is `walk` of a subflow.
unfoldable pub walk_each : Heap → (ℕ → Option (List ℕ)) → List ℕ → Option (List ℕ)
walk_each h inner [] = some []
walk_each h inner (n ∷ ns) =
    let rest = walk_each h inner ns in
    elim (instantiated_subgraph h (h.node n).ptr) [
      | none ↦ elim rest [ none ↦ none | some r ↦ some (n ∷ r) ]
      | some g ↦ elim (inner g) [
        | none ↦ none
        | some l ↦ elim rest [ none ↦ none | some r ↦ some (n ∷ (l ++ r)) ]
      ]
    ]

-- `walk`: the nodes in the order in which `fn` is called on them. The recursion into subflows takes
-- fuel, and `none` means that it ran out.
unfoldable pub walk : ℕ → Heap → ℕ → Option (List ℕ)
unfolding walk_each
walk zero h g = none
walk (suc fuel) h g = walk_each h (walk fuel h) (h.graph g).nodes
