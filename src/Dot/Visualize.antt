-- ===== src/Dot/Visualize.antt =====
-- `visualizeG` and `Visualize` of visualizer_dot.go: how a flow is drawn.

use go_taskflow.Base.{
  get, put, ℕ, zero, suc, String, List, [], ◌∷◌, Bool, true, false, if◌then◌else◌, Option, none,
  some,
}
use go_taskflow.Memory.{Node, Heap, Ptr}
use go_taskflow.Dot.{
  DotBody, DotGraph, dot_graph, no_graph, add_last, new_dot_graph, create_edge, draw_subflow,
  draw_static, draw_condition,
}

-- The ids that `nodeMap` has for the names of the nodes.
abbrev pub NodeMap : Type 0
NodeMap = List (String × String)

-- One turn of the first loop of `visualizeG`. `inner` draws the graph of a subflow into the subgraph
-- that it is given. It never fails, so that the branch on `err` is dead; `none` is fuel run out.
unfoldable pub draw_node :
    (ℕ → DotGraph → Option DotGraph) → Node → Ptr → DotGraph × NodeMap → Option (DotGraph × NodeMap)
unfolding draw_static draw_condition draw_subflow add_last
draw_node inner n Ptr.static (dot_graph b subs, m) =
    some (dot_graph (draw_static b n) subs, put n.name n.name m)
draw_node inner n (Ptr.condition _) (dot_graph b subs, m) =
    some (dot_graph (draw_condition b n) subs, put n.name n.name m)
draw_node inner n (Ptr.subflow k) (dot_graph b subs, m) =
    elim (inner k (dot_graph (draw_subflow b n) no_graph)) [
      | none ↦ none
      | some s ↦ some (dot_graph b (add_last subs s), put n.name n.name m)
    ]

unfoldable pub draw_nodes :
    Heap
    → (ℕ → DotGraph → Option DotGraph)
    → List ℕ
    → DotGraph × NodeMap
    → Option (DotGraph × NodeMap)
unfolding draw_node
draw_nodes h inner [] r = some r
draw_nodes h inner (n ∷ ns) r = elim (draw_node inner (h.node n) (h.node n).ptr r) [
  | none ↦ none
  | some r' ↦ draw_nodes h inner ns r'
]

-- Whether the node is a `*Condition`, for the label and the style of its edges.
abbrev pub branches : Ptr → Bool
branches (Ptr.condition m) = true
branches _ = false

-- The second loop of `visualizeG`, over the nodes and over the successors of each. The decimal text
-- of a number is that of the package fmt.
unfoldable pub draw_edge : (ℕ → String) → Node → String → NodeMap → ℕ → DotBody → DotBody
unfolding create_edge
draw_edge decimal n to_name m idx b = elim (get n.name m) [
  | none ↦ b
  | some from ↦ elim (get to_name m) [
    | none ↦ b
    | some to ↦
        if branches n.ptr
        then create_edge b from to (decimal idx) true
        else create_edge b from to "" false
  ]
]

unfoldable pub draw_successors :
    (ℕ → String) → Heap → Node → NodeMap → ℕ → List ℕ → DotBody → DotBody
unfolding draw_edge
draw_successors decimal h n m idx [] b = b
draw_successors decimal h n m idx (s ∷ ss) b =
    draw_successors decimal h n m (suc idx) ss (draw_edge decimal n (h.node s).name m idx b)

unfoldable pub draw_edges : (ℕ → String) → Heap → NodeMap → List ℕ → DotBody → DotBody
unfolding draw_successors
draw_edges decimal h m [] b = b
draw_edges decimal h m (n ∷ ns) b =
    draw_edges decimal h m ns (draw_successors decimal h (h.node n) m 0 (h.node n).successors b)

-- `visualizeG`, on fuel for the recursion into subflows.
abbrev pub from_left : DotGraph → DotGraph
from_left (dot_graph b subs) =
    dot_graph (record b { attributes = put "rankdir" "LR" b.attributes }) subs

abbrev pub with_edges : (ℕ → String) → Heap → List ℕ → DotGraph × NodeMap → DotGraph
with_edges decimal h ns (dot_graph b subs, m) = dot_graph (draw_edges decimal h m ns b) subs

unfoldable pub visualize_g : (ℕ → String) → ℕ → Heap → ℕ → DotGraph → Option DotGraph
unfolding draw_nodes draw_edges
visualize_g decimal zero h g d = none
visualize_g decimal (suc fuel) h g d =
    elim (draw_nodes h (visualize_g decimal fuel h) (h.graph g).nodes (from_left d, [])) [
      | none ↦ none
      | some r ↦ some (with_edges decimal h (h.graph g).nodes r)
    ]

-- `Visualize`, up to the text.
unfoldable pub visualize : (ℕ → String) → Heap → ℕ → Option DotGraph
unfolding visualize_g new_dot_graph
visualize decimal h g =
    visualize_g decimal h.fresh h g (dot_graph (new_dot_graph (h.graph g).name) no_graph)
