-- ===== src/Dot/Drawing.antt =====
-- `visualizeG` and `Visualize` of visualizer_dot.go on a heap that a client has built.
use go_taskflow.Base.{
  put, ℕ, zero, suc, ◌+◌, ◌<◌, ◌≡◌, refl, sym, ap, ◌∙◌, String, List, [], ◌∷◌, true, Option, none,
  some, arith, contains, length, total,
}
use go_taskflow.Memory.{Node, Heap, Ptr}
use go_taskflow.Flow.Nesting.{IsNested}
use go_taskflow.Dot.{
  DotEdge, DotGraph, dot_graph, no_graph, body, draw_subflow, draw_static, draw_condition, add_last,
  new_dot_graph,
}
use go_taskflow.Dot.Visualize.{
  NodeMap, draw_node, draw_nodes, draw_edges, from_left, with_edges, visualize_g, visualize,
}
use go_taskflow.Dot.Edges.{drawn, draw_nodes-eq, draw_edges-length}

draw_node_total :
    (inner : ℕ → DotGraph → Option DotGraph) (n : Node) (p : Ptr) (r : DotGraph × NodeMap)
    → ((k : ℕ) (d : DotGraph) → p ≡ Ptr.subflow k → (d' : DotGraph) × (inner k d ≡ some d'))
    → (r' : DotGraph × NodeMap) × (draw_node inner n p r ≡ some r')
unfolding draw_node
draw_node_total inner n Ptr.static (dot_graph b subs, m) ends =
    ((dot_graph (draw_static b n) subs, put n.name n.name m), refl)
draw_node_total inner n (Ptr.condition _) (dot_graph b subs, m) ends =
    ((dot_graph (draw_condition b n) subs, put n.name n.name m), refl)
draw_node_total inner n (Ptr.subflow k) (dot_graph b subs, m) ends =
    let (d, e) = ends k (dot_graph (draw_subflow b n) no_graph) refl in
    ((dot_graph b (add_last subs d), put n.name n.name m), ground arith)

-- The loop over the nodes ends if the drawing of the subflows does.
draw_nodes_total :
    (h : Heap) (inner : ℕ → DotGraph → Option DotGraph) (ns : List ℕ) (r : DotGraph × NodeMap)
    → ((n k : ℕ) (d : DotGraph)
        → contains n ns ≡ true
        → (h.node n).ptr ≡ Ptr.subflow k
        → (d' : DotGraph) × (inner k d ≡ some d'))
    → (r' : DotGraph × NodeMap) × (draw_nodes h inner ns r ≡ some r')
unfolding draw_nodes
draw_nodes_total h inner [] r ends = (r, refl)
draw_nodes_total h inner (n ∷ ns) r ends =
    let (r1, e1) =
      draw_node_total inner (h.node n) (h.node n).ptr r (λ k d p. ends n k d (ground arith) p) in
    let (r2, e2) = draw_nodes_total h inner ns r1 (λ m k d c p. ends m k d (ground arith) p) in
    (r2, ground arith)

visualize_g_bounded :
    (decimal : ℕ → String) (fuel : ℕ) (h : Heap) (g : ℕ) (d : DotGraph)
    → IsNested h
    → g < h.fresh
    → h.fresh < fuel + g
    → (d' : DotGraph) × (visualize_g decimal fuel h g d ≡ some d')
unfolding visualize_g
visualize_g_bounded decimal zero h g d i low enough = absurd (omega arith)
visualize_g_bounded decimal (suc fuel) h g d i low enough =
    let (r, e) =
      draw_nodes_total h (visualize_g decimal fuel h) (h.graph g).nodes (from_left d, [])
        (λ n k s m p.
          let o = i.listed g n m in
          let young = i.inner n k p in
          visualize_g_bounded decimal fuel h k s i young.1 (omega arith)) in
    (with_edges decimal h (h.graph g).nodes r, ground arith)

visualize_g-length :
    (decimal : ℕ → String) (fuel : ℕ) (h : Heap) (g : ℕ) (d d' : DotGraph)
    → visualize_g decimal fuel h g d ≡ some d'
    → length (body d').edges
      ≡ length (body d).edges + total (drawn h (h.graph g).nodes) (h.graph g).nodes
unfolding visualize_g
visualize_g-length decimal zero h g d d' e = absurd cc
visualize_g-length decimal (suc fuel) h g (dot_graph b0 subs0) d' e =
    let all = (h.graph g).nodes in
    let inner = visualize_g decimal fuel h in
    let begun = from_left (dot_graph b0 subs0) in go (draw_nodes h inner all (begun, [])) refl e
  where
    go :
        (o : Option (DotGraph × NodeMap))
        → draw_nodes h
            (visualize_g decimal fuel h)
            (h.graph g).nodes
            (from_left (dot_graph b0 subs0), [])
          ≡ o
        → (elim o [ none ↦ none | some r ↦ some (with_edges decimal h (h.graph g).nodes r) ])
          ≡ some d'
        → length (body d').edges
          ≡ length b0.edges + total (drawn h (h.graph g).nodes) (h.graph g).nodes
    go none at went = absurd cc
    go (some (dot_graph b subs, m)) at went =
        let all = (h.graph g).nodes in
        let (names, kept) =
          draw_nodes-eq h (visualize_g decimal fuel h) all (from_left (dot_graph b0 subs0))
            (dot_graph b subs) [] m at in
        let same : dot_graph (draw_edges decimal h m all b) subs ≡ d' = cc in
        let counted = draw_edges-length decimal h m all all b (λ k. ground (arith, names k)) in
        ap (λ x. length (body x).edges) (sym same)
        ∙ counted
        ∙ ap (λ (es : List DotEdge). length es + total (drawn h all) all) kept

-- Where nodes are younger than the graph that lists them and graphs younger than the subflow around
-- them, `Visualize` draws the graph: the number of addresses handed out is enough fuel. The drawing
-- has as many edges outside its subgraphs as the listed nodes have successors that bear the name of
-- a listed node.
pub visualize-total :
    (decimal : ℕ → String) (h : Heap) (g : ℕ)
    → IsNested h
    → 0 < g
    → g < h.fresh
    → (d : DotGraph) × (visualize decimal h g ≡ some d)
      × (length (body d).edges ≡ total (drawn h (h.graph g).nodes) (h.graph g).nodes)
unfolding visualize new_dot_graph
visualize-total decimal h g i pos low =
    let (d, e) =
      visualize_g_bounded decimal h.fresh h g (dot_graph (new_dot_graph (h.graph g).name) no_graph)
        i low (omega arith) in
    let counted =
      visualize_g-length decimal h.fresh h g (dot_graph (new_dot_graph (h.graph g).name) no_graph) d
        e in
    (d, e, omega arith)
