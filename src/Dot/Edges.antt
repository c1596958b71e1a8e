-- ===== src/Dot/Edges.antt =====
-- What `visualizeG` of visualizer_dot.go draws: it ends, and which edges it draws.
use text.Mathlib.Text.{◌==◌ as str_eq}
use text.Mathlib.TextEquality.{eq_iff}
use go_taskflow.Base.{
  get, put, ℕ, suc, ◌+◌, ◌≡◌, refl, sym, ap, ◌∙◌, String, List, [], ◌∷◌, Bool, true, false, inl,
  inr, Bool-cases, if_both, if◌then◌else◌, Option, none, some, arith, length, length-append, total,
  select,
}
use go_taskflow.Memory.{Node, Heap, Ptr}
use go_taskflow.Dot.{
  DotBody, DotGraph, dot_graph, body, create_edge, create_node, set_attribute, draw_static,
  draw_condition,
}
use go_taskflow.Dot.Visualize.{
  branches, NodeMap, draw_node, draw_nodes, draw_edge, draw_successors, draw_edges,
}

abbrev pub is_some {ℓ} : {A : Type ℓ} → Option A → Bool
is_some none = false
is_some (some a) = true

-- Whether a name is among the names of some nodes.
abbrev pub is_named : (ℕ → Node) → String → List ℕ → Bool
is_named nodes s [] = false
is_named nodes s (n ∷ ns) = if str_eq (nodes n).name s then true else is_named nodes s ns

-- The edges that a node has a line for: its successors that bear the name of a node of the graph.
abbrev pub drawn : Heap → List ℕ → ℕ → ℕ
drawn h ns n =
    if is_named h.node (h.node n).name ns
    then length (select (λ s. is_named h.node (h.node s).name ns) (h.node n).successors)
    else 0

get-put :
    (k j v : String) (m : NodeMap)
    → is_some (get k (put j v m)) ≡ (if str_eq j k then true else is_some (get k m))
get-put k j v [] = ground arith
get-put k j v ((i, w) ∷ m) = elim (Bool-cases (str_eq i j)) [
  | inl e ↦
      let same : str_eq i k ≡ str_eq j k = ap (λ x. str_eq x k) ((eq_iff i j).0 e) in ground arith
  | inr e ↦ ground (arith, get-put k j v m)
]

-- Drawing a node adds its name to the map, and no edge.
draw_node-eq :
    (inner : ℕ → DotGraph → Option DotGraph) (n : Node) (p : Ptr) (d d' : DotGraph) (m m' : NodeMap)
    → draw_node inner n p (d, m) ≡ some (d', m')
    → (m' ≡ put n.name n.name m) × ((body d').edges ≡ (body d).edges)
unfolding draw_node draw_static draw_condition create_node set_attribute
draw_node-eq inner n Ptr.static (dot_graph b subs) d' m m' e = ground arith
draw_node-eq inner n (Ptr.condition _) (dot_graph b subs) d' m m' e = ground arith
draw_node-eq inner n (Ptr.subflow k) (dot_graph b subs) d' m m' e = ground arith

create_edge-length :
    (b : DotBody) (from to label : String) (dashed : Bool)
    → length (create_edge b from to label dashed).edges ≡ length b.edges + 1
unfolding create_edge
create_edge-length b from to label dashed = length-append b.edges _

draw_edge-length :
    (decimal : ℕ → String) (n : Node) (s : String) (m : NodeMap) (idx : ℕ) (b : DotBody)
    → length (draw_edge decimal n s m idx b).edges
      ≡ length b.edges
        + (if is_some (get n.name m) then (if is_some (get s m) then 1 else 0) else 0)
unfolding draw_edge
draw_edge-length decimal n s m idx b = go (get n.name m) (get s m)
  where
    go :
        (o q : Option String)
        → length
            (elim o as (λ _. DotBody) [
              | none ↦ b
              | some from ↦ elim q as (λ _. DotBody) [
                | none ↦ b
                | some to ↦
                    if branches n.ptr
                    then create_edge b from to (decimal idx) true
                    else create_edge b from to "" false
              ]
            ]).edges
          ≡ length b.edges + (if is_some o then (if is_some q then 1 else 0) else 0)
    go none q = omega arith
    go (some from) none = omega arith
    go (some from) (some to) =
        if_both (λ (x : DotBody). length x.edges ≡ length b.edges + 1) (branches n.ptr)
          (create_edge-length b from to (decimal idx) true) (create_edge-length b from to "" false)

draw_successors-length :
    (decimal : ℕ → String) (h : Heap) (n : Node) (m : NodeMap) (idx : ℕ) (ss : List ℕ) (b : DotBody)
    → length (draw_successors decimal h n m idx ss b).edges
      ≡ length b.edges
        + (if is_some (get n.name m)
            then length (select (λ s. is_some (get (h.node s).name m)) ss)
            else 0)
unfolding draw_successors
draw_successors-length decimal h n m idx [] b = ground arith
draw_successors-length decimal h n m idx (s ∷ ss) b = ground (
  arith,
  draw_edge-length decimal n (h.node s).name m idx b,
  draw_successors-length decimal h n m (suc idx) ss (draw_edge decimal n (h.node s).name m idx b),
)

-- The loop over the nodes: the names in the map, and no edge.
pub draw_nodes-eq :
    (h : Heap) (inner : ℕ → DotGraph → Option DotGraph) (ns : List ℕ) (d d' : DotGraph)
    (m m' : NodeMap)
    → draw_nodes h inner ns (d, m) ≡ some (d', m')
    → ((k : String)
        → is_some (get k m') ≡ (if is_named h.node k ns then true else is_some (get k m)))
      × ((body d').edges ≡ (body d).edges)
unfolding draw_nodes
draw_nodes-eq h inner [] d d' m m' e =
    let em : m ≡ m' = cc in
    let ed : d ≡ d' = cc in
    (λ k. ap (λ x. is_some (get k x)) (sym em), ap (λ x. (body x).edges) (sym ed))
draw_nodes-eq h inner (n ∷ ns) d d' m m' e =
    go (draw_node inner (h.node n) (h.node n).ptr (d, m)) refl e
      (λ d1 m1 went. draw_nodes-eq h inner ns d1 d' m1 m' went)
  where
    go :
        (o : Option (DotGraph × NodeMap))
        → draw_node inner (h.node n) (h.node n).ptr (d, m) ≡ o
        → (elim o [ none ↦ none | some r ↦ draw_nodes h inner ns r ]) ≡ some (d', m')
        → ((d1 : DotGraph) (m1 : NodeMap)
            → draw_nodes h inner ns (d1, m1) ≡ some (d', m')
            → ((k : String)
                → is_some (get k m') ≡ (if is_named h.node k ns then true else is_some (get k m1)))
              × ((body d').edges ≡ (body d1).edges))
        → ((k : String)
            → is_some (get k m') ≡ (if is_named h.node k (n ∷ ns) then true else is_some (get k m)))
          × ((body d').edges ≡ (body d).edges)
    go none at went rest = absurd cc
    go (some (d1, m1)) at went rest =
        let (here, kept) = draw_node-eq inner (h.node n) (h.node n).ptr d d1 m m1 at in
        let (names, edges) = rest d1 m1 went in
        (
          λ k.
              names k
              ∙ ground (
                arith,
                ap (λ x. is_some (get k x)) here,
                get-put k (h.node n).name (h.node n).name m,
              ),
          edges ∙ kept,
        )

select_names :
    (h : Heap) (m : NodeMap) (all ss : List ℕ)
    → ((k : String) → is_some (get k m) ≡ is_named h.node k all)
    → select (λ s. is_some (get (h.node s).name m)) ss
      ≡ select (λ s. is_named h.node (h.node s).name all) ss
select_names h m all [] names = refl
select_names h m all (s ∷ ss) names =
    ground (arith, names (h.node s).name, select_names h m all ss names)

pub draw_edges-length :
    (decimal : ℕ → String) (h : Heap) (m : NodeMap) (all ns : List ℕ) (b : DotBody)
    → ((k : String) → is_some (get k m) ≡ is_named h.node k all)
    → length (draw_edges decimal h m ns b).edges ≡ length b.edges + total (drawn h all) ns
unfolding draw_edges
draw_edges-length decimal h m all [] b names = ground arith
draw_edges-length decimal h m all (n ∷ ns) b names =
    draw_edges-length decimal h m all ns
      (draw_successors decimal h (h.node n) m 0 (h.node n).successors b) names
    ∙ ground (
      arith,
      draw_successors-length decimal h (h.node n) m 0 (h.node n).successors b,
      names (h.node n).name,
      select_names h m all (h.node n).successors names,
    )
