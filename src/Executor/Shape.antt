-- ===== src/Executor/Shape.antt =====
-- What the steps of an executor never change in a flow without subflows: the edges, kinds, graphs
-- and priorities of the nodes, and the nodes of a graph.
use go_taskflow.Base.{ℕ, ◌≡◌, refl, ◌∙◌, String, List, [], ◌∷◌, Bool-cases, inl, inr, arith}
use go_taskflow.Memory.{Node, Graph, NodeType, Ptr, Heap, put_node, put_graph, is_condition}
use go_taskflow.Node
use go_taskflow.Graph

-- The fields of a node that are fixed once the flow is built.
abbrev pub Fixed : Type 0
Fixed = String × List ℕ × List ℕ × NodeType × Ptr × ℕ × ℕ

abbrev pub fixed : Node → Fixed
fixed n = (n.name, n.successors, n.dependents, n.typ, n.ptr, n.g, n.priority)

pub record SameShape (h k : Heap) : Type 0 where
  pub node : (b : ℕ) → fixed (k.node b) ≡ fixed (h.node b)
  pub nodes : (g : ℕ) → (k.graph g).nodes ≡ (h.graph g).nodes

pub SameShape-refl : (h : Heap) → SameShape h h
SameShape-refl h = record { node = λ b. refl; nodes = λ g. refl }

pub SameShape-trans : {h k l : Heap} → SameShape h k → SameShape k l → SameShape h l
SameShape-trans s t = record { node = λ b. t.node b ∙ s.node b; nodes = λ g. t.nodes g ∙ s.nodes g }

pub put_node-SameShape :
    (h : Heap) (a : ℕ) (n : Node) → fixed n ≡ fixed (h.node a) → SameShape h (put_node h a n)
put_node-SameShape h a n e = record { node = λ b. ground arith; nodes = λ g. refl }

pub put_graph-SameShape :
    (h : Heap) (a : ℕ) (g : Graph) → g.nodes ≡ (h.graph a).nodes → SameShape h (put_graph h a g)
put_graph-SameShape h a g e = record { node = λ b. refl; nodes = λ b. ground arith }

ref_each-SameShape : (h : Heap) (a : ℕ) (ds : List ℕ) → SameShape h (Node.ref_each h a ds)
unfolding Node.ref_each Node.ref
ref_each-SameShape h a [] = SameShape-refl h
ref_each-SameShape h a (d ∷ ds) = elim (Bool-cases (is_condition (h.node d).typ)) [
  | inl e ↦ rw e (ref_each-SameShape h a ds)
  | inr e ↦
      rw e
        (SameShape-trans (put_node-SameShape h a _ refl) (ref_each-SameShape (Node.ref h a) a ds))
]

pub setup-SameShape : (h : Heap) (a : ℕ) → SameShape h (Node.setup h a)
unfolding Node.setup
setup-SameShape h a =
    SameShape-trans (put_node-SameShape h a _ refl) (ref_each-SameShape _ a (h.node a).dependents)

zero_each-SameShape : (h : Heap) (ns : List ℕ) → SameShape h (Graph.zero_each h ns)
unfolding Graph.zero_each
zero_each-SameShape h [] = SameShape-refl h
zero_each-SameShape h (n ∷ ns) =
    SameShape-trans (put_node-SameShape h n _ refl)
      (zero_each-SameShape (put_node h n (record (h.node n) { join_counter = 0 })) ns)

setup_one-SameShape : (h : Heap) (g n : ℕ) → SameShape h (Graph.setup_one h g n)
unfolding Graph.setup_one
setup_one-SameShape h g n =
    let s : SameShape h (Node.setup h n) = setup-SameShape h n in
    elim (Bool-cases (Graph.is_empty ((Node.setup h n).node n).dependents)) [
      | inl e ↦ rw e (SameShape-trans s (put_graph-SameShape (Node.setup h n) g _ refl))
      | inr e ↦ rw e s
    ]

setup_each-SameShape : (h : Heap) (g : ℕ) (ns : List ℕ) → SameShape h (Graph.setup_each h g ns)
unfolding Graph.setup_each
setup_each-SameShape h g [] = SameShape-refl h
setup_each-SameShape h g (n ∷ ns) =
    SameShape-trans (setup_one-SameShape h g n) (setup_each-SameShape (Graph.setup_one h g n) g ns)

pub graph_setup-SameShape : (h : Heap) (g : ℕ) → SameShape h (Graph.setup h g)
unfolding Graph.setup Graph.reset
graph_setup-SameShape h g =
    let cleared : Graph = record (h.graph g) { join_counter = 0; entries = [] } in
    let h' = Graph.reset h g in
    SameShape-trans
      (SameShape-trans (put_graph-SameShape h g cleared refl)
        (zero_each-SameShape (put_graph h g cleared) (h.graph g).nodes))
      (setup_each-SameShape h' g (h'.graph g).nodes)
