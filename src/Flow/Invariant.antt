-- ===== src/Flow/Invariant.antt =====
-- The invariant of a heap that a client has built, and the single steps that keep it.
use go_taskflow.Base.{
  ℕ, ◌<◌, ◌≤◌, ◌≡◌, refl, true, false, String, arith, [], ◌∷◌, count, contains, IsDistinct,
  IsDistinct-snoc, count-append, contains-append,
}
use go_taskflow.Memory.{Node, Heap, Ptr, put_node, no_objects, blank_node, blank_graph}
use go_taskflow.Node
use go_taskflow.Graph

-- Successors and dependents are the two ends of the same edges, as often on either side. No object
-- stands at an address not handed out yet, and no edge leads to one. A graph lists no node twice,
-- and a node that it lists belongs to it and is younger; the graph inside a subflow is younger than
-- the node. No counter has moved, of a node or of a graph.
pub record IsBuilt (h : Heap) : Type 0 where
  pub started : 0 < h.fresh
  pub linked : (a v : ℕ) → count v (h.node a).successors ≡ count a (h.node v).dependents
  pub blank : (a : ℕ) → h.fresh ≤ a → h.node a ≡ blank_node
  pub no_graph : (g : ℕ) → h.fresh ≤ g → h.graph g ≡ blank_graph
  pub targets : (a v : ℕ) → contains v (h.node a).successors ≡ true → (0 < v) × (v < h.fresh)
  pub distinct : (g : ℕ) → IsDistinct (h.graph g).nodes
  pub owned :
      (g a : ℕ) → contains a (h.graph g).nodes ≡ true → ((h.node a).g ≡ g) × (g < a) × (a < h.fresh)
  pub nested : (a k : ℕ) → (h.node a).ptr ≡ Ptr.subflow k → (a < k) × (k < h.fresh)
  pub still : (a : ℕ) → (h.node a).join_counter ≡ 0
  pub unmoved : (g : ℕ) → (h.graph g).join_counter ≡ 0

-- An address that was handed out.
abbrev pub IsObject : Heap → ℕ → Type 0
IsObject h a = (0 < a) × (a < h.fresh)

pub IsBuilt-no_objects : IsBuilt no_objects
IsBuilt-no_objects = record {
  started = omega arith;
  linked = λ a v. refl;
  blank = λ a e. refl;
  no_graph = λ g e. refl;
  targets = λ a v e. ground arith;
  distinct = λ g. tt;
  owned = λ g a e. ground arith;
  nested = λ a k e. cc;
  still = λ a. refl;
  unmoved = λ g. refl;
}

-- One edge.
pub precede-IsBuilt :
    (h : Heap) (a v : ℕ) → IsBuilt h → IsObject h a → IsObject h v → IsBuilt (Node.precede h a v)
unfolding Node.precede
precede-IsBuilt h a v i ha hv = record {
  started = ground (arith, i.started);
  linked = λ b w. ground (
    arith,
    i.linked b w,
    count-append w (h.node b).successors (v ∷ []),
    count-append b (h.node w).dependents (a ∷ []),
  );
  blank = λ b e. ground (arith, i.blank b e);
  no_graph = i.no_graph;
  targets =
      λ b w e. ground (arith, i.targets b w, contains-append w (h.node b).successors (v ∷ []));
  distinct = i.distinct;
  owned = λ g b e. ground (arith, i.owned g b e);
  nested = λ b k e. ground (arith, i.nested b k);
  still = λ b. ground (arith, i.still b);
  unmoved = i.unmoved;
}

-- A write that keeps the edges, the graph and the counter of a node.
pub put_node-IsBuilt :
    (h : Heap) (a : ℕ) (n : Node)
    → IsBuilt h
    → IsObject h a
    → n.successors ≡ (h.node a).successors
    → n.dependents ≡ (h.node a).dependents
    → n.g ≡ (h.node a).g
    → n.join_counter ≡ (h.node a).join_counter
    → ((k : ℕ) → n.ptr ≡ Ptr.subflow k → (a < k) × (k < h.fresh))
    → IsBuilt (put_node h a n)
put_node-IsBuilt h a n i ha es ed eg ec en = record {
  started = ground (arith, i.started);
  linked = λ b w. ground (arith, i.linked b w);
  blank = λ b e. ground (arith, i.blank b e);
  no_graph = i.no_graph;
  targets = λ b w e. ground (arith, i.targets b w);
  distinct = i.distinct;
  owned = λ g b e. ground (arith, i.owned g b e);
  nested = λ b k e. ground (arith, i.nested b k, en k);
  still = λ b. ground (arith, i.still b);
  unmoved = i.unmoved;
}

-- A new node, which no graph lists yet.
pub new_node-IsBuilt :
    (h : Heap) (name nanos : String) → IsBuilt h → IsBuilt (Node.new_node h name nanos).1
unfolding Node.new_node
new_node-IsBuilt h name nanos i = record {
  started = ground (arith, i.started);
  linked = λ b w. ground (arith, i.linked b w, i.blank h.fresh);
  blank = λ b e. ground (arith, i.blank b);
  no_graph = λ g e. ground (arith, i.no_graph g);
  targets = λ b w e. ground (arith, i.targets b w, i.blank h.fresh);
  distinct = i.distinct;
  owned = λ g b e. ground (arith, i.owned g b e);
  nested = λ b k e. ground (arith, i.nested b k);
  still = λ b. ground (arith, i.still b);
  unmoved = i.unmoved;
}

-- A new graph, which lists no node yet.
pub new_graph-IsBuilt : (h : Heap) (name : String) → IsBuilt h → IsBuilt (Graph.new_graph h name).1
unfolding Graph.new_graph
new_graph-IsBuilt h name i = record {
  started = ground (arith, i.started);
  linked = i.linked;
  blank = λ b e. ground (arith, i.blank b);
  no_graph = λ g e. ground (arith, i.no_graph g);
  targets = λ b w e. ground (arith, i.targets b w);
  distinct = λ g. ground (arith, i.distinct g);
  owned = λ g b e. ground (arith, i.owned g b);
  nested = λ b k e. ground (arith, i.nested b k e);
  still = i.still;
  unmoved = λ k. ground (arith, i.unmoved k);
}

-- A graph takes a node that no graph lists.
pub push-IsBuilt :
    (h : Heap) (g a : ℕ)
    → IsBuilt h
    → IsObject h g
    → IsObject h a
    → g < a
    → ((k : ℕ) → contains a (h.graph k).nodes ≡ false)
    → IsBuilt (Graph.push h g (a ∷ []))
unfolding Graph.push
push-IsBuilt h g a i hg ha younger free = record {
  started = ground (arith, i.started);
  linked = λ b w. ground (arith, i.linked b w);
  blank = λ b e. ground (arith, i.blank b);
  no_graph = λ k e. ground (arith, i.no_graph k);
  targets = λ b w e. ground (arith, i.targets b w);
  distinct = λ k.
      ground
        (arith, i.distinct k, free k, IsDistinct-snoc (h.graph k).nodes a (i.distinct k) (free k));
  owned =
      λ k b e. ground (arith, i.owned k b, free k, contains-append b (h.graph k).nodes (a ∷ []));
  nested = λ b k e. ground (arith, i.nested b k);
  still = λ b. ground (arith, i.still b);
  unmoved = λ k. ground (arith, i.unmoved k);
}
