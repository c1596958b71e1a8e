-- ===== src/Flow/Nesting.antt =====
-- The nesting of subflows, and that `walk` of graph.go ends on it.
use go_taskflow.Base.{
  ℕ, zero, suc, ◌+◌, ◌<◌, ◌≡◌, refl, true, Option, none, some, arith, List, [], ◌∷◌, ◌++◌, contains,
}
use go_taskflow.Memory.{Heap, Ptr}
use go_taskflow.Graph.{instantiated_subgraph, walk_each, walk}
use go_taskflow.Flow.Invariant.{IsBuilt}

-- Younger objects stand inside older ones: a node in a graph, and a graph in a subflow. This holds
-- as built, and later too, since it says nothing of states and counters.
pub record IsNested (h : Heap) : Type 0 where
  pub listed : (g a : ℕ) → contains a (h.graph g).nodes ≡ true → g < a
  pub inner : (a k : ℕ) → (h.node a).ptr ≡ Ptr.subflow k → (a < k) × (k < h.fresh)

pub IsBuilt-IsNested : (h : Heap) → IsBuilt h → IsNested h
IsBuilt-IsNested h i = record { listed = λ g a e. (i.owned g a e).1; inner = i.nested }

-- A node is visited from a graph if the graph lists it, or if it is visited from the graph of an
-- instantiated subflow that the graph lists.
pub data Visits (h : Heap) (a : ℕ) : ℕ → Type 0 where
  listed : {g : ℕ} → contains a (h.graph g).nodes ≡ true → Visits h a g
  inside :
      {g : ℕ} (n k : ℕ)
      → contains n (h.graph g).nodes ≡ true
      → instantiated_subgraph h (h.node n).ptr ≡ some k
      → Visits h a k
      → Visits h a g

pub subgraph-ptr :
    (h : Heap) (p : Ptr) (k : ℕ) → instantiated_subgraph h p ≡ some k → p ≡ Ptr.subflow k
subgraph-ptr h Ptr.static k e = cc
subgraph-ptr h (Ptr.subflow g) k e = ground arith
subgraph-ptr h (Ptr.condition m) k e = cc

-- The loop ends if the inner walks do.
walk_each_total :
    (h : Heap) (inner : ℕ → Option (List ℕ)) (ns : List ℕ)
    → ((n k : ℕ)
        → contains n ns ≡ true
        → instantiated_subgraph h (h.node n).ptr ≡ some k
        → (l : List ℕ) × (inner k ≡ some l))
    → (l : List ℕ) × (walk_each h inner ns ≡ some l)
unfolding walk_each
walk_each_total h inner [] ends = ([], refl)
walk_each_total h inner (n ∷ ns) ends =
    let (r, er) = walk_each_total h inner ns (λ m k e s. ends m k (ground arith) s) in
    go (instantiated_subgraph h (h.node n).ptr) refl r er
  where
    go :
        (o : Option ℕ)
        → instantiated_subgraph h (h.node n).ptr ≡ o
        → (r : List ℕ) → walk_each h inner ns ≡ some r
        → (l : List ℕ) × (walk_each h inner (n ∷ ns) ≡ some l)
    go none e r er = (n ∷ r, ground arith)
    go (some k) e r er = let (l, el) = ends n k (ground arith) e in (n ∷ (l ++ r), ground arith)

-- The nesting of subflows is bounded by the addresses handed out.
pub walk_bounded :
    (fuel : ℕ) (h : Heap) (g : ℕ)
    → IsNested h
    → g < h.fresh
    → h.fresh < fuel + g
    → (l : List ℕ) × (walk fuel h g ≡ some l)
unfolding walk
walk_bounded zero h g i low enough = absurd (omega arith)
walk_bounded (suc fuel) h g i low enough =
    walk_each_total h (walk fuel h) (h.graph g).nodes (λ n k m s.
      let p = subgraph-ptr h (h.node n).ptr k s in
      let o = i.listed g n m in
      let young = i.inner n k p in walk_bounded fuel h k i young.1 (omega arith))
