-- ===== src/Graph/Setup.antt =====
-- What `setup` of graph.go does to the nodes, the counter and the entries of a graph.
use go_taskflow.Base.{
  ℕ, ◌≡◌, refl, ap, ◌∙◌, true, if◌then◌else◌, ◌==◌, arith, List, [], ◌∷◌, ◌++◌, int32, contains,
  IsDistinct, select,
}
use mathlib.Core.List.{append-nil, append_assoc}
use go_taskflow.Memory.{Node, NodeState, Heap, put_node, put_graph}
use go_taskflow.Node.Counters.{strong, setup-eq}
use go_taskflow.Graph.{zero_each, reset, is_empty, setup_one, setup_each, setup}

-- `reset` clears the counters of the listed nodes.
zero_each-node :
    (h : Heap) (ns : List ℕ) (b : ℕ)
    → (zero_each h ns).node b
      ≡ (if contains b ns then record (h.node b) { join_counter = 0 } else h.node b)
unfolding zero_each
zero_each-node h [] b = refl
zero_each-node h (n ∷ ns) b =
    ground (arith, zero_each-node (put_node h n (record (h.node n) { join_counter = 0 })) ns b)

zero_each-rest :
    (h : Heap) (ns : List ℕ)
    → ((zero_each h ns).graph ≡ h.graph) × ((zero_each h ns).fresh ≡ h.fresh)
unfolding zero_each
zero_each-rest h [] = (refl, refl)
zero_each-rest h (n ∷ ns) =
    zero_each-rest (put_node h n (record (h.node n) { join_counter = 0 })) ns

-- The nodes without dependents, in the order of the list.
abbrev pub sources : (ℕ → Node) → List ℕ → List ℕ
sources nodes = select (λ n. is_empty (nodes n).dependents)

-- A node as `setup` leaves it.
abbrev pub ready_node : (ℕ → Node) → ℕ → Node
ready_node nodes b = record (nodes b) {
  state = NodeState.idle;
  join_counter = int32 (strong nodes (nodes b).dependents);
}

strong_congr :
    (f k : ℕ → Node) (ds : List ℕ) → ((d : ℕ) → (f d).typ ≡ (k d).typ) → strong f ds ≡ strong k ds
strong_congr f k [] e = refl
strong_congr f k (d ∷ ds) e = ground (arith, e d, strong_congr f k ds e)

module _ (h : Heap) (g n : ℕ) (clear : (h.node n).join_counter ≡ 0) where
  setup_one-node :
      (b : ℕ) → (setup_one h g n).node b ≡ (if n == b then ready_node h.node b else h.node b)
  unfolding setup_one
  setup_one-node b = rw (setup-eq h n (omega arith)) (ground arith)

  setup_one-graph :
      (b : ℕ)
      → (setup_one h g n).graph b ≡ (
          if g == b
          then record (h.graph b) { entries = (h.graph b).entries ++ sources h.node (n ∷ []) }
          else h.graph b)
  unfolding setup_one
  setup_one-graph b =
      rw (setup-eq h n (omega arith)) (ground (arith, append-nil (h.graph b).entries))

setup_each-node :
    (h : Heap) (g : ℕ) (ns : List ℕ) (b : ℕ)
    → IsDistinct ns
    → ((c : ℕ) → contains c ns ≡ true → (h.node c).join_counter ≡ 0)
    → (setup_each h g ns).node b ≡ (if contains b ns then ready_node h.node b else h.node b)
unfolding setup_each
setup_each-node h g [] b d z = refl
setup_each-node h g (n ∷ ns) b d z =
    let clear : (h.node n).join_counter ≡ 0 = z n (ground arith) in
    let h' = setup_one h g n in
    ground (
      arith,
      setup_one-node h g n clear b,
      strong_congr h'.node h.node (h.node b).dependents
          (λ c. ground (arith, setup_one-node h g n clear c)),
      setup_each-node h' g ns b d.1 (λ c m. ground (arith, setup_one-node h g n clear c, z c)),
    )

sources_congr :
    (f k : ℕ → Node) (ns : List ℕ)
    → ((d : ℕ) → (f d).dependents ≡ (k d).dependents)
    → sources f ns ≡ sources k ns
sources_congr f k [] e = refl
sources_congr f k (n ∷ ns) e = ground (arith, e n, sources_congr f k ns e)

sources-cons :
    (f : ℕ → Node) (n : ℕ) (ns : List ℕ) → sources f (n ∷ ns) ≡ sources f (n ∷ []) ++ sources f ns
sources-cons f n ns = ground arith

setup_each-graph :
    (h : Heap) (g : ℕ) (ns : List ℕ) (b : ℕ)
    → IsDistinct ns
    → ((c : ℕ) → contains c ns ≡ true → (h.node c).join_counter ≡ 0)
    → (setup_each h g ns).graph b ≡ (
        if g == b
        then record (h.graph b) { entries = (h.graph b).entries ++ sources h.node ns }
        else h.graph b)
unfolding setup_each
setup_each-graph h g [] b d z = ground (arith, append-nil (h.graph b).entries)
setup_each-graph h g (n ∷ ns) b d z =
    let clear : (h.node n).join_counter ≡ 0 = z n (ground arith) in
    let h' = setup_one h g n in
    ground (
      arith,
      setup_one-graph h g n clear b,
      sources_congr h'.node h.node ns (λ c. ground (arith, setup_one-node h g n clear c)),
      append_assoc (h.graph b).entries (sources h.node (n ∷ [])) (sources h.node ns),
      sources-cons h.node n ns,
      setup_each-graph h' g ns b d.1 (λ c m. ground (arith, setup_one-node h g n clear c, z c)),
    )

module _ (h : Heap) (g : ℕ) where
  reset-node :
      (b : ℕ)
      → (reset h g).node b ≡ (
          if contains b (h.graph g).nodes then record (h.node b) { join_counter = 0 } else h.node b)
  unfolding reset
  reset-node b =
      zero_each-node (put_graph h g (record (h.graph g) { join_counter = 0; entries = [] }))
        (h.graph g).nodes b

  reset-graph :
      (b : ℕ)
      → (reset h g).graph b
        ≡ (if g == b then record (h.graph b) { join_counter = 0; entries = [] } else h.graph b)
  unfolding reset
  reset-graph b =
      let cleared = put_graph h g (record (h.graph g) { join_counter = 0; entries = [] }) in
      ap (λ f. f b) (zero_each-rest cleared (h.graph g).nodes).0 ∙ ground arith

  reset-nodes : ((reset h g).graph g).nodes ≡ (h.graph g).nodes
  reset-nodes = ground (arith, reset-graph g)

-- `setup` of a graph that lists no node twice. Every listed node is idle, and its counter is the
-- 32-bit number of its dependents that are no conditions, whatever the counters were before; no
-- other node changes. The counter of the graph is zero, its entries are the listed nodes that have
-- no dependents at all, in the order of the list, and nothing else of any graph changes.
pub setup_lem :
    (h : Heap) (g : ℕ)
    → IsDistinct (h.graph g).nodes
    → (b : ℕ)
    → ((setup h g).node b
        ≡ (if contains b (h.graph g).nodes then ready_node h.node b else h.node b))
      × ((setup h g).graph b ≡ (
          if g == b
          then record (h.graph b) { join_counter = 0; entries = sources h.node (h.graph g).nodes }
          else h.graph b))
unfolding setup
setup_lem h g d b =
    let ns : List ℕ = (h.graph g).nodes in
    let h' = reset h g in
    let clear : (c : ℕ) → contains c ns ≡ true → (h'.node c).join_counter ≡ 0 =
      λ c m. ground (arith, reset-node h g c) in
    rw (reset-nodes h g) (
      ground (
        arith,
        reset-node h g b,
        strong_congr h'.node h.node (h.node b).dependents (λ c. ground (arith, reset-node h g c)),
        setup_each-node h' g ns b d clear,
      ),
      ground (
        arith,
        reset-graph h g b,
        sources_congr h'.node h.node ns (λ c. ground (arith, reset-node h g c)),
        setup_each-graph h' g ns b d clear,
      ),
    )
