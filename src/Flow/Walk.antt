-- ===== src/Flow/Walk.antt =====
-- `walk` of graph.go on a heap that a client has built: what it visits.
use go_taskflow.Base.{
  ℕ, zero, suc, ◌<◌, ◌≡◌, ◌↔◌, ◌⊎◌, inl, inr, refl, true, Bool-cases, Option, none, some, arith,
  List, [], ◌∷◌, ◌++◌, contains, contains-append, ◌==◌,
}
use go_taskflow.Memory.{Heap}
use go_taskflow.Graph.{instantiated_subgraph, walk_each, walk}
use go_taskflow.Flow.Nesting.{IsNested, Visits, listed, inside, walk_bounded}

-- The result of a turn of the loop, from the results of its calls.
data Turn (h : Heap) (inner : ℕ → Option (List ℕ)) (n : ℕ) (ns l : List ℕ) : Type 0 where
  plain :
      (r : List ℕ)
      → instantiated_subgraph h (h.node n).ptr ≡ none
      → walk_each h inner ns ≡ some r
      → l ≡ n ∷ r
      → Turn h inner n ns l
  nested :
      (r m : List ℕ) (k : ℕ)
      → instantiated_subgraph h (h.node n).ptr ≡ some k
      → inner k ≡ some m
      → walk_each h inner ns ≡ some r
      → l ≡ n ∷ (m ++ r)
      → Turn h inner n ns l

turn :
    (h : Heap) (inner : ℕ → Option (List ℕ)) (n : ℕ) (ns l : List ℕ)
    → walk_each h inner (n ∷ ns) ≡ some l
    → Turn h inner n ns l
unfolding walk_each
turn h inner n ns l e = go (instantiated_subgraph h (h.node n).ptr) (walk_each h inner ns) refl refl
  where
    deep :
        (k : ℕ) (r : List ℕ) (o : Option (List ℕ))
        → instantiated_subgraph h (h.node n).ptr ≡ some k
        → walk_each h inner ns ≡ some r
        → inner k ≡ o
        → Turn h inner n ns l
    deep k r none es er ei = absurd (ground arith)
    deep k r (some m) es er ei = nested r m k es ei er (ground arith)

    go :
        (s : Option ℕ) (o : Option (List ℕ))
        → instantiated_subgraph h (h.node n).ptr ≡ s
        → walk_each h inner ns ≡ o
        → Turn h inner n ns l
    go none none es er = absurd (ground arith)
    go none (some r) es er = plain r es er (ground arith)
    go (some k) none es er = absurd (ground arith)
    go (some k) (some r) es er = deep k r (inner k) es er refl

module _ (h : Heap) (inner : ℕ → Option (List ℕ)) (a : ℕ) where
  -- A member of the result is a node of the list or a member of the result of an inner walk.
  abbrev Found : List ℕ → Type 0
  Found ns =
      (contains a ns ≡ true)
      ⊎ ((n k : ℕ) × (m : List ℕ) × (contains n ns ≡ true)
          × (instantiated_subgraph h (h.node n).ptr ≡ some k)
          × (inner k ≡ some m)
          × (contains a m ≡ true))

  Found-cons : (n : ℕ) (ns : List ℕ) → Found ns → Found (n ∷ ns)
  Found-cons n ns (inl e) = inl (ground arith)
  Found-cons n ns (inr (c, k, m, e, s, i, u)) = inr (c, k, m, ground arith, s, i, u)

  Found-Turn :
      (n : ℕ) (ns l : List ℕ)
      → Turn h inner n ns l
      → ((r : List ℕ) → walk_each h inner ns ≡ some r → contains a r ≡ true → Found ns)
      → contains a l ≡ true
      → Found (n ∷ ns)
  Found-Turn n ns l (plain r s er el) rest c = elim (Bool-cases (n == a)) [
    | inl here ↦ inl (ground arith)
    | inr other ↦ Found-cons n ns (rest r er (ground arith))
  ]
  Found-Turn n ns l (nested r m k s ei er el) rest c = elim (Bool-cases (n == a)) [
    | inl here ↦ inl (ground arith)
    | inr other ↦ elim (Bool-cases (contains a m)) [
      | inl below ↦ inr (n, k, m, ground arith, s, ei, below)
      | inr not_below ↦ Found-cons n ns (rest r er (ground (arith, contains-append a m r)))
    ]
  ]

  walk_each-Found : (ns l : List ℕ) → walk_each h inner ns ≡ some l → contains a l ≡ true → Found ns
  unfolding walk_each
  walk_each-Found [] l e c = absurd (ground arith)
  walk_each-Found (n ∷ ns) l e c = Found-Turn n ns l (turn h inner n ns l e) (walk_each-Found ns) c

  -- Every node of the list is a member of the result.
  listed-Turn :
      (n : ℕ) (ns l : List ℕ)
      → Turn h inner n ns l
      → ((r : List ℕ) → walk_each h inner ns ≡ some r → contains a ns ≡ true → contains a r ≡ true)
      → contains a (n ∷ ns) ≡ true
      → contains a l ≡ true
  listed-Turn n ns l (plain r s er el) rest c = ground (arith, rest r er)
  listed-Turn n ns l (nested r m k s ei er el) rest c =
      ground (arith, rest r er, contains-append a m r)

  walk_each-listed :
      (ns l : List ℕ) → walk_each h inner ns ≡ some l → contains a ns ≡ true → contains a l ≡ true
  walk_each-listed [] l e c = absurd (ground arith)
  walk_each-listed (n ∷ ns) l e c =
      listed-Turn n ns l (turn h inner n ns l e) (walk_each-listed ns) c

  -- So is every member of the walk of a subflow that the list holds.
  abbrev Below : ℕ → List ℕ → Type 0
  Below k l = (m : List ℕ) × (inner k ≡ some m) × (contains a m ≡ true → contains a l ≡ true)

  Below-Turn :
      (n c k : ℕ) (ns l : List ℕ)
      → Turn h inner n ns l
      → ((r : List ℕ) → walk_each h inner ns ≡ some r → contains c ns ≡ true → Below k r)
      → contains c (n ∷ ns) ≡ true
      → instantiated_subgraph h (h.node c).ptr ≡ some k
      → Below k l
  Below-Turn n c k ns l (plain r s er el) rest m sc =
      let (b, eb, up) = rest r er (ground arith) in (b, eb, λ u. ground (arith, up u))
  Below-Turn n c k ns l (nested r b j s ei er el) rest m sc = elim (Bool-cases (n == c)) [
    | inl here ↦ (b, ground arith, λ u. ground (arith, contains-append a b r))
    | inr other ↦
        let (d, ed, up) = rest r er (ground arith) in
        (d, ed, λ u. ground (arith, up u, contains-append a b r))
  ]

  walk_each-Below :
      (c k : ℕ) (ns l : List ℕ)
      → walk_each h inner ns ≡ some l
      → contains c ns ≡ true
      → instantiated_subgraph h (h.node c).ptr ≡ some k
      → Below k l
  walk_each-Below c k [] l e m s = absurd (ground arith)
  walk_each-Below c k (n ∷ ns) l e m s =
      Below-Turn n c k ns l (turn h inner n ns l e) (λ r er mr. walk_each-Below c k ns r er mr s) m
        s

walk→Visits :
    (fuel : ℕ) (h : Heap) (a g : ℕ) (l : List ℕ)
    → walk fuel h g ≡ some l
    → contains a l ≡ true
    → Visits h a g
unfolding walk
walk→Visits zero h a g l e c = absurd (ground arith)
walk→Visits (suc fuel) h a g l e c =
    elim (walk_each-Found h (walk fuel h) a (h.graph g).nodes l e c) [
      | inl here ↦ listed here
      | inr (n, k, m, en, s, i, u) ↦ inside n k en s (walk→Visits fuel h a k m i u)
    ]

Visits→walk :
    (h : Heap) (a : ℕ) {g : ℕ}
    → Visits h a g
    → (fuel : ℕ) (l : List ℕ) → walk fuel h g ≡ some l
    → contains a l ≡ true
unfolding walk
Visits→walk h a v zero l e = absurd (ground arith)
Visits→walk h a (listed {g} c) (suc fuel) l e =
    walk_each-listed h (walk fuel h) a (h.graph g).nodes l e c
Visits→walk h a (inside {g} n k c s v) (suc fuel) l e =
    let (m, em, up) = walk_each-Below h (walk fuel h) a n k (h.graph g).nodes l e c s in
    up (Visits→walk h a v fuel m em)

-- Where nodes are younger than the graph that lists them and graphs younger than the subflow
-- around them, `walk` of a graph ends: the number of addresses handed out is enough fuel. It calls
-- its function on a node exactly when the graph lists the node or a chain of instantiated subflows
-- leads to it.
pub walk_total :
    (h : Heap) (g : ℕ)
    → IsNested h
    → 0 < g
    → g < h.fresh
    → (l : List ℕ) × (walk h.fresh h g ≡ some l) × ((a : ℕ) → (contains a l ≡ true) ↔ Visits h a g)
walk_total h g i pos low =
    let (l, e) = walk_bounded h.fresh h g i low (omega arith) in
    (l, e, λ a. (walk→Visits h.fresh h a g l e, λ v. Visits→walk h a v h.fresh l e))
