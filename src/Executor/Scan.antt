-- ===== src/Executor/Scan.antt =====
-- `sche_successors` of executor.go: which successors it schedules, and in which order.
use go_taskflow.Base.{
  ℕ, zero, suc, ◌≡◌, refl, ap, sym, ◌∙◌, List, [], ◌∷◌, ◌++◌, Bool, false, if◌then◌else◌, ◌==◌,
  ◌&&◌, arith, count, contains, IsDistinct, select, some, length, ◌+◌,
}
use mathlib.Core.Path.{ap₂}
use mathlib.Core.List.{append-nil, append_assoc}
use go_taskflow.Memory.{Node, NodeState, Heap, is_idle}
use go_taskflow.Node
use go_taskflow.Sort.{Sort, IsAscending, IsAscending-same_key}
use go_taskflow.Queue.{Queue}
use go_taskflow.Executor.Goroutine.{release, scheduling, scanning, Thread, at, Input}
use go_taskflow.Executor.Handlers.{scan_one}
use go_taskflow.Executor.Act.{Core, act}
use go_taskflow.Executor.Alone.{solo}

-- The loop over the successors as one function: what the steps at `scanning` come to.
scan : Heap → List ℕ → List ℕ → List ℕ × Heap
scan h [] cand = (cand, h)
scan h (n ∷ rest) cand = let (cand', h') = scan_one h n cand in scan h' rest cand'

-- A node that may be scheduled: all that count have dropped it, and it was not scheduled yet.
abbrev pub is_ready : (ℕ → Node) → ℕ → Bool
is_ready nodes n = Node.recyclable (nodes n) && is_idle (nodes n).state

select_congr :
    (f k : ℕ → Node) (ns : List ℕ) (n : ℕ)
    → contains n ns ≡ false
    → ((m : ℕ) → (n == m) ≡ false → f m ≡ k m)
    → select (is_ready f) ns ≡ select (is_ready k) ns
select_congr f k [] n e same = refl
select_congr f k (m ∷ ns) n e same =
    ground (arith, same m, select_congr f k ns n (ground arith) same)

contains-select :
    (p : ℕ → Bool) (b : ℕ) (ns : List ℕ)
    → contains b (select p ns) ≡ (if contains b ns then p b else false)
contains-select p b [] = refl
contains-select p b (n ∷ ns) = ground (arith, contains-select p b ns)

module _ (h : Heap) (n : ℕ) (cand : List ℕ) where
  scan_one-cand : (scan_one h n cand).0 ≡ cand ++ select (is_ready h.node) (n ∷ [])
  unfolding scan_one
  scan_one-cand = ground (arith, append-nil cand)

  scan_one-node :
      (b : ℕ)
      → (scan_one h n cand).1.node b ≡ (
          if (n == b) && is_ready h.node n
          then record (h.node b) { state = NodeState.waiting }
          else h.node b)
  unfolding scan_one
  scan_one-node b = ground arith

  scan_one-graph : (scan_one h n cand).1.graph ≡ h.graph
  unfolding scan_one
  scan_one-graph = ground arith

  -- The rest of the successors is as ready as before.
  scan_one-select :
      (ns : List ℕ)
      → contains n ns ≡ false
      → select (is_ready (scan_one h n cand).1.node) ns ≡ select (is_ready h.node) ns
  scan_one-select ns e =
      select_congr (scan_one h n cand).1.node h.node ns n e
        (λ m e'. ground (arith, scan_one-node m))

select-cons :
    (p : ℕ → Bool) (n : ℕ) (ns : List ℕ) → select p (n ∷ ns) ≡ select p (n ∷ []) ++ select p ns
select-cons p n ns = ground arith

scan-cand :
    (h : Heap) (ns cand : List ℕ)
    → IsDistinct ns
    → (scan h ns cand).0 ≡ cand ++ select (is_ready h.node) ns
unfolding scan
scan-cand h [] cand d = sym (append-nil cand)
scan-cand h (n ∷ ns) cand d =
    scan-cand (scan_one h n cand).1 ns (scan_one h n cand).0 d.1
    ∙ ap₂ ◌++◌ (scan_one-cand h n cand) (scan_one-select h n cand ns d.0)
    ∙ append_assoc cand (select (is_ready h.node) (n ∷ [])) (select (is_ready h.node) ns)
    ∙ ap (λ l. cand ++ l) (sym (select-cons (is_ready h.node) n ns))

scan-node :
    (h : Heap) (ns cand : List ℕ) (b : ℕ)
    → IsDistinct ns
    → (scan h ns cand).1.node b ≡ (
        if contains b (select (is_ready h.node) ns)
        then record (h.node b) { state = NodeState.waiting }
        else h.node b)
unfolding scan
scan-node h [] cand b d = refl
scan-node h (n ∷ ns) cand b d =
    let h' = (scan_one h n cand).1 in
    scan-node h' ns (scan_one h n cand).0 b d.1
    ∙ rw (scan_one-select h n cand ns d.0)
        (ground (arith, scan_one-node h n cand b, contains-select (is_ready h.node) b ns))

scan-graph : (h : Heap) (ns cand : List ℕ) → (scan h ns cand).1.graph ≡ h.graph
unfolding scan
scan-graph h [] cand = refl
scan-graph h (n ∷ ns) cand =
    scan-graph (scan_one h n cand).1 ns (scan_one h n cand).0 ∙ scan_one-graph h n cand

scan-priority :
    (h : Heap) (ns cand : List ℕ) (b : ℕ)
    → ((scan h ns cand).1.node b).priority ≡ (h.node b).priority
unfolding scan scan_one
scan-priority h [] cand b = refl
scan-priority h (n ∷ ns) cand b =
    ground (arith, scan-priority (scan_one h n cand).1 ns (scan_one h n cand).0 b)

module _ (𝓠 : Queue ℕ) (𝓢 : Sort) (i : Input) (t : Thread) where
  -- The steps of a goroutine through its loop.
  solo-scan :
      (c : Core 𝓠 𝓢) (ns cand : List ℕ) (k m : ℕ)
      → m ≡ length ns + k
      → solo 𝓠 𝓢 m i c (at t (scanning ns cand)) ≡ (
          solo 𝓠 𝓢 k i
            (record c { heap = (scan c.heap ns cand).1 })
            (at t (scanning [] (scan c.heap ns cand).0)))
  unfolding solo act scan
  solo-scan c [] cand k m e =
      let same : m ≡ k = omega arith in ap (λ x. solo 𝓠 𝓢 x i c (at t (scanning [] cand))) same
  solo-scan c (n ∷ ns) cand k zero e = absurd (omega arith)
  solo-scan c (n ∷ ns) cand k (suc m) e =
      let (cand', h) = scan_one c.heap n cand in
      solo-scan (record c { heap = h }) ns cand' k m (omega arith)

  solo-resetting :
      (c : Core 𝓠 𝓢) (cand : List ℕ)
      → solo 𝓠 𝓢 2 i c (at t (scanning [] cand))
        ≡ some (
          record c { heap = Node.setup c.heap t.node },
          at t (scheduling (𝓢.sort (λ a. (c.heap.node a).priority) cand) release),
        )
  unfolding solo act
  solo-resetting c cand = refl

  -- A goroutine in `sche_successors` whose successors are distinct, while no other goroutine takes a
  -- step, comes to `schedule` after one step for each successor and two more. What it then
  -- schedules is in ascending order of priority: each successor with counter zero and state idle,
  -- once, and no other. On the way it marks these nodes as waiting, changes nothing else of any
  -- node, and at the end it sets its own node up again.
  pub scanning-scheduling :
      (c : Core 𝓠 𝓢) (ns : List ℕ)
      → IsDistinct ns
      → (l : List ℕ) × (h : Heap) × (solo 𝓠 𝓢 (length ns + 2) i c (at t (scanning ns []))
          ≡ some (record c { heap = Node.setup h t.node }, at t (scheduling l release)))
        × IsAscending (λ a. (c.heap.node a).priority) l
        × ((b : ℕ)
            → (count b l ≡ count b (select (is_ready c.heap.node) ns))
              × (h.node b ≡ (
                  if contains b (select (is_ready c.heap.node) ns)
                  then record (c.heap.node b) { state = NodeState.waiting }
                  else c.heap.node b)))
        × (h.graph ≡ c.heap.graph)
  scanning-scheduling c ns d =
      let (cand, h') = scan c.heap ns [] in
      let key : ℕ → ℕ = λ a. (h'.node a).priority in
      (
        𝓢.sort key cand,
        h',
        solo-scan c ns [] 2 (length ns + 2) refl ∙ solo-resetting (record c { heap = h' }) cand,
        IsAscending-same_key key (λ a. (c.heap.node a).priority) (𝓢.sort key cand)
            (scan-priority c.heap ns []) (𝓢.sort-IsAscending key cand),
        λ b. (
          𝓢.count-sort key cand b ∙ ap (count b) (scan-cand c.heap ns [] d),
          scan-node c.heap ns [] b d,
        ),
        scan-graph c.heap ns [],
      )
