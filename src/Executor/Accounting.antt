-- ===== src/Executor/Accounting.antt =====
-- The counter of a graph and the counter of `wg` across one step.
use go_taskflow.Base.{
  ℕ, ◌+◌, ◌≡◌, ◌≢◌, refl, List, [], ◌∷◌, Bool, true, false, if_both, ◌==◌, if◌then◌else◌, arith,
  Option, none, some, total, total-append, int32,
}
use go_taskflow.Memory.{NodeState, Ptr, Heap, nil, is_condition}
use go_taskflow.Node
use go_taskflow.Graph
use go_taskflow.Observer.{Observer, close_span}
use go_taskflow.Queue.{Queue, contents-pop}
use go_taskflow.Sort.{Sort}
use go_taskflow.Executor.Goroutine.{
  After, release, settle, watch, Pc, opening, checking, marking, handling, finishing, choosing,
  recovering, closing, setting_up, scheduling, putting, looping, deciding, leaving, dropping,
  scanning, resetting, dereffing, restoring, ending, ended, overdrawn, crashed, Thread, at, Input,
}
use go_taskflow.Executor.Handlers.{
  scan_one, set_state, choose, handle, recover, after_close, after_drop, after_deref, resume,
  nil_panic,
}
use go_taskflow.Executor.Act.{
  Core, act, Ensures, schedule_one, invoke_node, leave, may_go_on, is_over,
}
use go_taskflow.Executor.Flat.{IsFlat}
use go_taskflow.Executor.Weights.{homed, refs, in_graph, is_setting}

ref_each-graph : (h : Heap) (a : ℕ) (ds : List ℕ) → (Node.ref_each h a ds).graph ≡ h.graph
unfolding Node.ref_each Node.ref
ref_each-graph h a [] = refl
ref_each-graph h a (d ∷ ds) =
    ground (arith, ref_each-graph h a ds, ref_each-graph (Node.ref h a) a ds)

pub setup-graph : (h : Heap) (a : ℕ) → (Node.setup h a).graph ≡ h.graph
unfolding Node.setup
setup-graph h a = ref_each-graph (set_state h a NodeState.idle) a (h.node a).dependents

module _ (𝓠 : Queue ℕ) (𝓢 : Sort) (g : ℕ) where
  -- The counter of `g` is the number of the queued nodes of `g` and of the references that the
  -- goroutines account for, `n` in all, as an int32. Nodes are told by an older heap of the shape.
  abbrev pub Counts : Heap → Core 𝓠 𝓢 → ℕ → Type 0
  Counts h c n = (c.heap.graph g).join_counter ≡ int32 (total (homed h g) (𝓠.contents c.wq) + n)

  module _ (c : Core 𝓠 𝓢) (t : Thread) (others : ℕ) where
    abbrev Balanced : Core 𝓠 𝓢 → List Thread → Type 0
    Balanced c' new = Counts c.heap c' (total (refs c.heap g) new + others)

    schedule_one-Balanced :
        (n : ℕ) (rest : List ℕ) (k : After)
        → Balanced c (at t (scheduling (n ∷ rest) k) ∷ [])
        → let (c', t') = schedule_one 𝓠 𝓢 c t n rest k in Balanced c' (t' ∷ [])
    unfolding schedule_one nil_panic resume Graph.ref
    schedule_one-Balanced n rest release b = ground arith
    schedule_one-Balanced n rest settle b = ground arith
    schedule_one-Balanced n rest (watch h pg) b = ground arith

    invoke_node-Balanced :
        (h pg : ℕ)
        → Balanced c (at t (deciding h pg) ∷ [])
        → let (c', new) = invoke_node 𝓠 𝓢 c t h pg in Balanced c' new
    unfolding invoke_node
    invoke_node-Balanced h pg b = split (𝓠.pop c.wq) refl
      where
        split :
            (o : Option (ℕ × 𝓠.Carrier))
            → 𝓠.pop c.wq ≡ o
            → let (c', new) = invoke_node 𝓠 𝓢 c t h pg in Balanced c' new
        split none e = ground arith
        split (some (n, q)) e = ground (arith, contents-pop 𝓠 c.wq n q e)

    leave-Balanced :
        (h pg : ℕ)
        → t.node ≡ nil
        → Balanced c (at t (leaving h pg) ∷ [])
        → let (c', t') = leave 𝓠 𝓢 c t h pg in Balanced c' (t' ∷ [])
    unfolding leave
    leave-Balanced h pg root b = ground arith

    choose-Balanced :
        (choice : ℕ) (p : Ptr)
        → Balanced c (at t (choosing choice) ∷ [])
        → let (h, pc) = choose c.heap t.node p choice in
          Balanced (record c { heap = h }) (at t pc ∷ [])
    unfolding choose
    choose-Balanced choice p b = ground arith

    handle-Balanced :
        (i : Input) (p : Ptr)
        → ((k : ℕ) → p ≢ Ptr.subflow k)
        → Balanced c (at t handling ∷ [])
        → let (h, pc) = handle c.heap t.node p i in Balanced (record c { heap = h }) (at t pc ∷ [])
    unfolding handle
    handle-Balanced i Ptr.static flat b = ground arith
    handle-Balanced i (Ptr.condition m) flat b = ground arith
    handle-Balanced i (Ptr.subflow k) flat b = absurd (flat k refl)

    after_close-Balanced :
        (o : Observer) (ok : Bool) (p : Ptr)
        → ((k : ℕ) → p ≢ Ptr.subflow k)
        → Balanced c (at t (closing ok) ∷ [])
        → Balanced (record c { obs = o }) (at t (after_close c.heap t.node p) ∷ [])
    unfolding after_close
    after_close-Balanced o ok Ptr.static flat b = b
    after_close-Balanced o ok (Ptr.condition m) flat b = b
    after_close-Balanced o ok (Ptr.subflow k) flat b = absurd (flat k refl)

    after_drop-Balanced :
        (p : Ptr)
        → Balanced c (at t (dropping []) ∷ [])
        → Balanced c (at t (after_drop c.heap t.node p) ∷ [])
    unfolding after_drop
    after_drop-Balanced Ptr.static b = b
    after_drop-Balanced (Ptr.condition m) b = b
    after_drop-Balanced (Ptr.subflow k) b = b

    deref-Balanced :
        (p : Ptr)
        → Balanced c (at t dereffing ∷ [])
        → Balanced
            (record c { heap = Graph.deref c.heap (c.heap.node t.node).g })
            (at t (after_deref p) ∷ [])
    unfolding after_deref Graph.deref
    deref-Balanced p b = ground arith

    resume-Balanced :
        (k : After) → Balanced c (at t (scheduling [] k) ∷ []) → Balanced c (at t (resume k) ∷ [])
    unfolding resume
    resume-Balanced release b = b
    resume-Balanced settle b = b
    resume-Balanced (watch h pg) b = b

    recover-Balanced :
        (p : Ptr)
        → Balanced c (at t recovering ∷ [])
        → Balanced (record c { heap = recover c.heap t.node p }) (at t (closing false) ∷ [])
    unfolding recover
    recover-Balanced p b = ground arith

    put-Balanced :
        (n : ℕ) (rest : List ℕ) (k : After)
        → Balanced c (at t (putting n rest k) ∷ [])
        → Balanced (record c { wq = 𝓠.put n c.wq }) (at t (scheduling rest k) ∷ [])
    put-Balanced n rest k b =
        ground
          (arith, 𝓠.contents-put n c.wq, total-append (homed c.heap g) (𝓠.contents c.wq) (n ∷ []))

    drop-Balanced :
        (s : ℕ) (rest : List ℕ)
        → Balanced c (at t (dropping (s ∷ rest)) ∷ [])
        → Balanced
            (record c {
              heap = if is_condition (c.heap.node t.node).typ then c.heap else Node.deref c.heap s;
            })
            (at t (dropping rest) ∷ [])
    unfolding Node.deref
    drop-Balanced s rest b = ground arith

    scan-Balanced :
        (n : ℕ) (rest cand : List ℕ)
        → Balanced c (at t (scanning (n ∷ rest) cand) ∷ [])
        → Balanced
            (record c { heap = (scan_one c.heap n cand).1 })
            (at t (scanning rest (scan_one c.heap n cand).0) ∷ [])
    unfolding scan_one
    scan-Balanced n rest cand b = ground arith

  -- A step that is not the setup of a graph keeps the count of the references.
  pub act-Counts :
      (i : Input) (c : Core 𝓠 𝓢) (t : Thread) (others : ℕ) (pc : Pc)
      → IsFlat c.heap
      → (in_graph pc ≡ true → t.node ≡ nil)
      → is_setting pc ≡ false
      → Balanced c t others c (at t pc ∷ [])
      → Ensures 𝓠 𝓢 (Balanced c t others) (act 𝓠 𝓢 i c t pc)
  unfolding act
  act-Counts i c t others opening flat root calm b = b
  act-Counts i c t others checking flat root calm b = ground arith
  act-Counts i c t others marking flat root calm b = b
  act-Counts i c t others handling flat root calm b =
      handle-Balanced c t others i (c.heap.node t.node).ptr (flat t.node) b
  act-Counts i c t others finishing flat root calm b = b
  act-Counts i c t others (choosing choice) flat root calm b =
      choose-Balanced c t others choice (c.heap.node t.node).ptr b
  act-Counts i c t others recovering flat root calm b =
      recover-Balanced c t others (c.heap.node t.node).ptr b
  act-Counts i c t others (closing ok) flat root calm b =
      after_close-Balanced c t others (close_span c.obs t.span ok i.now) ok (c.heap.node t.node).ptr
        (flat t.node) b
  act-Counts i c t others (setting_up h pg) flat root calm b = absurd (cc)
  act-Counts i c t others (scheduling [] k) flat root calm b = resume-Balanced c t others k b
  act-Counts i c t others (scheduling (n ∷ rest) k) flat root calm b =
      schedule_one-Balanced c t others n rest k b
  act-Counts i c t others (putting n rest k) flat root calm b =
      if_both (Ensures 𝓠 𝓢 (Balanced c t others)) c.mu tt (put-Balanced c t others n rest k b)
  act-Counts i c t others (looping h pg) flat root calm b =
      if_both (Ensures 𝓠 𝓢 (Balanced c t others)) c.mu tt
        (if_both (Ensures 𝓠 𝓢 (Balanced c t others)) (may_go_on 𝓠 𝓢 c h) b tt)
  act-Counts i c t others (deciding h pg) flat root calm b =
      if_both (Ensures 𝓠 𝓢 (Balanced c t others)) (is_over 𝓠 𝓢 c.heap h) b
        (invoke_node-Balanced c t others h pg b)
  act-Counts i c t others (leaving h pg) flat root calm b =
      leave-Balanced c t others h pg (root refl) b
  act-Counts i c t others (dropping []) flat root calm b =
      after_drop-Balanced c t others (c.heap.node t.node).ptr b
  act-Counts i c t others (dropping (s ∷ rest)) flat root calm b = drop-Balanced c t others s rest b
  act-Counts i c t others (scanning [] cand) flat root calm b = b
  act-Counts i c t others (scanning (n ∷ rest) cand) flat root calm b =
      scan-Balanced c t others n rest cand b
  act-Counts i c t others (resetting cand) flat root calm b = rw (setup-graph c.heap t.node) b
  act-Counts i c t others dereffing flat root calm b =
      deref-Balanced c t others (c.heap.node t.node).ptr b
  act-Counts i c t others restoring flat root calm b = rw (setup-graph c.heap t.node) b
  act-Counts i c t others ending flat root calm b =
      if_both (Ensures 𝓠 𝓢 (Balanced c t others)) (c.wg == 0) b b
  act-Counts i c t others overdrawn flat root calm b = tt
  act-Counts i c t others ended flat root calm b = tt
  act-Counts i c t others (crashed k) flat root calm b = tt
