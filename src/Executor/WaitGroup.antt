-- ===== src/Executor/WaitGroup.antt =====
-- The counter of `wg` across one step.
use go_taskflow.Base.{
  ℕ, ◌+◌, ◌≡◌, ◌≢◌, refl, List, [], ◌∷◌, true, if_both, arith, Option, none, some, total, length,
  length-append,
}
use go_taskflow.Memory.{Heap, Ptr, nil}
use go_taskflow.Queue.{Queue, contents-pop}
use go_taskflow.Sort.{Sort}
use go_taskflow.Executor.Goroutine.{
  After, release, settle, watch, Pc, opening, checking, marking, handling, finishing, choosing,
  recovering, closing, setting_up, scheduling, putting, looping, deciding, leaving, dropping,
  scanning, resetting, dereffing, restoring, ending, ended, overdrawn, crashed, Thread, at, Input,
}
use go_taskflow.Executor.Handlers.{
  choose, handle, after_close, after_drop, after_deref, resume, nil_panic,
}
use go_taskflow.Executor.Act.{
  Core, act, Ensures, schedule_one, invoke_node, leave, may_go_on, is_over,
}
use go_taskflow.Executor.Flat.{IsFlat}
use go_taskflow.Executor.Weights.{units, in_graph}

module _ (𝓠 : Queue ℕ) (𝓢 : Sort) where
  -- The counter is the number of the queued nodes and of the units that the goroutines account
  -- for, `n` in all.
  abbrev pub Waits : Core 𝓠 𝓢 → ℕ → Type 0
  Waits c n = c.wg ≡ length (𝓠.contents c.wq) + n

  module _ (c : Core 𝓠 𝓢) (t : Thread) (others : ℕ) where
    abbrev Even : Core 𝓠 𝓢 → List Thread → Type 0
    Even c' new = Waits c' (total units new + others)

    schedule_one-Even :
        (n : ℕ) (rest : List ℕ) (k : After)
        → Even c (at t (scheduling (n ∷ rest) k) ∷ [])
        → let (c', t') = schedule_one 𝓠 𝓢 c t n rest k in Even c' (t' ∷ [])
    unfolding schedule_one nil_panic resume
    schedule_one-Even n rest release b = ground arith
    schedule_one-Even n rest settle b = ground arith
    schedule_one-Even n rest (watch h pg) b = ground arith

    invoke_node-Even :
        (h pg : ℕ)
        → Even c (at t (deciding h pg) ∷ [])
        → let (c', new) = invoke_node 𝓠 𝓢 c t h pg in Even c' new
    unfolding invoke_node
    invoke_node-Even h pg b = split (𝓠.pop c.wq) refl
      where
        split :
            (o : Option (ℕ × 𝓠.Carrier))
            → 𝓠.pop c.wq ≡ o
            → let (c', new) = invoke_node 𝓠 𝓢 c t h pg in Even c' new
        split none e = ground arith
        split (some (n, q)) e = ground (arith, contents-pop 𝓠 c.wq n q e)

    leave-Even :
        (h pg : ℕ)
        → t.node ≡ nil
        → Even c (at t (leaving h pg) ∷ [])
        → let (c', t') = leave 𝓠 𝓢 c t h pg in Even c' (t' ∷ [])
    unfolding leave
    leave-Even h pg root b = ground arith

    -- The program points that a handler goes on to count like the one that it leaves.
    same_units :
        (pc pc' : Pc)
        → units (at t pc) ≡ units (at t pc')
        → Even c (at t pc ∷ [])
        → Even c (at t pc' ∷ [])
    same_units pc pc' e b = ground arith

  choose-units :
      (t : Thread) (h : Heap) (a : ℕ) (p : Ptr) (choice : ℕ)
      → 1 ≡ units (at t (choose h a p choice).1)
  unfolding choose
  choose-units t h a p choice = ground arith

  handle-units :
      (t : Thread) (h : Heap) (a : ℕ) (p : Ptr) (i : Input)
      → ((k : ℕ) → p ≢ Ptr.subflow k)
      → 1 ≡ units (at t (handle h a p i).1)
  unfolding handle
  handle-units t h a Ptr.static i flat = ground arith
  handle-units t h a (Ptr.condition m) i flat = ground arith
  handle-units t h a (Ptr.subflow k) i flat = absurd (flat k refl)

  after_close-units :
      (t : Thread) (h : Heap) (a : ℕ) (p : Ptr)
      → ((k : ℕ) → p ≢ Ptr.subflow k)
      → 1 ≡ units (at t (after_close h a p))
  unfolding after_close
  after_close-units t h a Ptr.static flat = refl
  after_close-units t h a (Ptr.condition m) flat = refl
  after_close-units t h a (Ptr.subflow k) flat = absurd (flat k refl)

  after_drop-units : (t : Thread) (h : Heap) (a : ℕ) (p : Ptr) → 1 ≡ units (at t (after_drop h a p))
  unfolding after_drop
  after_drop-units t h a p = ground arith

  resume-units : (t : Thread) (k : After) → units (at t (scheduling [] k)) ≡ units (at t (resume k))
  unfolding resume
  resume-units t k = ground arith

  after_deref-units : (t : Thread) (p : Ptr) → 1 ≡ units (at t (after_deref p))
  unfolding after_deref
  after_deref-units t p = ground arith

  -- Every step keeps the count of the units.
  pub act-Waits :
      (i : Input) (c : Core 𝓠 𝓢) (t : Thread) (others : ℕ) (pc : Pc)
      → IsFlat c.heap
      → (in_graph pc ≡ true → t.node ≡ nil)
      → Even c t others c (at t pc ∷ [])
      → Ensures 𝓠 𝓢 (Even c t others) (act 𝓠 𝓢 i c t pc)
  unfolding act
  act-Waits i c t others opening flat root b = b
  act-Waits i c t others checking flat root b = ground arith
  act-Waits i c t others marking flat root b = b
  act-Waits i c t others handling flat root b =
      same_units c t others handling _
        (handle-units t c.heap t.node (c.heap.node t.node).ptr i (flat t.node)) b
  act-Waits i c t others finishing flat root b = b
  act-Waits i c t others (choosing choice) flat root b =
      same_units c t others (choosing choice) _
        (choose-units t c.heap t.node (c.heap.node t.node).ptr choice) b
  act-Waits i c t others recovering flat root b = b
  act-Waits i c t others (closing ok) flat root b =
      same_units c t others (closing ok) _
        (after_close-units t c.heap t.node (c.heap.node t.node).ptr (flat t.node)) b
  act-Waits i c t others (setting_up h pg) flat root b = b
  act-Waits i c t others (scheduling [] k) flat root b =
      same_units c t others (scheduling [] k) _ (resume-units t k) b
  act-Waits i c t others (scheduling (n ∷ rest) k) flat root b =
      schedule_one-Even c t others n rest k b
  act-Waits i c t others (putting n rest k) flat root b =
      if_both (Ensures 𝓠 𝓢 (Even c t others)) c.mu tt
        (ground (arith, 𝓠.contents-put n c.wq, length-append (𝓠.contents c.wq) (n ∷ [])))
  act-Waits i c t others (looping h pg) flat root b =
      if_both (Ensures 𝓠 𝓢 (Even c t others)) c.mu tt
        (if_both (Ensures 𝓠 𝓢 (Even c t others)) (may_go_on 𝓠 𝓢 c h) b tt)
  act-Waits i c t others (deciding h pg) flat root b =
      if_both (Ensures 𝓠 𝓢 (Even c t others)) (is_over 𝓠 𝓢 c.heap h) b
        (invoke_node-Even c t others h pg b)
  act-Waits i c t others (leaving h pg) flat root b = leave-Even c t others h pg (root refl) b
  act-Waits i c t others (dropping []) flat root b =
      same_units c t others (dropping []) _
        (after_drop-units t c.heap t.node (c.heap.node t.node).ptr) b
  act-Waits i c t others (dropping (s ∷ rest)) flat root b = b
  act-Waits i c t others (scanning [] cand) flat root b = b
  act-Waits i c t others (scanning (n ∷ rest) cand) flat root b = b
  act-Waits i c t others (resetting cand) flat root b = b
  act-Waits i c t others dereffing flat root b =
      same_units c t others dereffing _ (after_deref-units t (c.heap.node t.node).ptr) b
  act-Waits i c t others restoring flat root b = b
  act-Waits i c t others ending flat root b = ground arith
  act-Waits i c t others overdrawn flat root b = tt
  act-Waits i c t others ended flat root b = tt
  act-Waits i c t others (crashed k) flat root b = tt
