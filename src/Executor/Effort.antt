-- ===== src/Executor/Effort.antt =====
-- How many steps a goroutine of a static task, and the caller of `Run`, can still take.
use go_taskflow.Base.{
  ℕ, ◌+◌, ◌*◌, ◌≤◌, ◌≡◌, refl, List, [], ◌∷◌, true, arith, if_both, Option, none, some, total,
  length, length-append, length-same_count, ◌==◌,
}
use go_taskflow.Memory.{Heap, Ptr}
use go_taskflow.Queue.{Queue}
use go_taskflow.Sort.{Sort}
use go_taskflow.Executor.Goroutine.{
  After, release, settle, watch, Pc, opening, checking, marking, handling, finishing, choosing,
  recovering, closing, setting_up, scheduling, putting, looping, deciding, leaving, dropping,
  scanning, resetting, dereffing, restoring, ending, ended, overdrawn, crashed, Thread, at, Input,
  Reply,
}
use go_taskflow.Executor.Handlers.{
  handle, recover, after_close, after_drop, after_deref, resume, nil_panic, scan_one,
}
use go_taskflow.Executor.Act.{
  Core, act, Ensures, schedule_one, invoke_node, leave, may_go_on, is_over,
}
use go_taskflow.Executor.Shape.{SameShape}
use go_taskflow.Executor.Homes.{IsAtHome}
use go_taskflow.Executor.Ledger.{is_plain, started}
use go_taskflow.Executor.Static.{IsStatic, succ_eq, ptr_eq}

module _ (h : Heap) where
  abbrev degree : ℕ → ℕ
  degree a = length (h.node a).successors

  -- The steps that are left at a point, for the goroutine of node `a`.
  abbrev pub steps_at : ℕ → Pc → ℕ
  steps_at a opening = 4 * degree a + 13
  steps_at a checking = 4 * degree a + 12
  steps_at a marking = 4 * degree a + 11
  steps_at a handling = 4 * degree a + 10
  steps_at a finishing = 4 * degree a + 9
  steps_at a recovering = 4 * degree a + 9
  steps_at a (closing ok) = 4 * degree a + 8
  steps_at a (dropping rest) = length rest + 3 * degree a + 7
  steps_at a (scanning rest cand) = 3 * length rest + 2 * length cand + 6
  steps_at a (resetting cand) = 2 * length cand + 5
  steps_at a (putting n rest k) = 2 * length rest + 5
  steps_at a (scheduling rest k) = 2 * length rest + 4
  steps_at a (looping k pg) = 3
  steps_at a (deciding k pg) = 2
  steps_at a (leaving k pg) = 1
  steps_at a dereffing = 2
  steps_at a ending = 1
  steps_at a _ = 0

  abbrev pub effort : Thread → ℕ
  effort t = steps_at t.node t.pc

  -- A task from `Pop` to its end.
  abbrev pub cost : ℕ → ℕ
  cost a = 4 * degree a + 15

module _ (𝓠 : Queue ℕ) (𝓢 : Sort) (h : Heap) (g : ℕ) where
  -- A step takes one off, where what it starts is paid for.
  abbrev pub Spends : Thread → Pc → Core 𝓠 𝓢 → List Thread → Type 0
  Spends t pc d new = total (effort h) new + 1 ≤ steps_at h t.node pc + total (cost h) (started new)

  schedule_one-Spends :
      (c : Core 𝓠 𝓢) (t : Thread) (n : ℕ) (rest : List ℕ) (k : After)
      → is_plain (scheduling (n ∷ rest) k) ≡ true
      → let (d, r) = schedule_one 𝓠 𝓢 c t n rest k in Spends t (scheduling (n ∷ rest) k) d (r ∷ [])
  unfolding schedule_one resume nil_panic
  schedule_one-Spends c t n rest release p = ground arith
  schedule_one-Spends c t n rest settle p = absurd cc
  schedule_one-Spends c t n rest (watch k pg) p = ground arith

  invoke_node-Spends :
      (c : Core 𝓠 𝓢) (t : Thread) (k pg : ℕ)
      → let (d, new) = invoke_node 𝓠 𝓢 c t k pg in Spends t (deciding k pg) d new
  unfolding invoke_node
  invoke_node-Spends c t k pg = split (𝓠.pop c.wq) refl
    where
      split :
          (o : Option (ℕ × 𝓠.Carrier))
          → 𝓠.pop c.wq ≡ o
          → let (d, new) = invoke_node 𝓠 𝓢 c t k pg in Spends t (deciding k pg) d new
      split none e = rw (e, invoke_node) (omega arith)
      split (some (n, q)) e = rw (e, invoke_node) (omega arith)

  handle-Spends :
      (c : Core 𝓠 𝓢) (t : Thread) (i : Input) (r : Reply)
      → let (h', pc) = handle c.heap t.node Ptr.static (record i { reply = r }) in
        Spends t handling c (at t pc ∷ [])
  unfolding handle
  handle-Spends c t i Reply.returned = omega arith
  handle-Spends c t i (Reply.chose k) = omega arith
  handle-Spends c t i Reply.panicked = omega arith

  pub act-Spends :
      (i : Input) (c : Core 𝓠 𝓢) (t : Thread) (pc : Pc)
      → SameShape h c.heap
      → IsStatic h
      → IsAtHome h g t.node pc
      → is_plain pc ≡ true
      → Ensures 𝓠 𝓢 (Spends t pc) (act 𝓠 𝓢 i c t pc)
  unfolding act after_close after_drop recover after_deref resume leave scan_one
  act-Spends i c t opening same st home plain = omega arith
  act-Spends i c t checking same st home plain = ground arith
  act-Spends i c t marking same st home plain = omega arith
  act-Spends i c t handling same st home plain =
      rw (ptr_eq h c.heap same st t.node) (handle-Spends c t i i.reply)
  act-Spends i c t finishing same st home plain = omega arith
  act-Spends i c t (choosing choice) same st home plain = absurd cc
  act-Spends i c t recovering same st home plain = omega arith
  act-Spends i c t (closing ok) same st home plain =
      rw (ptr_eq h c.heap same st t.node, succ_eq h c.heap same st t.node) (omega arith)
  act-Spends i c t (setting_up k pg) same st home plain = absurd cc
  act-Spends i c t (scheduling [] release) same st home plain = omega arith
  act-Spends i c t (scheduling [] settle) same st home plain = absurd cc
  act-Spends i c t (scheduling [] (watch k pg)) same st home plain = omega arith
  act-Spends i c t (scheduling (n ∷ rest) k) same st home plain =
      schedule_one-Spends c t n rest k plain
  act-Spends i c t (putting n rest k) same st home plain =
      if_both (Ensures 𝓠 𝓢 (Spends t (putting n rest k))) c.mu tt (omega arith)
  act-Spends i c t (looping k pg) same st home plain =
      if_both (Ensures 𝓠 𝓢 (Spends t (looping k pg))) c.mu tt
        (if_both (Ensures 𝓠 𝓢 (Spends t (looping k pg))) (may_go_on 𝓠 𝓢 c k) (omega arith) tt)
  act-Spends i c t (deciding k pg) same st home plain =
      if_both (Ensures 𝓠 𝓢 (Spends t (deciding k pg))) (is_over 𝓠 𝓢 c.heap k) (omega arith)
        (invoke_node-Spends c t k pg)
  act-Spends i c t (leaving k pg) same st home plain = rw home.0 (omega arith)
  act-Spends i c t (dropping []) same st home plain =
      rw (ptr_eq h c.heap same st t.node, succ_eq h c.heap same st t.node) (omega arith)
  act-Spends i c t (dropping (s ∷ rest)) same st home plain = omega arith
  act-Spends i c t (scanning [] cand) same st home plain = omega arith
  act-Spends i c t (scanning (n ∷ rest) cand) same st home plain =
      ground (arith, length-append cand (n ∷ []))
  act-Spends i c t (resetting cand) same st home plain =
      let key : ℕ → ℕ = λ a. (c.heap.node a).priority in
      omega (arith, length-same_count (𝓢.sort key cand) cand (𝓢.count-sort key cand))
  act-Spends i c t dereffing same st home plain = rw (ptr_eq h c.heap same st t.node) (omega arith)
  act-Spends i c t restoring same st home plain = absurd cc
  act-Spends i c t ending same st home plain =
      if_both (Ensures 𝓠 𝓢 (Spends t ending)) (c.wg == 0) (omega arith) (omega arith)
  act-Spends i c t overdrawn same st home plain = tt
  act-Spends i c t ended same st home plain = tt
  act-Spends i c t (crashed k) same st home plain = tt
