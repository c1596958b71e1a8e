-- ===== src/Executor/Homed.antt =====
-- Every step of a goroutine at home leaves goroutines at home, and meets no nil pointer.
use mathlib.Core.Path.{subst}
use go_taskflow.Base.{
  All-append, ℕ, ◌≡◌, ◌≢◌, refl, sym, List, [], ◌∷◌, false, Bool-cases, inl, inr, if_both,
  if◌then◌else◌, ◌==◌, arith, All, All-same_count, length, ltb, ◌&&◌, not,
}
use go_taskflow.Memory.{Heap, Ptr, nil, is_idle}
use go_taskflow.Node
use go_taskflow.Queue.{Queue}
use go_taskflow.Sort.{Sort}
use go_taskflow.Executor.Goroutine.{
  After, release, settle, watch, Pc, opening, checking, marking, handling, finishing, choosing,
  recovering, closing, setting_up, scheduling, putting, looping, deciding, leaving, dropping,
  scanning, resetting, dereffing, restoring, ending, ended, overdrawn, crashed, Thread, Input,
}
use go_taskflow.Executor.Handlers.{
  scan_one, choose, handle, is_canceled, after_close, after_drop, after_deref, resume, nil_panic,
}
use go_taskflow.Executor.Act.{
  Core, act, Ensures, schedule_one, invoke_node, leave, may_go_on, is_over,
}
use go_taskflow.Executor.Flat.{IsFlat}
use go_taskflow.Executor.Weights.{is_setting}
use go_taskflow.Executor.Shape.{SameShape}
use go_taskflow.Executor.Homes.{IsMember, IsClosed, MayFollow, Owns, IsAtHome}

module _ (h : Heap) (g : ℕ) (closed : IsClosed h g) where
  choose-IsAtHome :
      (c : Heap) (a : ℕ) (p : Ptr) (choice : ℕ)
      → IsMember h g a
      → p ≡ (h.node a).ptr
      → IsAtHome h g a (choose c a p choice).1
  unfolding choose
  choose-IsAtHome c a Ptr.static choice m e = m
  choose-IsAtHome c a (Ptr.subflow k) choice m e = m
  choose-IsAtHome c a (Ptr.condition ms) choice m e =
      if_both (λ (r : Heap × Pc). IsAtHome h g a r.1) (ltb (length ms) choice) m
        (m, (closed.branches a ms choice m.1 (sym e), tt))

  handle-IsAtHome :
      (c : Heap) (a : ℕ) (p : Ptr) (i : Input)
      → ((k : ℕ) → p ≢ Ptr.subflow k)
      → IsMember h g a
      → IsAtHome h g a (handle c a p i).1
  unfolding handle
  handle-IsAtHome c a Ptr.static i flat m = ground arith
  handle-IsAtHome c a (Ptr.condition ms) i flat m = ground arith
  handle-IsAtHome c a (Ptr.subflow k) i flat m = absurd (flat k refl)

  after_close-IsAtHome :
      (c : Heap) (a : ℕ) (p : Ptr)
      → ((k : ℕ) → p ≢ Ptr.subflow k)
      → IsMember h g a
      → IsAtHome h g a (after_close c a p)
  unfolding after_close
  after_close-IsAtHome c a Ptr.static flat m = m
  after_close-IsAtHome c a (Ptr.condition ms) flat m = m
  after_close-IsAtHome c a (Ptr.subflow k) flat m = absurd (flat k refl)

  after_drop-IsAtHome :
      (c : Heap) (a : ℕ) (p : Ptr)
      → IsMember h g a
      → All (IsMember h g) (c.node a).successors
      → IsAtHome h g a (after_drop c a p)
  unfolding after_drop
  after_drop-IsAtHome c a Ptr.static m ss = (m, ss, tt)
  after_drop-IsAtHome c a (Ptr.condition ms) m ss = m
  after_drop-IsAtHome c a (Ptr.subflow k) m ss = (m, ss, tt)

  after_deref-IsAtHome : (a : ℕ) (p : Ptr) → IsMember h g a → IsAtHome h g a (after_deref p)
  unfolding after_deref
  after_deref-IsAtHome a Ptr.static m = m
  after_deref-IsAtHome a (Ptr.condition ms) m = m
  after_deref-IsAtHome a (Ptr.subflow k) m = m

  resume-IsAtHome : (a : ℕ) (k : After) → Owns h g k a → IsAtHome h g a (resume k)
  unfolding resume
  resume-IsAtHome a release o = o
  resume-IsAtHome a settle o = o
  resume-IsAtHome a (watch k pg) o = o

  nil_panic-IsAtHome :
      (a : ℕ) (k : After) → Owns h g k a → MayFollow h g k nil → IsAtHome h g a (nil_panic k)
  unfolding nil_panic
  nil_panic-IsAtHome a release o f = absurd (f.0 refl)
  nil_panic-IsAtHome a settle o f = o
  nil_panic-IsAtHome a (watch k pg) o f = absurd (f.0 refl)

  putting-IsAtHome :
      (a n : ℕ) (rest : List ℕ) (k : After)
      → n ≢ nil
      → Owns h g k a
      → MayFollow h g k n
      → All (MayFollow h g k) rest
      → IsAtHome h g a (putting n rest k)
  putting-IsAtHome a n rest release real o f r = (f, o, r)
  putting-IsAtHome a n rest settle real o f r = ((real, f real), o, r)
  putting-IsAtHome a n rest (watch k pg) real o f r = (f, o, r)

  module _ (𝓠 : Queue ℕ) (𝓢 : Sort) where
    -- The goroutines that a step leaves are at home, and so is what is queued.
    abbrev pub Homed : Core 𝓠 𝓢 → List Thread → Type 0
    Homed d new = All (λ t. IsAtHome h g t.node t.pc) new × All (IsMember h g) (𝓠.contents d.wq)

    schedule_one-Homed :
        (c : Core 𝓠 𝓢) (t : Thread) (n : ℕ) (rest : List ℕ) (k : After)
        → Owns h g k t.node
        → MayFollow h g k n
        → All (MayFollow h g k) rest
        → All (IsMember h g) (𝓠.contents c.wq)
        → let (d, t') = schedule_one 𝓠 𝓢 c t n rest k in Homed d (t' ∷ [])
    unfolding schedule_one
    schedule_one-Homed c t n rest k o f r q = elim (Bool-cases (n == nil)) [
      | inl e ↦
          let none_left : n ≡ nil = ground arith in
          rw e ((nil_panic-IsAtHome t.node k o (subst (MayFollow h g k) none_left f), tt), q)
      | inr e ↦ rw e (
          if_both (λ (p : Core 𝓠 𝓢 × Thread). Homed p.0 (p.1 ∷ [])) (is_canceled c.heap n)
            ((resume-IsAtHome t.node k o, tt), q)
            ((putting-IsAtHome t.node n rest k (ground arith) o f r, tt), q))
    ]

    invoke_node-Homed :
        (c : Core 𝓠 𝓢) (t : Thread) (k pg : ℕ)
        → (t.node ≡ nil) × (k ≡ g)
        → 𝓠.contents c.wq ≢ []
        → All (IsMember h g) (𝓠.contents c.wq)
        → let (d, new) = invoke_node 𝓠 𝓢 c t k pg in Homed d new
    unfolding invoke_node
    invoke_node-Homed c t k pg o full q = go (𝓠.contents c.wq) refl q
      where
        go :
            (l : List ℕ)
            → 𝓠.contents c.wq ≡ l
            → All (IsMember h g) l
            → let (d, new) = invoke_node 𝓠 𝓢 c t k pg in Homed d new
        go [] e m = absurd (full e)
        go (n ∷ l) e m =
            let (r, pops, rest) = 𝓠.pop-cons c.wq n l e in
            rw (pops, invoke_node) ((o, (m.0, tt)), subst (All (IsMember h g)) (sym rest) m.1)

    leave-Homed :
        (c : Core 𝓠 𝓢) (t : Thread) (k pg : ℕ)
        → t.node ≡ nil
        → All (IsMember h g) (𝓠.contents c.wq)
        → let (d, t') = leave 𝓠 𝓢 c t k pg in Homed d (t' ∷ [])
    unfolding leave
    leave-Homed c t k pg e q =
        let here : ended
            ≡ (if t.node == nil then ended else dropping (c.heap.node t.node).successors) =
          ground arith in
        (
          (subst (IsAtHome h g t.node) here e, tt),
          if_both (λ (d : Core 𝓠 𝓢). All (IsMember h g) (𝓠.contents d.wq))
              ((c.heap.graph k).canceled && not (pg == nil)) q q,
        )

    -- The sorted nodes are those that were to be sorted.
    by_priority-IsMember :
        (key : ℕ → ℕ) (l : List ℕ) → All (IsMember h g) l → All (IsMember h g) (𝓢.sort key l)
    by_priority-IsMember key l m =
        All-same_count (IsMember h g) l (𝓢.sort key l) (𝓢.count-sort key l) m

    scan_one-cand :
        (c : Heap) (n : ℕ) (cand : List ℕ)
        → IsMember h g n
        → All (IsMember h g) cand
        → All (IsMember h g) (scan_one c n cand).0
    unfolding scan_one
    scan_one-cand c n cand m ms =
        if_both (λ (r : List ℕ × Heap). All (IsMember h g) r.0)
          (Node.recyclable (c.node n) && is_idle (c.node n).state)
          (All-append (IsMember h g) cand (n ∷ []) ms (m, tt)) ms

    module _ (c : Core 𝓠 𝓢) (shape : SameShape h c.heap) (flat : IsFlat c.heap)
        (queued : All (IsMember h g) (𝓠.contents c.wq)) where
      same_successors : (a : ℕ) → IsMember h g a → All (IsMember h g) (c.heap.node a).successors
      same_successors a m =
          subst (All (IsMember h g)) (ground (arith, shape.node a)) (closed.successors a m.1)

      same_ptr : (a : ℕ) → (c.heap.node a).ptr ≡ (h.node a).ptr
      same_ptr a = ground (arith, shape.node a)

      -- Every step of a goroutine at home leaves goroutines at home, if `Pop` and `Done` do not
      -- panic in it.
      pub act-Homed :
          (i : Input) (t : Thread) (pc : Pc)
          → IsAtHome h g t.node pc
          → is_setting pc ≡ false
          → (pc ≡ ending → c.wg ≢ 0)
          → ((k pg : ℕ) → pc ≡ deciding k pg → is_over 𝓠 𝓢 c.heap k ≡ false → 𝓠.contents c.wq ≢ [])
          → Ensures 𝓠 𝓢 Homed (act 𝓠 𝓢 i c t pc)
      unfolding act
      act-Homed i t opening m calm done full = ((m, tt), queued)
      act-Homed i t checking m calm done full =
          ((if_both (IsAtHome h g t.node) (is_canceled c.heap t.node) m m, tt), queued)
      act-Homed i t marking m calm done full = ((m, tt), queued)
      act-Homed i t handling m calm done full =
          ((handle-IsAtHome c.heap t.node (c.heap.node t.node).ptr i (flat t.node) m, tt), queued)
      act-Homed i t finishing m calm done full = ((m, tt), queued)
      act-Homed i t (choosing choice) m calm done full = (
        (choose-IsAtHome c.heap t.node (c.heap.node t.node).ptr choice m (same_ptr t.node), tt),
        queued,
      )
      act-Homed i t recovering m calm done full = ((m, tt), queued)
      act-Homed i t (closing ok) m calm done full = (
        (after_close-IsAtHome c.heap t.node (c.heap.node t.node).ptr (flat t.node) m, tt),
        queued,
      )
      act-Homed i t (setting_up k pg) m calm done full = absurd cc
      act-Homed i t (scheduling [] k) m calm done full =
          ((resume-IsAtHome t.node k m.0, tt), queued)
      act-Homed i t (scheduling (n ∷ rest) k) m calm done full =
          schedule_one-Homed c t n rest k m.0 m.1.0 m.1.1 queued
      act-Homed i t (putting n rest k) m calm done full = if_both (Ensures 𝓠 𝓢 Homed) c.mu tt (
        ((m.1, m.2), tt),
        subst (All (IsMember h g)) (sym (𝓠.contents-put n c.wq))
            (All-append (IsMember h g) (𝓠.contents c.wq) (n ∷ []) queued (m.0, tt)),
      )
      act-Homed i t (looping k pg) m calm done full =
          if_both (Ensures 𝓠 𝓢 Homed) c.mu tt
            (if_both (Ensures 𝓠 𝓢 Homed) (may_go_on 𝓠 𝓢 c k) ((m, tt), queued) tt)
      act-Homed i t (deciding k pg) m calm done full = elim (Bool-cases (is_over 𝓠 𝓢 c.heap k)) [
        | inl e ↦ rw e ((m, tt), queued)
        | inr e ↦ rw e (invoke_node-Homed c t k pg m (full k pg refl e) queued)
      ]
      act-Homed i t (leaving k pg) m calm done full = leave-Homed c t k pg m.0 queued
      act-Homed i t (dropping []) m calm done full = (
        (
          after_drop-IsAtHome c.heap t.node (c.heap.node t.node).ptr m (same_successors t.node m),
          tt,
        ),
        queued,
      )
      act-Homed i t (dropping (s ∷ rest)) m calm done full = ((m, tt), queued)
      act-Homed i t (scanning [] cand) m calm done full = (((m.0, m.2), tt), queued)
      act-Homed i t (scanning (n ∷ rest) cand) m calm done full =
          (((m.0, m.1.1, scan_one-cand c.heap n cand m.1.0 m.2), tt), queued)
      act-Homed i t (resetting cand) m calm done full =
          (((m.0, by_priority-IsMember _ cand m.1), tt), queued)
      act-Homed i t dereffing m calm done full =
          ((after_deref-IsAtHome t.node (c.heap.node t.node).ptr m, tt), queued)
      act-Homed i t restoring m calm done full = ((m, tt), queued)
      act-Homed i t ending m calm done full = elim (Bool-cases (c.wg == 0)) [
        | inl e ↦ absurd (done refl (ground arith))
        | inr e ↦ rw e (tt, queued)
      ]
      act-Homed i t overdrawn m calm done full = tt
      act-Homed i t ended m calm done full = tt
      act-Homed i t (crashed k) m calm done full = tt
