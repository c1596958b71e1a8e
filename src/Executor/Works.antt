-- ===== src/Executor/Works.antt =====
-- What a step does to the work that is left for the caller and to the end of its loop.
use mathlib.Core.Path.{subst}
use go_taskflow.Base.{
  ℕ, ◌≡◌, ◌≢◌, refl, sym, ap, ◌∙◌, List, [], ◌∷◌, true, false, Bool-cases, inl, inr, arith, Option,
  none, some, All, total, length,
}
use go_taskflow.Memory.{Heap, nil}
use go_taskflow.Queue.{Queue}
use go_taskflow.Sort.{Sort}
use go_taskflow.Executor.Goroutine.{
  Pc, checking, handling, choosing, closing, scheduling, putting, looping, deciding, leaving,
  dropping, scanning, dereffing, ending, ended, overdrawn, crashed, Thread, at, Input,
}
use go_taskflow.Executor.Act.{
  Core, act, Ensures, is_over, may_go_on, schedule_one, leave, invoke_node,
}
use go_taskflow.Executor.Handlers.{resume, nil_panic}
use go_taskflow.Executor.Homes.{IsAtHome}
use go_taskflow.Executor.Within.{decides_at, has_left, decides, HasWork, IsOver}
use go_taskflow.Executor.Callers.{
  handle-decides, choose-decides, after_close-decides, after_drop-decides, after_deref-decides,
}

module _ (𝓠 : Queue ℕ) (𝓢 : Sort) where
  never_decides : {pc : Pc} (k pg : ℕ) → decides_at pc ≡ 0 → pc ≡ deciding k pg → ⊥
  never_decides k pg e at =
      let one : ◌≡◌ {A = ℕ} 1 0 = sym (ap decides_at at) ∙ e in absurd (omega arith)

  -- Where a step comes to hold `e.mu`, the graph is over or the queue has a node.
  abbrev pub Works : Core 𝓠 𝓢 → List Thread → Type 0
  Works d new = All (HasWork 𝓠 𝓢 d) new

  pub idle-Works : (d : Core 𝓠 𝓢) (l : List Thread) → total decides l ≡ 0 → Works d l
  idle-Works d [] e = tt
  idle-Works d (t ∷ l) e =
      ((λ k pg at over. absurd (never_decides k pg (omega arith) at)), idle-Works d l (omega arith))

  may_go_on-full :
      (c : Core 𝓠 𝓢) (k : ℕ)
      → may_go_on 𝓠 𝓢 c k ≡ true
      → is_over 𝓠 𝓢 c.heap k ≡ false
      → 𝓠.contents c.wq ≢ []
  unfolding may_go_on
  may_go_on-full c k on over empty =
      let none_left : 𝓠.len c.wq ≡ 0 = 𝓠.len-eq c.wq ∙ ap length empty in absurd (ground arith)

  invoke_node-Works :
      (c : Core 𝓠 𝓢) (t : Thread) (k pg : ℕ)
      → let (d, new) = invoke_node 𝓠 𝓢 c t k pg in Works d new
  unfolding invoke_node
  invoke_node-Works c t k pg = go (𝓠.pop c.wq) refl
    where
      go :
          (o : Option (ℕ × 𝓠.Carrier))
          → 𝓠.pop c.wq ≡ o
          → let (d, new) = invoke_node 𝓠 𝓢 c t k pg in Works d new
      go none e = rw (e, invoke_node) ((λ j pj at over. absurd cc), tt)
      go (some (n, q)) e =
          rw (e, invoke_node) ((λ j pj at over. absurd cc), ((λ j pj at over. absurd cc), tt))

  pub act-Works :
      (i : Input) (c : Core 𝓠 𝓢) (t : Thread) (pc : Pc) → Ensures 𝓠 𝓢 Works (act 𝓠 𝓢 i c t pc)
  unfolding act schedule_one leave resume nil_panic invoke_node
  act-Works i c t (looping k pg) = elim (Bool-cases c.mu) [
    | inl m ↦ rw m tt
    | inr m ↦ elim (Bool-cases (may_go_on 𝓠 𝓢 c k)) [
      | inl e ↦
          rw (m, e)
            (
              (λ j pj at over.
                  let same : k ≡ j = cc in
                  may_go_on-full c k e (subst (λ x. is_over 𝓠 𝓢 c.heap x ≡ false) (sym same) over)),
              tt,
            )
      | inr e ↦ rw (m, e) tt
    ]
  ]
  act-Works i c t (deciding k pg) = elim (Bool-cases (is_over 𝓠 𝓢 c.heap k)) [
    | inl e ↦ rw e ((λ j pj at over. absurd cc), tt)
    | inr e ↦ rw e (invoke_node-Works c t k pg)
  ]
  act-Works i c t handling = (
    λ j pj e over. absurd (
        never_decides j pj
          (omega (arith, handle-decides 𝓠 𝓢 t c.heap t.node (c.heap.node t.node).ptr i)) e),
    tt,
  )
  act-Works i c t (choosing choice) = (
    λ j pj e over. absurd (
        never_decides j pj
          (omega (arith, choose-decides 𝓠 𝓢 t c.heap t.node (c.heap.node t.node).ptr choice)) e),
    tt,
  )
  act-Works i c t (closing ok) = (
    λ j pj e over. absurd (
        never_decides j pj
          (omega (arith, after_close-decides 𝓠 𝓢 t c.heap t.node (c.heap.node t.node).ptr)) e),
    tt,
  )
  act-Works i c t dereffing = (
    λ j pj e over.
        absurd (
          never_decides j pj (omega (arith, after_deref-decides 𝓠 𝓢 t (c.heap.node t.node).ptr)) e),
    tt,
  )
  act-Works i c t (dropping []) = (
    λ j pj e over. absurd (
        never_decides j pj
          (omega (arith, after_drop-decides 𝓠 𝓢 t c.heap t.node (c.heap.node t.node).ptr)) e),
    tt,
  )
  act-Works i c t ending = ground arith
  act-Works i c t (scheduling [] k) =
      (λ j pj e over. absurd (never_decides j pj (ground arith) e), tt)
  act-Works i c t (scheduling (n ∷ rest) k) =
      (λ j pj e over. absurd (never_decides j pj (ground arith) e), tt)
  act-Works i c t (putting n rest k) = ground arith
  act-Works i c t (leaving k pg) = (λ j pj e over. absurd (never_decides j pj (ground arith) e), tt)
  act-Works i c t (dropping (s ∷ rest)) =
      (λ j pj e over. absurd (never_decides j pj (omega arith) e), tt)
  act-Works i c t (scanning [] cand) =
      (λ j pj e over. absurd (never_decides j pj (omega arith) e), tt)
  act-Works i c t (scanning (n ∷ rest) cand) =
      (λ j pj e over. absurd (never_decides j pj (omega arith) e), tt)
  act-Works i c t checking = (λ j pj e over. absurd (never_decides j pj (ground arith) e), tt)
  act-Works i c t overdrawn = tt
  act-Works i c t ended = tt
  act-Works i c t (crashed k) = tt
  act-Works i c t _ = (λ j pj e over. absurd (never_decides j pj (omega arith) e), tt)

  invoke_node-IsOver :
      (g : ℕ) (c : Core 𝓠 𝓢) (t : Thread) (k pg : ℕ)
      → let (d, new) = invoke_node 𝓠 𝓢 c t k pg in All (IsOver 𝓠 𝓢 g d.heap) new
  unfolding invoke_node
  invoke_node-IsOver g c t k pg = go (𝓠.pop c.wq) refl
    where
      go :
          (o : Option (ℕ × 𝓠.Carrier))
          → 𝓠.pop c.wq ≡ o
          → let (d, new) = invoke_node 𝓠 𝓢 c t k pg in All (IsOver 𝓠 𝓢 g d.heap) new
      go none e = rw (e, invoke_node) ((λ x. absurd cc), tt)
      go (some (n, q)) e = rw (e, invoke_node) ((λ x. absurd cc), ((λ x. absurd cc), tt))

  leave-IsOver :
      (g : ℕ) (c : Core 𝓠 𝓢) (t : Thread) (k pg : ℕ)
      → is_over 𝓠 𝓢 c.heap g ≡ true
      → let (d, t') = leave 𝓠 𝓢 c t k pg in All (IsOver 𝓠 𝓢 g d.heap) (t' ∷ [])
  unfolding leave
  leave-IsOver g c t k pg over = ground arith

  -- What a step of the caller leaves behind is over if the caller has left the loop.
  pub act-IsOver :
      (h : Heap) (g : ℕ) (i : Input) (c : Core 𝓠 𝓢) (t : Thread) (pc : Pc)
      → t.node ≡ nil
      → IsAtHome h g t.node pc
      → (has_left pc ≡ true → is_over 𝓠 𝓢 c.heap g ≡ true)
      → Ensures 𝓠 𝓢 (λ d new. All (IsOver 𝓠 𝓢 g d.heap) new) (act 𝓠 𝓢 i c t pc)
  unfolding act schedule_one leave resume nil_panic invoke_node
  act-IsOver h g i c t (looping k pg) root m over = ground arith
  act-IsOver h g i c t (deciding k pg) root m over = elim (Bool-cases (is_over 𝓠 𝓢 c.heap k)) [
    | inl e ↦ rw e ((λ x. subst (λ y. is_over 𝓠 𝓢 c.heap y ≡ true) m.1 e), tt)
    | inr e ↦ rw e (invoke_node-IsOver g c t k pg)
  ]
  act-IsOver h g i c t (leaving k pg) root m over = leave-IsOver g c t k pg (over refl)
  act-IsOver h g i c t handling root m over = absurd (m.0 root)
  act-IsOver h g i c t (choosing choice) root m over = absurd (m.0 root)
  act-IsOver h g i c t (closing ok) root m over = absurd (m.0 root)
  act-IsOver h g i c t dereffing root m over = absurd (m.0 root)
  act-IsOver h g i c t (dropping []) root m over = absurd (m.0 root)
  act-IsOver h g i c t ending root m over = ground arith
  act-IsOver h g i c t (scheduling [] k) root m over = ground arith
  act-IsOver h g i c t (scheduling (n ∷ rest) k) root m over = ground arith
  act-IsOver h g i c t (putting n rest k) root m over = ground arith
  act-IsOver h g i c t (dropping (s ∷ rest)) root m over = absurd (m.0 root)
  act-IsOver h g i c t (scanning [] cand) root m over = ((λ e. absurd cc), tt)
  act-IsOver h g i c t (scanning (n ∷ rest) cand) root m over = ((λ e. absurd cc), tt)
  act-IsOver h g i c t checking root m over = ground arith
  act-IsOver h g i c t overdrawn root m over = tt
  act-IsOver h g i c t ended root m over = tt
  act-IsOver h g i c t (crashed k) root m over = tt
  act-IsOver h g i c t _ root m over = ((λ e. absurd cc), tt)
