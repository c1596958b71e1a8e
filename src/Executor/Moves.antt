-- ===== src/Executor/Moves.antt =====
-- One step of a goroutine of a static task, or of the caller of `Run`, as a change of the ledger of
-- each node.
use go_taskflow.Base.{
  ℕ, ap, ◌≤◌, ◌≡◌, ◌≢◌, refl, List, [], ◌∷◌, true, false, ◌&&◌, ◌==◌, arith, if_both, Option, none,
  some, count, count-append, Bool-cases, inl, inr,
}
use go_taskflow.Memory.{Heap, Ptr, nil, is_idle, NodeState}
use go_taskflow.Node
use go_taskflow.Graph
use go_taskflow.Queue.{Queue, contents-pop}
use go_taskflow.Sort.{Sort}
use go_taskflow.Node.Counters.{setup-eq}
use go_taskflow.Memory.Writes.{CountersFit}
use go_taskflow.Executor.Goroutine.{
  After, release, settle, watch, Pc, opening, checking, marking, handling, finishing, choosing,
  recovering, closing, setting_up, scheduling, putting, looping, deciding, leaving, dropping,
  scanning, resetting, dereffing, restoring, ending, ended, overdrawn, crashed, Thread, at, Input,
  Reply,
}
use go_taskflow.Executor.Handlers.{
  scan_one, set_state, is_canceled, handle, recover, after_close, after_drop, after_deref, resume,
  nil_panic,
}
use go_taskflow.Executor.Act.{
  Core, act, Ensures, schedule_one, invoke_node, leave, may_go_on, is_over,
}
use go_taskflow.Executor.Shape.{SameShape}
use go_taskflow.Executor.Homes.{IsAtHome}
use go_taskflow.Executor.Ledger.{
  is_plain, ledger, started, owes_at, scans_at, holds_at, before_setup,
}
use go_taskflow.Executor.Static.{
  IsStatic, strong-IsStatic, scheduling-IsMember, succ_eq, ptr_eq, typ_eq, own,
}
use go_taskflow.Executor.Changes.{Move, rests, marks, drops, passes, claims, resets, loses, begins}

module _ (𝓠 : Queue ℕ) (𝓢 : Sort) (h : Heap) (g b : ℕ) where
  abbrev pub Moves : Core 𝓠 𝓢 → Thread → Pc → Core 𝓠 𝓢 → List Thread → Type 0
  Moves c t pc d new =
      Move h g b (c.heap.graph g).canceled (ledger 𝓠 𝓢 h g b c (at t pc ∷ []))
        (ledger 𝓠 𝓢 h g b d new) (started new)

  module _ (c : Core 𝓠 𝓢) (t : Thread) (same : SameShape h c.heap) (st : IsStatic h) where
    -- The goroutine of a node changes the state of the node.
    set_state-Move :
        (s : NodeState) (pc pc' : Pc)
        → is_idle s ≡ false
        → owes_at h b t.node pc' ≡ owes_at h b t.node pc
        → scans_at h b t.node pc' ≡ scans_at h b t.node pc
        → holds_at h b pc' ≡ holds_at h b pc
        → before_setup h b pc ≡ true
        → before_setup h b pc' ≡ true
        → Moves c t pc (record c { heap = set_state c.heap t.node s }) (at t pc' ∷ [])
    set_state-Move s pc pc' e x y z k f = elim (Bool-cases (t.node == b)) [
      | inl own ↦
          marks (ground arith) (omega (arith, z)) (omega (arith, x)) (omega (arith, y))
            (ground arith) (ground arith) (ground arith)
      | inr other ↦
          rests (ground arith) (ground arith) (omega (arith, z)) (omega (arith, x))
            (omega (arith, y)) (ground arith)
    ]

    handle-Move :
        (i : Input)
        → let (h', pc) = handle c.heap t.node (c.heap.node t.node).ptr i in
          Moves c t handling (record c { heap = h' }) (at t pc ∷ [])
    unfolding handle
    handle-Move i = rw (ptr_eq h c.heap same st t.node) (split i.reply)
      where
        split :
            (r : Reply)
            → let (h', pc) = handle c.heap t.node Ptr.static (record i { reply = r }) in
              Moves c t handling (record c { heap = h' }) (at t pc ∷ [])
        split Reply.returned = rests refl refl refl refl refl refl
        split (Reply.chose k) = rests refl refl refl refl refl refl
        split Reply.panicked = rests refl refl refl refl refl refl

    schedule_one-Move :
        (n : ℕ) (rest : List ℕ) (k : After)
        → n ≢ nil
        → (c.heap.node n).g ≡ g
        → is_plain (scheduling rest k) ≡ true
        → let (d, r) = schedule_one 𝓠 𝓢 c t n rest k in
          Moves c t (scheduling (n ∷ rest) k) d (r ∷ [])
    unfolding schedule_one Graph.ref resume nil_panic
    schedule_one-Move n rest k real home plain = elim (Bool-cases (is_canceled c.heap n)) [
      | inl gone ↦
          loses (ground arith) (ground arith) (ground arith) (ground arith) (ground arith)
            (ground arith) (ground arith)
      | inr live ↦
          rests (ground arith) (ground arith) (ground arith) (ground arith) (ground arith)
            (ground arith)
    ]

    invoke_node-Move :
        (k pg : ℕ) → let (d, new) = invoke_node 𝓠 𝓢 c t k pg in Moves c t (deciding k pg) d new
    unfolding invoke_node
    invoke_node-Move k pg = split (𝓠.pop c.wq) refl
      where
        split :
            (o : Option (ℕ × 𝓠.Carrier))
            → 𝓠.pop c.wq ≡ o
            → let (d, new) = invoke_node 𝓠 𝓢 c t k pg in Moves c t (deciding k pg) d new
        split none e = rw (e, invoke_node) (rests refl refl refl refl refl refl)
        split (some (n, q)) e =
            let popped = ap (count b) (contents-pop 𝓠 c.wq n q e) in
            rw (e, invoke_node)
              (begins n (ground arith) (ground arith) (ground arith) (ground arith) (ground arith)
                (ground arith))

    scan_one-Move :
        (n : ℕ) (rest cand : List ℕ)
        → let (cand', h') = scan_one c.heap n cand in
          Moves c t
            (scanning (n ∷ rest) cand)
            (record c { heap = h' })
            (at t (scanning rest cand') ∷ [])
    unfolding scan_one
    scan_one-Move n rest cand = elim (Bool-cases (n == b)) [
      | inl it ↦
          let same_node : n ≡ b = ground arith in
          elim (Bool-cases (Node.recyclable (c.heap.node n) && is_idle (c.heap.node n).state)) [
            | inl taken ↦
                claims (ground arith) (ground arith) (ground arith) (ground arith)
                  (ground (arith, count-append b cand (n ∷ []))) (ground arith) (ground arith)
                  (ground arith)
            | inr left ↦
                passes (ground arith) (ground arith) (ground arith) (ground arith) (ground arith)
                  (ground arith) (ground arith)
          ]
      | inr other ↦
          rests (ground arith) (ground arith) (ground (arith, count-append b cand (n ∷ [])))
            (ground arith) (ground arith) (ground arith)
    ]

    leave-Move :
        (k pg : ℕ)
        → t.node ≡ nil
        → let (d, r) = leave 𝓠 𝓢 c t k pg in Moves c t (leaving k pg) d (r ∷ [])
    unfolding leave
    leave-Move k pg root =
        rests (ground arith) (ground arith) (ground arith) (ground arith) (ground arith)
          (ground arith)

    drop-Move :
        (s : ℕ) (rest : List ℕ)
        → count b (s ∷ rest) ≤ count b (h.node t.node).successors
        → Moves c t
            (dropping (s ∷ rest))
            (record c { heap = Node.deref c.heap s })
            (at t (dropping rest) ∷ [])
    unfolding Node.deref
    drop-Move s rest o = elim (Bool-cases (s == b)) [
      | inl it ↦
          drops (ground arith) (ground arith) (ground arith) (ground arith) (ground arith)
            (ground arith) (ground arith)
      | inr other ↦
          rests (ground arith) (ground arith) (ground arith) (ground arith) (ground arith)
            (ground arith)
    ]

    resets-Move :
        CountersFit c.heap
        → (cand cand' : List ℕ) → count b cand' ≡ count b cand
        → Moves c t
            (resetting cand)
            (record c { heap = Node.setup c.heap t.node })
            (at t (scheduling cand' release) ∷ [])
    resets-Move fits cand cand' e = elim (Bool-cases (t.node == b)) [
      | inl own ↦ rw (setup-eq c.heap t.node (fits t.node)) (
          resets
            (λ k. ground (
              arith,
              strong-IsStatic c.heap (c.heap.node t.node).dependents (typ_eq h c.heap same st),
              same.node b,
            ))
            (ground arith) (ground arith) (ground arith) (ground arith) (ground arith)
            (ground arith))
      | inr other ↦ rw (setup-eq c.heap t.node (fits t.node)) (
          rests (ground arith) (ground arith) (ground arith) (ground arith) (ground arith)
            (ground arith))
    ]

  pub act-Move :
      (i : Input) (c : Core 𝓠 𝓢) (t : Thread) (pc : Pc)
      → SameShape h c.heap
      → IsStatic h
      → CountersFit c.heap
      → IsAtHome h g t.node pc
      → is_plain pc ≡ true
      → owes_at h b t.node pc ≤ scans_at h b t.node pc
      → Ensures 𝓠 𝓢 (Moves c t pc) (act 𝓠 𝓢 i c t pc)
  unfolding act handle after_close after_drop recover after_deref resume Graph.deref leave
  act-Move i c t opening same st fits home plain o = rests refl refl refl refl refl refl
  act-Move i c t checking same st fits home plain o =
      if_both (λ x. Moves c t checking c (at t x ∷ [])) (is_canceled c.heap t.node)
        (rests refl refl refl refl refl refl) (rests refl refl refl refl refl refl)
  act-Move i c t marking same st fits home plain o =
      set_state-Move c t same st NodeState.running marking handling refl refl refl refl refl refl
  act-Move i c t handling same st fits home plain o = handle-Move c t same st i
  act-Move i c t finishing same st fits home plain o =
      set_state-Move c t same st NodeState.finished finishing (closing true) refl refl refl refl
        refl refl
  act-Move i c t (choosing choice) same st fits home plain o = absurd cc
  act-Move i c t recovering same st fits home plain o =
      rw (ptr_eq h c.heap same st t.node) (rests refl refl refl refl refl refl)
  act-Move i c t (closing ok) same st fits home plain o =
      rw (ptr_eq h c.heap same st t.node, succ_eq h c.heap same st t.node)
        (rests refl refl refl refl refl refl)
  act-Move i c t (setting_up k pg) same st fits home plain o = absurd cc
  act-Move i c t (scheduling [] release) same st fits home plain o =
      rests refl refl refl refl refl refl
  act-Move i c t (scheduling [] settle) same st fits home plain o = absurd cc
  act-Move i c t (scheduling [] (watch k pg)) same st fits home plain o =
      rests refl refl refl refl refl refl
  act-Move i c t (scheduling (n ∷ rest) k) same st fits home plain o =
      schedule_one-Move c t same st n rest k (scheduling-IsMember h g t.node n rest k plain home).0
        (own h c.heap same st g n (scheduling-IsMember h g t.node n rest k plain home).1) plain
  act-Move i c t (putting n rest k) same st fits home plain o =
      if_both (Ensures 𝓠 𝓢 (Moves c t (putting n rest k))) c.mu tt (
        rests refl refl
          (ground (arith, 𝓠.contents-put n c.wq, count-append b (𝓠.contents c.wq) (n ∷ []))) refl
          refl refl)
  act-Move i c t (looping k pg) same st fits home plain o =
      if_both (Ensures 𝓠 𝓢 (Moves c t (looping k pg))) c.mu tt (
        if_both (Ensures 𝓠 𝓢 (Moves c t (looping k pg))) (may_go_on 𝓠 𝓢 c k)
          (rests refl refl refl refl refl refl) tt)
  act-Move i c t (deciding k pg) same st fits home plain o =
      if_both (Ensures 𝓠 𝓢 (Moves c t (deciding k pg))) (is_over 𝓠 𝓢 c.heap k)
        (rests refl refl refl refl refl refl) (invoke_node-Move c t same st k pg)
  act-Move i c t (leaving k pg) same st fits home plain o = leave-Move c t same st k pg home.0
  act-Move i c t (dropping []) same st fits home plain o =
      rw (ptr_eq h c.heap same st t.node, succ_eq h c.heap same st t.node)
        (rests refl refl refl refl refl refl)
  act-Move i c t (dropping (s ∷ rest)) same st fits home plain o =
      rw (typ_eq h c.heap same st t.node) (drop-Move c t same st s rest o)
  act-Move i c t (scanning [] cand) same st fits home plain o = rests refl refl refl refl refl refl
  act-Move i c t (scanning (n ∷ rest) cand) same st fits home plain o =
      scan_one-Move c t same st n rest cand
  act-Move i c t (resetting cand) same st fits home plain o =
      resets-Move c t same st fits cand _ (𝓢.count-sort (λ a. (c.heap.node a).priority) cand b)
  act-Move i c t dereffing same st fits home plain o =
      rw (ptr_eq h c.heap same st t.node) (rests refl refl refl refl refl refl)
  act-Move i c t restoring same st fits home plain o = absurd cc
  act-Move i c t ending same st fits home plain o =
      if_both (Ensures 𝓠 𝓢 (Moves c t ending)) (c.wg == 0) (rests refl refl refl refl refl refl)
        (rests refl refl refl refl refl (ground arith))
  act-Move i c t overdrawn same st fits home plain o = tt
  act-Move i c t ended same st fits home plain o = tt
  act-Move i c t (crashed k) same st fits home plain o = tt
