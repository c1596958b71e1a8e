-- ===== src/Executor/Choice.antt =====
-- The choice of a condition: `invokeCondition` of executor.go with the mapper of task.go.
use go_taskflow.Base.{
  ℕ, ◌+◌, ◌<◌, ◌≤◌, ◌≡◌, List, [], ◌∷◌, ◌++◌, some, true, false, Bool-cases, inl, inr, refl, ◌∙◌,
  ap, ltb, if◌then◌else◌, ◌==◌, arith, length, incr32, ◌≢◌,
}
use go_taskflow.Memory.{Heap, NodeState, Ptr, nil}
use go_taskflow.Graph
use mathlib.Core.List.{append-nil}
use go_taskflow.Flow.Mapper.{
  InStep, numbered, nth, map_get-numbered, length-numbered, nth_out_of_range,
}
use go_taskflow.Queue.{Queue}
use go_taskflow.Sort.{Sort}
use go_taskflow.Executor.Goroutine.{
  Pc, Input, choosing, closing, Thread, at, recovering, scheduling, putting, settle,
}
use go_taskflow.Executor.Handlers.{choose, set_state, nil_panic, resume}
use go_taskflow.Executor.Act.{Core, act, schedule_one}
use go_taskflow.Executor.Alone.{solo, solo-suc}

module _ (𝓠 : Queue ℕ) (𝓢 : Sort) where
  -- The step behind the guard: the first turn of `schedule`, if the goroutine gets there.
  abbrev pub go_on : Core 𝓠 𝓢 → Thread → Pc → Core 𝓠 𝓢 × Thread
  go_on c t (scheduling (n ∷ rest) k) = schedule_one 𝓠 𝓢 c t n rest k
  go_on c t pc = (c, at t pc)

  abbrev pub after_choice : Core 𝓠 𝓢 → Thread → List ℕ → ℕ → Core 𝓠 𝓢 × Thread
  after_choice c t us choice =
      let (h, pc) = choose c.heap t.node (Ptr.condition (numbered 0 us)) choice in
      go_on (record c { heap = h }) t pc

  -- A choice that is no branch of the condition ends in the deferred function's branch for a panic,
  -- which cancels the graph, and schedules nothing. This takes two ways: a choice above the number
  -- of branches is caught by the guard; a choice equal to it passes the guard, sets the state to
  -- finished and panics on the nil pointer that the mapper has for it.
  pub choice_out_of_range :
      (c : Core 𝓠 𝓢) (t : Thread) (us : List ℕ) (choice : ℕ)
      → length us ≤ choice
      → let (c', t') = after_choice c t us choice in
        (t' ≡ at t recovering)
        × (c'.heap
            ≡ (if choice == length us then set_state c.heap t.node NodeState.finished else c.heap))
        × (c'.wg ≡ c.wg)
        × (c'.wq ≡ c.wq)
  unfolding choose schedule_one nil_panic
  choice_out_of_range c t us choice out = ground (
    arith,
    length-numbered 0 us,
    map_get-numbered 0 choice choice us,
    nth_out_of_range us choice out,
  )

  chosen : Core 𝓠 𝓢 → Thread → Core 𝓠 𝓢
  chosen c t = record c { heap = set_state c.heap t.node NodeState.finished }

  -- The guard lets a branch of the condition pass.
  choose-branch :
      (h : Heap) (a : ℕ) (p : Ptr) (us : List ℕ) (choice : ℕ)
      → p ≡ Ptr.condition (numbered 0 us)
      → choice < length us
      → choose h a p choice
        ≡ (set_state h a NodeState.finished, scheduling (nth us choice ∷ []) settle)
  unfolding choose
  choose-branch h a p us choice branches low =
      let passes : ltb (length (numbered 0 us)) choice ≡ false =
        ground (arith, length-numbered 0 us) in
      rw (branches, passes, map_get-numbered 0 choice choice us (omega arith)) refl

  choosing_step :
      (i : Input) (c : Core 𝓠 𝓢) (t : Thread) (us : List ℕ) (choice : ℕ)
      → InStep (c.heap.node t.node) us
      → choice < length us
      → act 𝓠 𝓢 i c (at t (choosing choice)) (choosing choice)
        ≡ some (chosen c t, at t (scheduling (nth us choice ∷ []) settle) ∷ [])
  unfolding act chosen
  choosing_step i c t us choice step low =
      rw (choose-branch c.heap t.node (c.heap.node t.node).ptr us choice step.0 low) refl

  -- A choice within the branches of a condition that `Precede` has built, whose branches are its
  -- successors in order, while no other goroutine takes a step: the condition is finished, and the
  -- goroutine comes to the end of its span. Where the graph of the branch is not canceled, the
  -- branch itself, successor number `choice`, stands last in the queue, and `wg` and the counter of
  -- its graph have gone up by one. Where it is canceled, nothing is queued and nothing counted.
  pub choosing-closing :
      (i : Input) (c : Core 𝓠 𝓢) (t : Thread) (us : List ℕ) (choice : ℕ)
      → InStep (c.heap.node t.node) us
      → c.mu ≡ false
      → choice < length us
      → nth us choice ≢ nil
      → let n = nth us choice in
        let g = (c.heap.node n).g in
        let dead = (c.heap.graph g).canceled in
        (d : Core 𝓠 𝓢) × (solo 𝓠 𝓢 (if dead then 2 else 4) i c (at t (choosing choice))
          ≡ some (d, at t (closing true)))
        × (𝓠.contents d.wq ≡ 𝓠.contents c.wq ++ (if dead then [] else n ∷ []))
        × (d.wg ≡ c.wg + (if dead then 0 else 1))
        × ((d.heap.graph g).join_counter ≡ (
            if dead then (c.heap.graph g).join_counter else incr32 (c.heap.graph g).join_counter))
        × (d.heap.node ≡ (set_state c.heap t.node NodeState.finished).node)
  unfolding solo act schedule_one resume Graph.ref chosen
  choosing-closing i c t us choice step free low real =
      let n = nth us choice in
      let g = (c.heap.node n).g in
      let k = chosen c t in
      let home : (k.heap.node n).g ≡ g = ground arith in
      let first = choosing_step i c t us choice step low in
      elim (Bool-cases (c.heap.graph g).canceled) [
        | inl dead ↦ (
          k,
          ap (λ b. solo 𝓠 𝓢 (if b then 2 else 4) i c (at t (choosing choice))) dead
              ∙ (solo-suc 𝓠 𝓢 1 i c k (at t (choosing choice)) (at t (scheduling (n ∷ []) settle))
                    first
                  ∙ solo-suc 𝓠 𝓢 0 i k k (at t (scheduling (n ∷ []) settle)) (at t (closing true))
                      (ground arith)),
          ground (arith, append-nil (𝓠.contents c.wq)),
          ground arith,
          ground arith,
          ground arith,
        )
        | inr live ↦
            let d : Core 𝓠 𝓢 = record k { heap = Graph.ref k.heap g; wg = c.wg + 1 } in
            let e : Core 𝓠 𝓢 = record d { wq = 𝓠.put n c.wq } in
            (
              e,
              ap (λ b. solo 𝓠 𝓢 (if b then 2 else 4) i c (at t (choosing choice))) live
                  ∙ (solo-suc 𝓠 𝓢 3 i c k (at t (choosing choice))
                        (at t (scheduling (n ∷ []) settle)) first
                      ∙ solo-suc 𝓠 𝓢 2 i k d (at t (scheduling (n ∷ []) settle))
                          (at t (putting n [] settle)) (ground arith)
                      ∙ solo-suc 𝓠 𝓢 1 i d e (at t (putting n [] settle))
                          (at t (scheduling [] settle)) (ground arith)
                      ∙ solo-suc 𝓠 𝓢 0 i e e (at t (scheduling [] settle)) (at t (closing true))
                          refl),
              ground (arith, 𝓠.contents-put n c.wq),
              ground arith,
              ground arith,
              ground arith,
            )
      ]
