-- ===== src/Executor/Safety.antt =====
-- Runs of a flow without subflows: what the counters say in every reachable state.
use mathlib.Core.Path.{subst}
use go_taskflow.Base.{
  ◌-◌, ap, ℕ, ◌+◌, ◌≡◌, refl, sym, ◌∙◌, List, [], ◌∷◌, ◌++◌, true, inl, inr, arith, some, total,
  total-append, length, length-eq_zero, int32, All,
}
use go_taskflow.Queue.{Queue}
use go_taskflow.Sort.{Sort}
use go_taskflow.Executor.{System, Reach, may_return}
use go_taskflow.Executor.Goroutine.{ending, Thread, Input}
use go_taskflow.Executor.Act.{Core, act}
use go_taskflow.Executor.Weights.{working, underway, homed, refs, units, in_graph}
use go_taskflow.Executor.Invariant.{IsStarting, Reach-IsAccounted}

module _ (𝓠 : Queue ℕ) (𝓢 : Sort) where
  -- The accounts themselves, which hold at the start too.
  abbrev Accounts : System 𝓠 𝓢 → Type 0
  Accounts s =
      ((g : ℕ)
        → (s.core.heap.graph g).join_counter
          ≡ int32 (
              total (homed s.core.heap g) (𝓠.contents s.core.wq)
              + total (refs s.core.heap g) s.threads))
      × (s.core.wg ≡ length (𝓠.contents s.core.wq) + total units s.threads)

  Accounts-start : (s : System 𝓠 𝓢) → IsStarting 𝓠 𝓢 s → Accounts s
  Accounts-start s a =
      (λ g. rw (a.caller, a.no_queue, a.unused g) refl, rw (a.caller, a.no_queue, a.no_units) refl)

  -- In every state that a run of a flow without subflows reaches, in whatever order the goroutines
  -- take their steps: the counter of every graph is, as an int32, the number of the queued nodes of
  -- the graph and of the references that goroutines still hold, one for a node of the graph until
  -- its `deref` and one for a node between `ref` and `Put`; and the counter of `wg` is the number of
  -- all queued nodes, of the goroutines before `Done`, and of the nodes between `Add` and `Put`. The
  -- run starts where `Run` is called on an executor that does nothing, with a graph that lists no
  -- node twice and counters at zero.
  pub counters_account : {s u : System 𝓠 𝓢} → IsStarting 𝓠 𝓢 s → Reach 𝓠 𝓢 s u → Accounts u
  counters_account {s} {u} a r = elim (Reach-IsAccounted 𝓠 𝓢 a r) [
    | inl e ↦ subst Accounts (sym e) (Accounts-start s a)
    | inr acc ↦ (acc.counts, acc.waits)
  ]

  idle_of_units : (ts : List Thread) → total units ts ≡ 0 → All (λ t. in_graph t.pc ≡ true) ts
  idle_of_units [] e = tt
  idle_of_units (t ∷ ts) e = (ground arith, idle_of_units ts (omega arith))

  -- Where `Wait` may return in such a run, no node is queued and no goroutine of a node is left:
  -- every goroutine that there is stands in `scheduleGraph` or has ended.
  pub wait_returns :
      {s u : System 𝓠 𝓢}
      → IsStarting 𝓠 𝓢 s
      → Reach 𝓠 𝓢 s u
      → may_return 𝓠 𝓢 u ≡ true
      → (𝓠.contents u.core.wq ≡ []) × All (λ t. in_graph t.pc ≡ true) u.threads
  wait_returns {s} {u} a r e =
      let waits = (counters_account a r).1 in
      let none_left : u.core.wg ≡ 0 = ground arith in
      (length-eq_zero (𝓠.contents u.core.wq) (omega arith), idle_of_units u.threads (omega arith))

  -- In such a run `wg.Done()` never panics: where a goroutine is about to call it, the counter is
  -- positive, so the step ends the goroutine and takes one off the counter.
  pub done_decrements :
      {s u : System 𝓠 𝓢} (i : Input) (before : List Thread) (t : Thread) (after : List Thread)
      → IsStarting 𝓠 𝓢 s
      → Reach 𝓠 𝓢 s u
      → u.threads ≡ before ++ t ∷ after
      → t.pc ≡ ending
      → (c : Core 𝓠 𝓢) × (act 𝓠 𝓢 i u.core t ending ≡ some (c, [])) × (c.wg + 1 ≡ u.core.wg)
  unfolding act
  done_decrements {s} {u} i before t after a r e at_end =
      let waits = (counters_account a r).1 in
      let sum = ap (total units) e ∙ total-append units before (t ∷ after) in
      let one_held : units t ≡ 1 = ap (λ p. working p + underway p) at_end in
      (record u.core { wg = u.core.wg - 1 }, ground arith, omega arith)
