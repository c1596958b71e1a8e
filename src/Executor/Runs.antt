-- ===== src/Executor/Runs.antt =====
-- Runs of a flow of static tasks: each task runs once, and after its dependents.
use mathlib.Core.Path.{subst}
use go_taskflow.Base.{
  ℕ, ◌≤◌, ◌≡◌, refl, sym, ap, ◌∙◌, List, [], ◌∷◌, arith, some, inl, inr, ◌⊎◌, total, count,
}
use go_taskflow.Memory.{nil}
use go_taskflow.Queue.{Queue}
use go_taskflow.Sort.{Sort}
use go_taskflow.Executor.{System, Step, turn}
use go_taskflow.Executor.Goroutine.{setting_up, scheduling, watch, Thread}
use go_taskflow.Executor.Act.{act, launch}
use go_taskflow.Executor.Within.{IsSound}
use go_taskflow.Executor.Invariant.{IsStarting, launched, Step-launched, single}
use go_taskflow.Executor.Progress.{IsRunnable, launched-IsSound}
use go_taskflow.Executor.Sound.{Step-IsSound}
use go_taskflow.Executor.Ledger.{started}
use go_taskflow.Executor.Replies.{called, engaged}
use go_taskflow.Executor.Logs.{IsTaskFlow, IsOrdered, starts, calls, Logged, steps, blank, note}
use go_taskflow.Executor.Orderly.{IsOrderly}
use go_taskflow.Executor.Ordering.{Step-IsOrderly}
use go_taskflow.Executor.Entries.{launched-IsOrderly}

module _ (𝓠 : Queue ℕ) (𝓢 : Sort) where
  -- The first step logs nothing.
  pub first_step :
      {s u : System 𝓠 𝓢} (st : Step 𝓠 𝓢 s u)
      → IsStarting 𝓠 𝓢 s
      → (starts 𝓠 𝓢 st ≡ []) × (calls 𝓠 𝓢 st ≡ [])
  unfolding act
  first_step {s} (turn i t before after new d at acts goes) a =
      let c = s.core in
      let caller : Thread = record {
        node = nil;
        parent = nil;
        span = nil;
        pc = setting_up a.graph nil;
      } in
      let (e0, e1, e2) = single 𝓠 𝓢 before t after caller (sym at ∙ a.caller) in
      let h = launch 𝓠 𝓢 c.heap a.graph in
      let went = subst (λ x. act 𝓠 𝓢 i c x x.pc ≡ some (d, new)) e1 acts in
      let t' : Thread = record caller {
        pc = scheduling (h.graph a.graph).entries (watch a.graph nil);
      } in
      let new_eq : t' ∷ [] ≡ new = cc in
      (ap started (sym new_eq), ap (λ (x : Thread). called x.node x.pc) e1)

  pub Logged-IsOrderly :
      {s u : System 𝓠 𝓢} {begun done : List ℕ} (a : IsRunnable 𝓠 𝓢 s)
      (flow : IsTaskFlow s.core.heap a.starting.graph) (l : Logged 𝓠 𝓢 s begun done u)
      → ((u ≡ s) × (begun ≡ []) × (done ≡ []) × (steps 𝓠 𝓢 l ≡ 0))
        ⊎ (IsSound 𝓠 𝓢 s.core.heap a.starting.graph u
            × IsOrderly 𝓠 𝓢 s.core.heap a.starting.graph flow begun done u)
  Logged-IsOrderly a flow blank = inl (refl, refl, refl, refl)
  Logged-IsOrderly {s} a flow (note {begun = begun} {done = done} {u = u} {v = v} l low st) =
      elim (Logged-IsOrderly a flow l) [
        | inl (e, eb, ed, z) ↦
            let (no_start, no_call) = first_step st (subst (IsStarting 𝓠 𝓢) (sym e) a.starting) in
            let at_first : v ≡ launched 𝓠 𝓢 s a.starting.graph =
              Step-launched 𝓠 𝓢 (subst (λ x. Step 𝓠 𝓢 x v) e st) a.starting in
            let h = s.core.heap in
            let g = a.starting.graph in
            inr (
              subst (IsSound 𝓠 𝓢 h g) (sym at_first) (launched-IsSound 𝓠 𝓢 a),
              rw (no_start, no_call, eb, ed)
                  (subst (IsOrderly 𝓠 𝓢 h g flow [] []) (sym at_first)
                    (launched-IsOrderly 𝓠 𝓢 a.starting flow)),
            )
        | inr (sound, o) ↦ inr (
          Step-IsSound 𝓠 𝓢 s.core.heap a.starting.graph a.closed st low sound,
          Step-IsOrderly 𝓠 𝓢 s.core.heap a.starting.graph flow st sound o,
        )
      ]

  -- In every run of a flow of static tasks, in whatever order the goroutines take their steps, the
  -- goroutine of each task is started at most once and the function of each task is called at most
  -- once. The run starts where `Run` is called on an executor that does nothing, with a graph whose
  -- edges stay inside it and mirror each other, and whose counters fit their 32 bits; the counter of
  -- `wg` stays within its 32 bits.
  pub runs_once :
      {s u : System 𝓠 𝓢} {begun done : List ℕ} (a : IsRunnable 𝓠 𝓢 s)
      → IsTaskFlow s.core.heap a.starting.graph
      → Logged 𝓠 𝓢 s begun done u
      → (b : ℕ) → (count b begun ≤ 1) × (count b done ≤ 1)
  runs_once a flow l b = elim (Logged-IsOrderly a flow l) [
    | inl (e, eb, ed, z) ↦ rw (eb, ed) (omega arith, omega arith)
    | inr (sound, o) ↦
        let single = (o.balanced b).single in (ground arith, ground (arith, (o.served b).at_most))
  ]

  -- In every such run the function of a task is called only after the functions of all its
  -- dependents were called and are over, by a return or by a panic: each call in the log has the
  -- calls of the dependents of its task before it, and so has each task whose goroutine has passed
  -- the test of `canceled` and is about to call.
  pub runs_in_order :
      {s u : System 𝓠 𝓢} {begun done : List ℕ} (a : IsRunnable 𝓠 𝓢 s)
      → IsTaskFlow s.core.heap a.starting.graph
      → Logged 𝓠 𝓢 s begun done u
      → IsOrdered s.core.heap done
        × ((b : ℕ)
            → 1 ≤ total (engaged b) u.threads
            → (d : ℕ) → 1 ≤ count d (s.core.heap.node b).dependents
            → 1 ≤ count d done)
  runs_in_order {s} {u} {begun} {done} a flow l = elim (Logged-IsOrderly a flow l) [
    | inl (e, eb, ed, z) ↦ rw (e, ed, a.starting.caller) (tt, λ b n. absurd (ground arith))
    | inr (sound, o) ↦ (o.ordered, o.ready)
  ]
