-- ===== src/Executor/Signals.antt =====
-- The signals of a graph's `scheCond`, on which the loop of `invokeGraph` waits, and runs that
-- go on until they are finished.
use mathlib.Core.Path.{subst}
use go_taskflow.Base.{
  ℕ, ◌≤◌, ◌<◌, ◌^◌, ◌≡◌, ◌≢◌, sym, ap, ◌∙◌, List, [], ◌∷◌, true, Bool-cases, inl, inr, ◌⊎◌,
  if◌then◌else◌, ◌==◌, arith, some, All, All-split, total, total-append,
}
use go_taskflow.Memory.{Heap, nil}
use go_taskflow.Queue.{Queue}
use go_taskflow.Sort.{Sort}
use go_taskflow.Executor.{System}
use go_taskflow.Executor.Goroutine.{deciding, Thread, Input}
use go_taskflow.Executor.Act.{Core, act, may_go_on}
use go_taskflow.Executor.Weights.{held}
use go_taskflow.Executor.Homes.{IsAtHome}
use go_taskflow.Executor.Within.{IsSound, calls}
use go_taskflow.Executor.Progress.{IsRunnable}
use go_taskflow.Executor.Finding.{Holds, find_decider, find_node}
use go_taskflow.Executor.Acting.{IsFinished, node_goes, alone_goes_on, only_one}
use go_taskflow.Executor.Liveness.{runs_on}
use go_taskflow.Executor.Holders.{holds_graph}
use go_taskflow.Executor.Watching.{
  Watched, Reaches, Reaches-Within, Reaches-IsWatched, IsWatched, is_looping, looping_cases, strays,
}

module _ (𝓠 : Queue ℕ) (𝓢 : Sort) where
  -- There is a goroutine that does not wait for a signal and that can take its next step, whatever
  -- the step reads from outside.
  abbrev pub CanRun : Watched 𝓠 𝓢 → Type 0
  CanRun w =
      Holds
        (λ t.
          (w.asleep ≡ true → t.node ≢ nil)
          × ((i : Input)
              → (d : Core 𝓠 𝓢) × (new : List Thread) × (act 𝓠 𝓢 i w.system.core t t.pc
                  ≡ some (d, new))))
        w.system.threads

  decider_strays :
      (h : Heap) (g : ℕ) (s : System 𝓠 𝓢)
      → IsSound 𝓠 𝓢 h g s
      → Holds (λ t. (k : ℕ) × (pg : ℕ) × (t.pc ≡ deciding k pg)) s.threads
      → 1 ≤ total strays s.threads
  decider_strays h g s a (before, t, after, at, (k, pg, decides)) =
      let (h0, h1, h2) =
        All-split (λ r. IsAtHome h g r.node r.pc) before t after
          (subst (All (λ r. IsAtHome h g r.node r.pc)) at a.at_home) in
      let (root, same) = subst (IsAtHome h g t.node) decides h1 in
      let astray : strays t ≡ 1 =
        ap (λ p. if t.node == nil then (if is_looping p then 0 else 1) else 0) decides
        ∙ ground arith in
      omega (arith, ap (total strays) at, total-append strays before (t ∷ after))

  -- While the caller waits, it does not wait alone.
  not_alone :
      (h : Heap) (g : ℕ) (s : System 𝓠 𝓢) (t : Thread)
      → IsWatched 𝓠 𝓢 h g s
      → s.threads ≡ t ∷ []
      → ⊥
  not_alone h g s t a one =
      let waits = subst (λ l. total strays l ≡ 0) one a.waits in
      let calls_once = subst (λ l. total calls l ≡ 1) one a.sound.one_caller in
      let (k, pg, looped) = looping_cases t.pc (ground arith) in
      let home : IsAtHome h g t.node t.pc =
        (subst (All (λ r. IsAtHome h g r.node r.pc)) one a.sound.at_home).0 in
      let (root, same) = subst (IsAtHome h g t.node) looped home in
      let goes : may_go_on 𝓠 𝓢 s.core g ≡ true =
        ap (may_go_on 𝓠 𝓢 s.core) (sym same) ∙ alone_goes_on 𝓠 𝓢 h g s t a.sound one k pg looped in
      let left : 1 ≤ total holds_graph (t ∷ []) =
        subst (λ l. 1 ≤ total holds_graph l) one (a.held_up goes) in
      let none_held : holds_graph t ≡ 0 = ap (λ p. if held p then 1 else 0) looped in
      absurd (omega arith)

  watched_runs : (h : Heap) (g : ℕ) (w : Watched 𝓠 𝓢) → IsWatched 𝓠 𝓢 h g w.system → CanRun w
  watched_runs h g w a =
      let held_once = a.sound.held_once in
      let one_caller = a.sound.one_caller in
      let waits = a.waits in
      elim (Bool-cases w.system.core.mu) [
        | inl taken ↦
            let astray =
              decider_strays h g w.system a.sound
                (find_decider w.system.threads (λ z. absurd (ground arith))) in
            absurd (omega arith)
        | inr free ↦ elim (find_node w.system.threads) [
          | inl found ↦
              let (before, t, after, e, (real, goes)) =
                node_goes 𝓠 𝓢 h g w.system a.sound free found in
              (before, t, after, e, (λ z. real, goes))
          | inr all ↦
              let (t, one) = only_one 𝓠 𝓢 w.system.threads (omega arith) in
              absurd (not_alone h g w.system t a one)
        ]
      ]

  -- A run never comes to a stand for want of a signal or of anything else: in every state that is
  -- reached, the caller of `Run` waiting on `scheCond` or not, there is a goroutine that does not
  -- wait for a signal and that can take its next step whatever the clock says and the client's
  -- functions do; or the run is finished. Then the caller has left, no goroutine of a node is left, and `wg` counts what is
  -- still queued, which is nothing unless the graph was canceled. The run starts as for `no_crash`,
  -- and the counter of `wg` stays within its 32 bits.
  pub wakes_up :
      {s : System 𝓠 𝓢} {w : Watched 𝓠 𝓢} (a : IsRunnable 𝓠 𝓢 s)
      → Reaches 𝓠 𝓢 a.starting.graph s w
      → w.system.core.wg < 2 ^ 32
      → CanRun w ⊎ IsFinished 𝓠 𝓢 a.starting.graph w.system
  wakes_up {s} {w} a r low = elim (Bool-cases w.asleep) [
    | inl slept ↦
        inl (watched_runs s.core.heap a.starting.graph w (Reaches-IsWatched 𝓠 𝓢 a r slept))
    | inr up ↦ elim (runs_on 𝓠 𝓢 a (Reaches-Within 𝓠 𝓢 r) low) [
      | inl (before, t, after, e, goes) ↦ inl (before, t, after, e, (λ z. absurd cc, goes))
      | inr over ↦ inr over
    ]
  ]
