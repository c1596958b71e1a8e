-- ===== src/Executor/Liveness.antt =====
-- Runs of one closed graph: nothing crashes, and without signals to wait for a run that is not
-- finished goes on.
use mathlib.Core.Path.{subst}
use go_taskflow.Base.{
  All-split, ℕ, ◌<◌, ◌^◌, ◌≡◌, ◌≢◌, refl, sym, List, [], ◌∷◌, false, inl, inr, ◌⊎◌, none, some, All,
}
use go_taskflow.Memory.{Heap, nil}
use go_taskflow.Queue.{Queue}
use go_taskflow.Sort.{Sort}
use go_taskflow.Executor.{System, Step, turn}
use go_taskflow.Executor.Goroutine.{
  Pc, setting_up, scheduling, putting, ended, overdrawn, crashed, Thread, at, Input,
}
use go_taskflow.Executor.Act.{act}
use go_taskflow.Executor.Homes.{IsAtHome}
use go_taskflow.Executor.Within.{Within}
use go_taskflow.Executor.Acting.{IsFinished, GoesOn, acts, held_acts, sound_runs_on}
use go_taskflow.Executor.Progress.{IsRunnable, Within-IsSound, is_crashed}

is_crashed-IsAtHome : (h : Heap) (g a : ℕ) (pc : Pc) → IsAtHome h g a pc → is_crashed pc ≡ false
is_crashed-IsAtHome h g a overdrawn m = absurd m
is_crashed-IsAtHome h g a (crashed k) m = absurd m
is_crashed-IsAtHome h g a (scheduling rest k) m = refl
is_crashed-IsAtHome h g a (putting n rest k) m = refl
is_crashed-IsAtHome h g a _ m = refl

All-alive :
    (h : Heap) (g : ℕ) (l : List Thread)
    → All (λ t. IsAtHome h g t.node t.pc) l
    → All (λ t. is_crashed t.pc ≡ false) l
All-alive h g [] m = tt
All-alive h g (t ∷ l) m = (is_crashed-IsAtHome h g t.node t.pc m.0, All-alive h g l m.1)

module _ (𝓠 : Queue ℕ) (𝓢 : Sort) where
  -- In a run within the bounds of `wg` no goroutine is stopped by a panic that nothing recovers:
  -- `Pop` never meets an empty queue, `schedule` meets nil only where `invokeCondition` recovers,
  -- and `Done` never takes the counter below zero. The run starts where `Run` is called on an
  -- executor that does nothing, with a flow without subflows whose graph lists no node twice and
  -- whose edges and branches stay inside the graph.
  pub no_crash :
      {s u : System 𝓠 𝓢}
      → IsRunnable 𝓠 𝓢 s
      → Within 𝓠 𝓢 s u
      → All (λ t. is_crashed t.pc ≡ false) u.threads
  no_crash {s} {u} a w = elim (Within-IsSound 𝓠 𝓢 a w) [
    | inl e ↦
        subst (λ (x : System 𝓠 𝓢). All (λ t. is_crashed t.pc ≡ false) x.threads) (sym e)
          (rw (a.starting.caller) (refl, tt))
    | inr sound ↦ All-alive s.core.heap a.starting.graph u.threads sound.at_home
  ]

  -- Where no goroutine waits for a signal, one can take its next step, or the run is finished.
  pub runs_on :
      {s u : System 𝓠 𝓢} (a : IsRunnable 𝓠 𝓢 s)
      → Within 𝓠 𝓢 s u
      → u.core.wg < 2 ^ 32
      → GoesOn 𝓠 𝓢 u ⊎ IsFinished 𝓠 𝓢 a.starting.graph u
  runs_on {s} {u} a w low = elim (Within-IsSound 𝓠 𝓢 a w) [
    | inl e ↦
        let first : Thread = record {
          node = nil;
          parent = nil;
          span = nil;
          pc = setting_up a.starting.graph nil;
        } in
        inl (
          subst (GoesOn 𝓠 𝓢) (sym e) (
            held_acts 𝓠 𝓢 s (λ r. (i : Input) → act 𝓠 𝓢 i s.core r r.pc ≢ none)
              (
                [],
                first,
                [],
                a.starting.caller,
                λ i. acts 𝓠 𝓢 i s.core first (setting_up a.starting.graph nil) refl refl,
              )
              (λ i r goes. goes i)))
    | inr sound ↦ sound_runs_on 𝓠 𝓢 s.core.heap a.starting.graph u sound low
  ]

  pub no-Step :
      {v : System 𝓠 𝓢} (s : System 𝓠 𝓢) → All (λ t. t.pc ≡ ended) s.threads → Step 𝓠 𝓢 s v → ⊥
  unfolding act
  no-Step s all (turn i t before after new d at acts goes) =
      let (e0, e1, e2) =
        All-split (λ r. r.pc ≡ ended) before t after (subst (All (λ r. r.pc ≡ ended)) at all) in
      let stopped : act 𝓠 𝓢 i s.core t ended ≡ some (d, new) =
        subst (λ p. act 𝓠 𝓢 i s.core t p ≡ some (d, new)) e1 acts in
      absurd (cc stopped)
