-- ===== src/Executor/Leftover.antt =====
-- Nodes that are still queued when a panic has canceled their graph: nobody pops them.
use mathlib.Core.Path.{subst}
use go_taskflow.Base.{
  ℕ, ◌≤◌, ◌≡◌, ◌≢◌, sym, ap, ◌∙◌, [], ◌∷◌, true, false, Bool-cases, inl, inr, arith, All, All-split,
  length, length-append, length-eq_zero, ◌==◌,
}
use go_taskflow.Memory.{Heap}
use go_taskflow.Queue.{Queue}
use go_taskflow.Sort.{Sort}
use go_taskflow.Executor.{System, Step, turn, may_return}
use go_taskflow.Executor.Goroutine.{
  Pc, scheduling, putting, looping, deciding, leaving, dropping, scanning, ending, ended, overdrawn,
  crashed, Thread, Input,
}
use go_taskflow.Executor.Act.{Core, act, Ensures, schedule_one, leave}
use go_taskflow.Executor.Weights.{in_graph}
use go_taskflow.Executor.Roots.{IsPlaced}
use go_taskflow.Executor.Steady.{StaysCanceled, act-StaysCanceled, caller-StaysCanceled}
use go_taskflow.Executor.Homes.{IsAtHome}
use go_taskflow.Executor.Within.{Within, stay, go, IsSound}
use go_taskflow.Executor.Progress.{IsRunnable, Within-IsSound}
use go_taskflow.Executor.Sound.{Step-IsSound}

module _ (𝓠 : Queue ℕ) (𝓢 : Sort) where
  -- In a canceled graph `invokeGraph` pops no node.
  act-keeps_queue :
      (h : Heap) (g : ℕ) (i : Input) (c : Core 𝓠 𝓢) (t : Thread) (pc : Pc)
      → (c.heap.graph g).canceled ≡ true
      → IsAtHome h g t.node pc
      → Ensures 𝓠 𝓢
          (λ d new. length (𝓠.contents c.wq) ≤ length (𝓠.contents d.wq))
          (act 𝓠 𝓢 i c t pc)
  unfolding act schedule_one leave
  act-keeps_queue h g i c t (putting n rest k) dead home =
      let put = 𝓠.contents-put n c.wq in ground (arith, length-append (𝓠.contents c.wq) (n ∷ []))
  act-keeps_queue h g i c t (deciding k pg) dead home = let same = home.1 in ground arith
  act-keeps_queue h g i c t (scheduling [] k) dead home = omega arith
  act-keeps_queue h g i c t (scheduling (n ∷ rest) k) dead home = ground arith
  act-keeps_queue h g i c t (looping k pg) dead home = ground arith
  act-keeps_queue h g i c t (leaving k pg) dead home = ground arith
  act-keeps_queue h g i c t (dropping []) dead home = omega arith
  act-keeps_queue h g i c t (dropping (s ∷ rest)) dead home = omega arith
  act-keeps_queue h g i c t (scanning [] cand) dead home = omega arith
  act-keeps_queue h g i c t (scanning (n ∷ rest) cand) dead home = omega arith
  act-keeps_queue h g i c t ending dead home = ground arith
  act-keeps_queue h g i c t ended dead home = tt
  act-keeps_queue h g i c t overdrawn dead home = tt
  act-keeps_queue h g i c t (crashed k) dead home = tt
  act-keeps_queue h g i c t _ dead home = omega arith

  -- What stays in the queue of a canceled graph.
  record IsStuck (h : Heap) (g : ℕ) (s : System 𝓠 𝓢) : Type 0 where
    sound : IsSound 𝓠 𝓢 h g s
    dead : (s.core.heap.graph g).canceled ≡ true
    full : 1 ≤ length (𝓠.contents s.core.wq)

  Step-IsStuck :
      (h : Heap) (g : ℕ) {s u : System 𝓠 𝓢}
      → IsSound 𝓠 𝓢 h g u
      → Step 𝓠 𝓢 s u
      → IsStuck h g s
      → IsStuck h g u
  Step-IsStuck h g {s} next_sound (turn i t before after new d at acts goes) a =
      let c = s.core in
      let flat = a.sound.accounted.flat in
      let (p0, p1, p2) =
        All-split IsPlaced before t after (subst (All IsPlaced) at a.sound.accounted.placed) in
      let (h0, h1, h2) =
        All-split (λ r. IsAtHome h g r.node r.pc) before t after
          (subst (All (λ r. IsAtHome h g r.node r.pc)) at a.sound.at_home) in
      let dead : (d.heap.graph g).canceled ≡ true = elim (Bool-cases (in_graph t.pc)) [
        | inl inside ↦
            subst (Ensures 𝓠 𝓢 (λ x n. StaysCanceled g c.heap x.heap)) acts
              (caller-StaysCanceled 𝓠 𝓢 g i c t t.pc inside p1.1) a.dead
        | inr out ↦
            subst (Ensures 𝓠 𝓢 (λ x n. StaysCanceled g c.heap x.heap)) acts
              (act-StaysCanceled 𝓠 𝓢 g i c t t.pc flat out) a.dead
      ] in
      let kept : length (𝓠.contents c.wq) ≤ length (𝓠.contents d.wq) =
        subst (Ensures 𝓠 𝓢 (λ x n. length (𝓠.contents c.wq) ≤ length (𝓠.contents x.wq))) acts
          (act-keeps_queue h g i c t t.pc a.dead h1) in
      record {
        sound = next_sound;
        dead = subst (λ (x : System 𝓠 𝓢). (x.core.heap.graph g).canceled ≡ true) (sym goes) dead;
        full =
            let old = a.full in
            subst (λ (x : System 𝓠 𝓢). 1 ≤ length (𝓠.contents x.core.wq)) (sym goes) (omega arith);
      }

  Within-IsStuck :
      {s u v : System 𝓠 𝓢} (a : IsRunnable 𝓠 𝓢 s)
      → IsStuck s.core.heap a.starting.graph u
      → Within 𝓠 𝓢 u v
      → IsStuck s.core.heap a.starting.graph v
  Within-IsStuck a stuck stay = stuck
  Within-IsStuck {s} a stuck (go w low st) =
      let old = Within-IsStuck a stuck w in
      Step-IsStuck s.core.heap a.starting.graph
        (Step-IsSound 𝓠 𝓢 s.core.heap a.starting.graph a.closed st low old.sound) st old

  -- Once a panic has canceled the graph while a node is queued, the queue never becomes empty again
  -- and `Wait` never returns, whatever the goroutines do from there on. The run starts as for
  -- `no_crash`, and the counter of `wg` stays within its 32 bits.
  pub wait_forever :
      {s u v : System 𝓠 𝓢} (a : IsRunnable 𝓠 𝓢 s)
      → Within 𝓠 𝓢 s u
      → (u.core.heap.graph a.starting.graph).canceled ≡ true
      → 𝓠.contents u.core.wq ≢ []
      → Within 𝓠 𝓢 u v
      → (may_return 𝓠 𝓢 v ≡ false) × (𝓠.contents v.core.wq ≢ [])
  wait_forever {s} {u} {v} a w dead full on = elim (Within-IsSound 𝓠 𝓢 a w) [
    | inl e ↦ absurd (full (ap (λ (x : System 𝓠 𝓢). 𝓠.contents x.core.wq) e ∙ a.starting.no_queue))
    | inr sound ↦
        let begins : 1 ≤ length (𝓠.contents u.core.wq) =
          elim (Bool-cases (length (𝓠.contents u.core.wq) == 0)) [
            | inl e ↦ absurd (full (length-eq_zero (𝓠.contents u.core.wq) (ground arith)))
            | inr e ↦ ground arith
          ] in
        let stuck = Within-IsStuck a record { sound = sound; dead = dead; full = begins } on in
        let still = stuck.full in
        let waits = stuck.sound.accounted.waits in
        (ground arith, λ e. absurd (let none_left = ap length e in omega arith))
  ]
