-- ===== src/Executor/Progress.antt =====
-- What holds of every run of one closed graph, from the first step on.
use mathlib.Core.Path.{subst}
use go_taskflow.Base.{
  ℕ, ◌≡◌, refl, sym, List, [], ◌∷◌, Bool, true, false, inl, inr, ◌⊎◌, if_both, arith, All,
  All-same_count, select,
}
use go_taskflow.Memory.{Heap, nil}
use go_taskflow.Graph
use go_taskflow.Graph.Setup.{setup_lem, sources}
use go_taskflow.Queue.{Queue}
use go_taskflow.Sort.{Sort}
use go_taskflow.Executor.{System, Step}
use go_taskflow.Executor.Goroutine.{After, watch, Pc, scheduling, deciding, overdrawn, crashed}
use go_taskflow.Executor.Act.{launch}
use go_taskflow.Executor.Flat.{launch-SameShape}
use go_taskflow.Executor.Homes.{IsMember, IsClosed}
use go_taskflow.Executor.Invariant.{IsStarting, launched, Step-launched, launched-IsAccounted}
use go_taskflow.Executor.Within.{HasWork, IsOver, IsSound, Within, stay, go}
use go_taskflow.Executor.Sound.{Step-IsSound}

All-select : (P : ℕ → Type 0) (p : ℕ → Bool) (l : List ℕ) → All P l → All P (select p l)
All-select P p [] m = tt
All-select P p (x ∷ l) m = let rest = All-select P p l m.1 in if_both (All P) (p x) (m.0, rest) rest

is_not_deciding : (l : List ℕ) (w : After) (k pg : ℕ) → scheduling l w ≡ deciding k pg → ⊥
is_not_deciding l w k pg e = absurd cc

false_is_not-true : false ≡ true → ⊥
false_is_not-true e = absurd cc

-- A goroutine that a panic has stopped.
abbrev pub is_crashed : Pc → Bool
is_crashed (crashed k) = true
is_crashed overdrawn = true
is_crashed _ = false

module _ (𝓠 : Queue ℕ) (𝓢 : Sort) where
  -- Where `Run` was just called on an executor that does nothing, for a graph whose edges and
  -- branches stay inside it.
  pub record IsRunnable (s : System 𝓠 𝓢) : Type 0 where
    pub starting : IsStarting 𝓠 𝓢 s
    pub closed : IsClosed s.core.heap starting.graph
    pub unlocked : s.core.mu ≡ false

  launched-entries :
      (h : Heap) (g : ℕ)
      → (e : IsClosed h g) → ((Graph.setup h g).graph g).entries ≡ sources h.node (h.graph g).nodes
      → All (IsMember h g) ((launch 𝓠 𝓢 h g).graph g).entries
  unfolding launch
  launched-entries h g closed e =
      let key : ℕ → ℕ = λ a. ((Graph.setup h g).node a).priority in
      let es = ((Graph.setup h g).graph g).entries in
      let sorted : ((launch 𝓠 𝓢 h g).graph g).entries ≡ 𝓢.sort key es = ground arith in
      subst (All (IsMember h g)) (sym sorted) (
        All-same_count (IsMember h g) es (𝓢.sort key es) (𝓢.count-sort key es) (
          subst (All (IsMember h g)) (sym e)
            (All-select (IsMember h g) _ (h.graph g).nodes closed.listed)))

  pub launched-IsSound :
      {s : System 𝓠 𝓢} (a : IsRunnable s)
      → IsSound 𝓠 𝓢 s.core.heap a.starting.graph (launched 𝓠 𝓢 s a.starting.graph)
  launched-IsSound {s} a =
      let h = s.core.heap in
      let g = a.starting.graph in
      let entries =
        launched-entries h g a.closed (ground (arith, setup_lem h g a.starting.distinct g)) in
      let no_queue = a.starting.no_queue in
      let unlocked = a.unlocked in
      let first : List ℕ = ((launch 𝓠 𝓢 h g).graph g).entries in
      let outside : All (HasWork 𝓠 𝓢 (launched 𝓠 𝓢 s g).core) (launched 𝓠 𝓢 s g).threads =
        ((λ k pg e. absurd (is_not_deciding first (watch g nil) k pg e)), tt) in
      let unleft : All (IsOver 𝓠 𝓢 g (launched 𝓠 𝓢 s g).core.heap) (launched 𝓠 𝓢 s g).threads =
        ((λ e. absurd (false_is_not-true e)), tt) in
      record {
        accounted = launched-IsAccounted 𝓠 𝓢 a.starting;
        shape = launch-SameShape 𝓠 𝓢 h g;
        at_home = (((refl, refl), entries), tt);
        queued = rw no_queue tt;
        one_caller = refl;
        held_once = rw unlocked refl;
        has_work = outside;
        left_over = unleft;
      }

  pub Within-IsSound :
      {s u : System 𝓠 𝓢} (a : IsRunnable s)
      → Within 𝓠 𝓢 s u
      → (u ≡ s) ⊎ IsSound 𝓠 𝓢 s.core.heap a.starting.graph u
  Within-IsSound a stay = inl refl
  Within-IsSound {s} a (go {u = u} {v = v} w low st) = elim (Within-IsSound a w) [
    | inl e ↦ inr (
        subst (IsSound 𝓠 𝓢 s.core.heap a.starting.graph)
          (sym (Step-launched 𝓠 𝓢 (subst (λ x. Step 𝓠 𝓢 x v) e st) a.starting))
          (launched-IsSound a))
    | inr sound ↦ inr (Step-IsSound 𝓠 𝓢 s.core.heap a.starting.graph a.closed st low sound)
  ]
