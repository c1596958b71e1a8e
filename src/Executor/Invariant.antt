-- ===== src/Executor/Invariant.antt =====
-- The accounts of the counters, and that every step keeps them.
use mathlib.Core.Path.{subst}
use go_taskflow.Base.{
  All-append, All-split, ℕ, ◌+◌, ◌≡◌, refl, sym, ◌∙◌, List, [], ◌∷◌, ◌++◌, inl, inr, ◌⊎◌, arith,
  some, total, total-append, All, IsDistinct,
}
use go_taskflow.Memory.{Heap, nil}
use go_taskflow.Graph.Setup.{setup_lem}
use go_taskflow.Queue.{Queue}
use go_taskflow.Sort.{Sort}
use go_taskflow.Executor.{System, Step, turn, Reach, here, next}
use go_taskflow.Executor.Goroutine.{setting_up, scheduling, watch, Thread, Input}
use go_taskflow.Executor.Act.{Core, act, Ensures, launch}
use go_taskflow.Executor.Sums.{total-refs-SameShape, total-homed-SameShape}
use go_taskflow.Executor.Shape.{SameShape}
use go_taskflow.Executor.Flat.{IsFlat, act-SameShape, launch-SameShape}
use go_taskflow.Executor.Weights.{refs, units}
use go_taskflow.Executor.Accounting.{Counts, act-Counts}
use go_taskflow.Executor.WaitGroup.{Waits, act-Waits}
use go_taskflow.Executor.Roots.{IsPlaced, act-IsPlaced}

module _ (𝓠 : Queue ℕ) (𝓢 : Sort) where
  -- The counter of every graph counts the queued nodes of the graph and the goroutines of its nodes
  -- that are before `deref`; `wg` counts the queued nodes and the goroutines before `Done`. A node
  -- inside `schedule` is counted too.
  pub record IsAccounted (s : System 𝓠 𝓢) : Type 0 where
    pub flat : IsFlat s.core.heap
    pub placed : All IsPlaced s.threads
    pub counts : (g : ℕ) → Counts 𝓠 𝓢 g s.core.heap s.core (total (refs s.core.heap g) s.threads)
    pub waits : Waits 𝓠 𝓢 s.core (total units s.threads)

  -- Where `Run` was just called on an executor that does nothing, for a graph that lists no node
  -- twice.
  pub record IsStarting (s : System 𝓠 𝓢) : Type 0 where
    pub graph : ℕ
    pub flat : IsFlat s.core.heap
    pub distinct : IsDistinct (s.core.heap.graph graph).nodes
    pub unused : (g : ℕ) → (s.core.heap.graph g).join_counter ≡ 0
    pub no_queue : 𝓠.contents s.core.wq ≡ []
    pub no_units : s.core.wg ≡ 0
    pub caller :
        s.threads ≡ record { node = nil; parent = nil; span = nil; pc = setting_up graph nil } ∷ []

  IsFlat-SameShape : (h k : Heap) → IsFlat h → SameShape h k → IsFlat k
  IsFlat-SameShape h k flat s a b e = flat a b (ground (arith, s.node a))

  module _ (i : Input) (c : Core 𝓠 𝓢) (t : Thread) (before after new : List Thread) (d : Core 𝓠 𝓢)
      (acts : act 𝓠 𝓢 i c t t.pc ≡ some (d, new)) (flat : IsFlat c.heap) (place : IsPlaced t) where
    shape : SameShape c.heap d.heap
    shape =
        subst (Ensures 𝓠 𝓢 (λ c' n. SameShape c.heap c'.heap)) acts
          (act-SameShape 𝓠 𝓢 i c t t.pc flat)

    turn-Counts :
        (g : ℕ)
        → Counts 𝓠 𝓢 g c.heap c (total (refs c.heap g) (before ++ t ∷ after))
        → Counts 𝓠 𝓢 g d.heap d (total (refs d.heap g) (before ++ (new ++ after)))
    turn-Counts g b =
        let others = total (refs c.heap g) before + total (refs c.heap g) after in
        let stepped =
          subst (Ensures 𝓠 𝓢 (λ c' n. Counts 𝓠 𝓢 g c.heap c' (total (refs c.heap g) n + others)))
            acts
            (act-Counts 𝓠 𝓢 g i c t others t.pc flat place.0 place.1
              (omega (arith, total-append (refs c.heap g) before (t ∷ after)))) in
        omega (
          arith,
          total-append (refs d.heap g) before (new ++ after),
          total-append (refs d.heap g) new after,
          total-refs-SameShape c.heap d.heap g before shape,
          total-refs-SameShape c.heap d.heap g new shape,
          total-refs-SameShape c.heap d.heap g after shape,
          total-homed-SameShape c.heap d.heap g (𝓠.contents d.wq) shape,
        )

    turn-Waits :
        Waits 𝓠 𝓢 c (total units (before ++ t ∷ after))
        → Waits 𝓠 𝓢 d (total units (before ++ (new ++ after)))
    turn-Waits b =
        let others = total units before + total units after in
        let stepped = subst (Ensures 𝓠 𝓢 (λ c' n. Waits 𝓠 𝓢 c' (total units n + others))) acts (
          act-Waits 𝓠 𝓢 i c t others t.pc flat place.0
            (omega (arith, total-append units before (t ∷ after)))) in
        omega (arith, total-append units before (new ++ after), total-append units new after)

  -- Every step keeps the accounts.
  pub Step-IsAccounted : {s u : System 𝓠 𝓢} → Step 𝓠 𝓢 s u → IsAccounted s → IsAccounted u
  Step-IsAccounted {s} (turn i t before after new d at acts goes) a =
      let placed = subst (All IsPlaced) at a.placed in
      let (p0, p1, p2) = All-split IsPlaced before t after placed in
      subst IsAccounted (sym goes) (record {
        flat =
            IsFlat-SameShape s.core.heap d.heap a.flat
              (shape i s.core t before after new d acts a.flat p1);
        placed = All-append IsPlaced before (new ++ after) p0 (
            All-append IsPlaced new after
              (subst (Ensures 𝓠 𝓢 (λ c' n. All IsPlaced n)) acts
                (act-IsPlaced 𝓠 𝓢 i s.core t t.pc a.flat p1.0))
              p2);
        counts = λ g. turn-Counts i s.core t before after new d acts a.flat p1 g (
            subst (λ ts. Counts 𝓠 𝓢 g s.core.heap s.core (total (refs s.core.heap g) ts)) at
              (a.counts g));
        waits =
            turn-Waits i s.core t before after new d acts a.flat p1
              (subst (λ ts. Waits 𝓠 𝓢 s.core (total units ts)) at a.waits);
      })

  launch-unused :
      (h : Heap) (g : ℕ)
      → IsDistinct (h.graph g).nodes
      → ((k : ℕ) → (h.graph k).join_counter ≡ 0)
      → (k : ℕ) → ((launch 𝓠 𝓢 h g).graph k).join_counter ≡ 0
  unfolding launch
  launch-unused h g d z k = ground (arith, setup_lem h g d k, z k)

  pub single :
      (before : List Thread) (t : Thread) (after : List Thread) (m : Thread)
      → before ++ t ∷ after ≡ m ∷ []
      → (before ≡ []) × (t ≡ m) × (after ≡ [])
  single [] t after m e = (refl, cc, cc)
  single (b ∷ []) t after m e = cc
  single (b ∷ c ∷ before) t after m e = cc

  states :
      {c d : Core 𝓠 𝓢} {before after new : List Thread} {t : Thread}
      → before ≡ []
      → d ≡ c
      → new ≡ t ∷ []
      → after ≡ []
      → ◌≡◌ {A = System 𝓠 𝓢}
          (record { core = d; threads = before ++ (new ++ after) })
          (record { core = c; threads = t ∷ [] })
  states eb ed en ea = rw (eb, ed, en, ea)

  -- What the first step makes of such a state: the graph is set up, and its entries are scheduled.
  abbrev pub launched : (s : System 𝓠 𝓢) → ℕ → System 𝓠 𝓢
  launched s g =
      let h = launch 𝓠 𝓢 s.core.heap g in
      record {
        core = record s.core { heap = h };
        threads =
            record {
              node = nil;
              parent = nil;
              span = nil;
              pc = scheduling (h.graph g).entries (watch g nil);
            }
            ∷ [];
      }

  pub Step-launched :
      {s u : System 𝓠 𝓢} → Step 𝓠 𝓢 s u → (a : IsStarting s) → u ≡ launched s a.graph
  unfolding act
  Step-launched {s} {u} (turn i t before after new d at acts goes) a =
      let c = s.core in
      let caller : Thread = record {
        node = nil;
        parent = nil;
        span = nil;
        pc = setting_up a.graph nil;
      } in
      let (e0, e1, e2) = single before t after caller (sym at ∙ a.caller) in
      let h = launch 𝓠 𝓢 c.heap a.graph in
      let went = subst (λ x. act 𝓠 𝓢 i c x x.pc ≡ some (d, new)) e1 acts in
      let same : Core 𝓠 𝓢 = record c { heap = h } in
      let t' : Thread = record caller {
        pc = scheduling (h.graph a.graph).entries (watch a.graph nil);
      } in
      let core_eq : same ≡ d = cc in
      let new_eq : t' ∷ [] ≡ new = cc in goes ∙ states e0 (sym core_eq) (sym new_eq) e2

  -- The accounts hold behind the first step.
  pub launched-IsAccounted : {s : System 𝓠 𝓢} (a : IsStarting s) → IsAccounted (launched s a.graph)
  launched-IsAccounted {s} a = record {
    flat =
        IsFlat-SameShape s.core.heap (launch 𝓠 𝓢 s.core.heap a.graph) a.flat
          (launch-SameShape 𝓠 𝓢 s.core.heap a.graph);
    placed = ((λ e. refl, refl), tt);
    counts =
        λ g. ground (arith, a.no_queue, launch-unused s.core.heap a.graph a.distinct a.unused g);
    waits = ground (arith, a.no_queue, a.no_units);
  }

  Step-IsStarting : {s u : System 𝓠 𝓢} → Step 𝓠 𝓢 s u → IsStarting s → IsAccounted u
  Step-IsStarting st a = subst IsAccounted (sym (Step-launched st a)) (launched-IsAccounted a)

  pub Reach-IsAccounted :
      {s u : System 𝓠 𝓢} → IsStarting s → Reach 𝓠 𝓢 s u → (u ≡ s) ⊎ IsAccounted u
  Reach-IsAccounted a here = inl refl
  Reach-IsAccounted {s} a (next {v = v} r st) = elim (Reach-IsAccounted a r) [
    | inl e ↦ inr (Step-IsStarting (subst (λ x. Step 𝓠 𝓢 x v) e st) a)
    | inr acc ↦ inr (Step-IsAccounted st acc)
  ]
