-- ===== src/Executor/Careful.antt =====
-- Runs in which no function of the client panics: the graph is not canceled.
use mathlib.Core.Path.{subst}
use go_taskflow.Base.{
  ℕ, ◌≡◌, refl, sym, List, [], ◌∷◌, ◌++◌, Bool, true, false, not, arith, if_both, Option, none,
  some, inl, inr, All, All-append, All-split, ◌==◌,
}
use go_taskflow.Memory.{Heap, Ptr, nil}
use go_taskflow.Node
use go_taskflow.Graph
use go_taskflow.Queue.{Queue}
use go_taskflow.Sort.{Sort}
use go_taskflow.Graph.Setup.{setup_lem}
use go_taskflow.Executor.{System, Step, turn}
use go_taskflow.Executor.Goroutine.{
  After, release, settle, watch, Pc, opening, checking, marking, handling, finishing, choosing,
  recovering, closing, setting_up, scheduling, putting, looping, deciding, leaving, dropping,
  scanning, resetting, dereffing, restoring, ending, ended, overdrawn, crashed, Thread, at, Input,
  Reply,
}
use go_taskflow.Executor.Handlers.{
  handle, after_close, after_drop, after_deref, resume, nil_panic, scan_one,
}
use go_taskflow.Executor.Act.{
  Core, act, Ensures, launch, schedule_one, invoke_node, leave, may_go_on, is_over,
}
use go_taskflow.Executor.Accounting.{setup-graph}
use go_taskflow.Executor.Shape.{SameShape}
use go_taskflow.Executor.Homes.{IsAtHome}
use go_taskflow.Executor.Ledger.{is_plain}
use go_taskflow.Executor.Static.{IsStatic, ptr_eq}
use go_taskflow.Executor.Within.{IsSound}
use go_taskflow.Executor.Invariant.{IsStarting, launched, Step-launched}
use go_taskflow.Executor.Progress.{IsRunnable}
use go_taskflow.Executor.Tidy.{IsTidy}
use go_taskflow.Executor.Logs.{IsTaskFlow, Logged, blank, note}
use go_taskflow.Executor.Orderly.{IsOrderly}
use go_taskflow.Executor.Runs.{Logged-IsOrderly}

abbrev is_recovering : Pc → Bool
is_recovering recovering = true
is_recovering _ = false

abbrev pub panics : Reply → Bool
panics Reply.panicked = true
panics _ = false

module _ (𝓠 : Queue ℕ) (𝓢 : Sort) (h : Heap) (g : ℕ) where
  -- The graph is not canceled, and nobody is about to cancel it.
  abbrev Fine : Core 𝓠 𝓢 → List Thread → Type 0
  Fine d new = ((d.heap.graph g).canceled ≡ false) × All (λ t. is_recovering t.pc ≡ false) new

  schedule_one-Fine :
      (c : Core 𝓠 𝓢) (t : Thread) (n : ℕ) (rest : List ℕ) (k : After)
      → is_plain (scheduling (n ∷ rest) k) ≡ true
      → (c.heap.graph g).canceled ≡ false
      → let (d, r) = schedule_one 𝓠 𝓢 c t n rest k in Fine d (r ∷ [])
  unfolding schedule_one resume nil_panic Graph.ref
  schedule_one-Fine c t n rest release p live = (ground arith, (ground arith, tt))
  schedule_one-Fine c t n rest settle p live = absurd cc
  schedule_one-Fine c t n rest (watch k pg) p live = (ground arith, (ground arith, tt))

  invoke_node-Fine :
      (c : Core 𝓠 𝓢) (t : Thread) (k pg : ℕ)
      → (c.heap.graph g).canceled ≡ false
      → let (d, new) = invoke_node 𝓠 𝓢 c t k pg in Fine d new
  unfolding invoke_node
  invoke_node-Fine c t k pg live = split (𝓠.pop c.wq) refl
    where
      split :
          (o : Option (ℕ × 𝓠.Carrier))
          → 𝓠.pop c.wq ≡ o
          → let (d, new) = invoke_node 𝓠 𝓢 c t k pg in Fine d new
      split none e = rw (e, invoke_node) (live, (refl, tt))
      split (some (n, q)) e = rw (e, invoke_node) (live, (refl, (refl, tt)))

  handle-Fine :
      (c : Core 𝓠 𝓢) (t : Thread) (i : Input) (r : Reply)
      → panics r ≡ false
      → (c.heap.graph g).canceled ≡ false
      → let (h', pc) = handle c.heap t.node Ptr.static (record i { reply = r }) in
        Fine (record c { heap = h' }) (at t pc ∷ [])
  unfolding handle
  handle-Fine c t i Reply.returned calm live = (live, (refl, tt))
  handle-Fine c t i (Reply.chose k) calm live = (live, (refl, tt))
  handle-Fine c t i Reply.panicked calm live = absurd cc

  leave-Fine :
      (c : Core 𝓠 𝓢) (t : Thread) (k pg : ℕ)
      → t.node ≡ nil
      → k ≡ g
      → (c.heap.graph g).canceled ≡ false
      → let (d, r) = leave 𝓠 𝓢 c t k pg in Fine d (r ∷ [])
  unfolding leave
  leave-Fine c t k pg root here live = (ground arith, (ground arith, tt))

  act-Fine :
      (i : Input) (c : Core 𝓠 𝓢) (t : Thread) (pc : Pc)
      → SameShape h c.heap
      → IsStatic h
      → IsAtHome h g t.node pc
      → is_plain pc ≡ true
      → panics i.reply ≡ false
      → is_recovering pc ≡ false
      → (c.heap.graph g).canceled ≡ false
      → Ensures 𝓠 𝓢 Fine (act 𝓠 𝓢 i c t pc)
  unfolding act after_close after_drop after_deref resume leave scan_one Graph.deref Node.deref
  act-Fine i c t opening same st home plain calm away live = (live, (refl, tt))
  act-Fine i c t checking same st home plain calm away live = (live, (ground arith, tt))
  act-Fine i c t marking same st home plain calm away live = (live, (refl, tt))
  act-Fine i c t handling same st home plain calm away live =
      rw (ptr_eq h c.heap same st t.node) (handle-Fine c t i i.reply calm live)
  act-Fine i c t finishing same st home plain calm away live = (live, (refl, tt))
  act-Fine i c t (choosing choice) same st home plain calm away live = absurd cc
  act-Fine i c t recovering same st home plain calm away live = absurd cc
  act-Fine i c t (closing ok) same st home plain calm away live =
      rw (ptr_eq h c.heap same st t.node) (live, (refl, tt))
  act-Fine i c t (setting_up k pg) same st home plain calm away live = absurd cc
  act-Fine i c t (scheduling [] release) same st home plain calm away live = (live, (refl, tt))
  act-Fine i c t (scheduling [] settle) same st home plain calm away live = absurd cc
  act-Fine i c t (scheduling [] (watch k pg)) same st home plain calm away live = (live, (refl, tt))
  act-Fine i c t (scheduling (n ∷ rest) k) same st home plain calm away live =
      schedule_one-Fine c t n rest k plain live
  act-Fine i c t (putting n rest k) same st home plain calm away live =
      if_both (Ensures 𝓠 𝓢 Fine) c.mu tt (live, (refl, tt))
  act-Fine i c t (looping k pg) same st home plain calm away live =
      if_both (Ensures 𝓠 𝓢 Fine) c.mu tt
        (if_both (Ensures 𝓠 𝓢 Fine) (may_go_on 𝓠 𝓢 c k) (live, (refl, tt)) tt)
  act-Fine i c t (deciding k pg) same st home plain calm away live =
      if_both (Ensures 𝓠 𝓢 Fine) (is_over 𝓠 𝓢 c.heap k) (live, (refl, tt))
        (invoke_node-Fine c t k pg live)
  act-Fine i c t (leaving k pg) same st home plain calm away live =
      leave-Fine c t k pg home.0 home.1 live
  act-Fine i c t (dropping []) same st home plain calm away live =
      rw (ptr_eq h c.heap same st t.node) (live, (refl, tt))
  act-Fine i c t (dropping (s ∷ rest)) same st home plain calm away live =
      (ground arith, (refl, tt))
  act-Fine i c t (scanning [] cand) same st home plain calm away live = (live, (refl, tt))
  act-Fine i c t (scanning (n ∷ rest) cand) same st home plain calm away live =
      (ground arith, (refl, tt))
  act-Fine i c t (resetting cand) same st home plain calm away live =
      rw (setup-graph c.heap t.node) (live, (refl, tt))
  act-Fine i c t dereffing same st home plain calm away live =
      rw (ptr_eq h c.heap same st t.node) (ground arith, (refl, tt))
  act-Fine i c t restoring same st home plain calm away live = absurd cc
  act-Fine i c t ending same st home plain calm away live =
      if_both (Ensures 𝓠 𝓢 Fine) (c.wg == 0) (live, (refl, tt)) (live, tt)
  act-Fine i c t overdrawn same st home plain calm away live = tt
  act-Fine i c t ended same st home plain calm away live = tt
  act-Fine i c t (crashed k) same st home plain calm away live = tt

module _ (𝓠 : Queue ℕ) (𝓢 : Sort) where
  abbrev pub is_careful : {u v : System 𝓠 𝓢} → Step 𝓠 𝓢 u v → Bool
  is_careful (turn i t before after new d at acts goes) = not (panics i.reply)

  -- A run in which no step reads that a function panics.
  abbrev pub IsCareful :
      {s u : System 𝓠 𝓢} {begun done : List ℕ} → Logged 𝓠 𝓢 s begun done u → Type 0
  IsCareful blank = Unit
  IsCareful (note l low st) = IsCareful l × (is_careful st ≡ true)

  Step-Fine :
      (h : Heap) (g : ℕ) (flow : IsTaskFlow h g) {u v : System 𝓠 𝓢} {begun done : List ℕ}
      (st : Step 𝓠 𝓢 u v)
      → is_careful st ≡ true
      → IsSound 𝓠 𝓢 h g u
      → IsOrderly 𝓠 𝓢 h g flow begun done u
      → Fine 𝓠 𝓢 h g u.core u.threads
      → Fine 𝓠 𝓢 h g v.core v.threads
  Step-Fine h g flow {u} {v} (turn i t before after new d at acts goes) calm sound o (live, away) =
      let IsNeat : Thread → Type 0 = λ r. IsTidy 𝓠 𝓢 h g r.node r.pc in
      let IsIn : Thread → Type 0 = λ r. IsAtHome h g r.node r.pc in
      let IsAway : Thread → Type 0 = λ r. is_recovering r.pc ≡ false in
      let tidy : IsNeat t = (All-split IsNeat before t after (subst (All IsNeat) at o.tidy)).1 in
      let home : IsIn t = (All-split IsIn before t after (subst (All IsIn) at sound.at_home)).1 in
      let (a0, a1, a2) = All-split IsAway before t after (subst (All IsAway) at away) in
      let (live', new_away) = subst (Ensures 𝓠 𝓢 (Fine 𝓠 𝓢 h g)) acts (
        act-Fine 𝓠 𝓢 h g i u.core t t.pc sound.shape flow.static home tidy.plain (ground arith) a1
          live) in
      subst (λ (x : System 𝓠 𝓢). Fine 𝓠 𝓢 h g x.core x.threads) (sym goes)
        (
          live',
          All-append IsAway before (new ++ after) a0 (All-append IsAway new after new_away a2),
        )

  launched-Fine :
      (s : System 𝓠 𝓢) (a : IsStarting 𝓠 𝓢 s)
      → (s.core.heap.graph a.graph).canceled ≡ false
      → let u = launched 𝓠 𝓢 s a.graph in Fine 𝓠 𝓢 s.core.heap a.graph u.core u.threads
  unfolding launch
  launched-Fine s a live =
      (ground (arith, (setup_lem s.core.heap a.graph a.distinct a.graph).1), (refl, tt))

  careful-Fine :
      {s u : System 𝓠 𝓢} {begun done : List ℕ} (a : IsRunnable 𝓠 𝓢 s)
      → IsTaskFlow s.core.heap a.starting.graph
      → (s.core.heap.graph a.starting.graph).canceled ≡ false
      → (l : Logged 𝓠 𝓢 s begun done u) → IsCareful l
      → Fine 𝓠 𝓢 s.core.heap a.starting.graph u.core u.threads
  careful-Fine {s} a flow live blank careful = rw (a.starting.caller) (live, (refl, tt))
  careful-Fine {s} a flow live (note {u = u} {v = v} l low st) careful =
      let h = s.core.heap in
      let g = a.starting.graph in
      elim (Logged-IsOrderly 𝓠 𝓢 a flow l) [
        | inl (e, eb, ed, z) ↦
            let at_first : v ≡ launched 𝓠 𝓢 s g =
              Step-launched 𝓠 𝓢 (subst (λ x. Step 𝓠 𝓢 x v) e st) a.starting in
            subst (λ (x : System 𝓠 𝓢). Fine 𝓠 𝓢 h g x.core x.threads) (sym at_first)
              (launched-Fine s a.starting live)
        | inr (sound, o) ↦
            Step-Fine h g flow st careful.1 sound o (careful-Fine a flow live l careful.0)
      ]

  pub careful-canceled :
      {s u : System 𝓠 𝓢} {begun done : List ℕ} (a : IsRunnable 𝓠 𝓢 s)
      → IsTaskFlow s.core.heap a.starting.graph
      → (s.core.heap.graph a.starting.graph).canceled ≡ false
      → (l : Logged 𝓠 𝓢 s begun done u) → IsCareful l
      → (u.core.heap.graph a.starting.graph).canceled ≡ false
  careful-canceled a flow live l careful = (careful-Fine a flow live l careful).0
