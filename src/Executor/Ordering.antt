-- ===== src/Executor/Ordering.antt =====
-- Every step of a flow of static tasks keeps the log in order.
use mathlib.Core.Path.{subst}
use go_taskflow.Base.{
  ℕ, ◌+◌, ◌≤◌, ◌<◌, ◌^◌, ◌≡◌, sym, List, [], ◌∷◌, ◌++◌, Bool, true, false, if◌then◌else◌, arith,
  some, total, total_around, count, All, All-append, All-split, Bool-cases, inl, inr,
}
use go_taskflow.Memory.{Heap}
use go_taskflow.Memory.Writes.{CountersFit}
use go_taskflow.Queue.{Queue}
use go_taskflow.Sort.{Sort}
use go_taskflow.Executor.{System, Step, turn}
use go_taskflow.Executor.Act.{Core, act, Ensures}
use go_taskflow.Executor.Goroutine.{Thread, Input}
use go_taskflow.Executor.Weights.{in_graph, is_setting}
use go_taskflow.Executor.Homes.{IsAtHome}
use go_taskflow.Executor.Shape.{SameShape}
use go_taskflow.Executor.Flat.{IsFlat}
use go_taskflow.Executor.Roots.{IsPlaced}
use go_taskflow.Executor.Within.{IsSound}
use go_taskflow.Executor.Steady.{StaysCanceled, act-StaysCanceled, caller-StaysCanceled}
use go_taskflow.Executor.Ledger.{ledger, ledger-plus, needs, started}
use go_taskflow.Executor.Changes.{Move, Move-plus}
use go_taskflow.Executor.Books.{is_listed, IsBalanced, Move-IsSingle, Move-IsBalanced}
use go_taskflow.Executor.Awake.{Move-IsAwake}
use go_taskflow.Executor.Moves.{Moves, act-Move}
use go_taskflow.Executor.Tidy.{IsTidy, Tidies, act-IsTidy}
use go_taskflow.Executor.Replies.{
  called, in_call, expects, engaged, Serve, calm, skip, enter, reply, admit, Serves, act-Serves,
}
use go_taskflow.Executor.Logs.{IsTaskFlow, starts, calls}
use go_taskflow.Executor.Orderly.{
  Serve-IsServed, given-le-needs, called-IsOrdered, IsOrderly, may_enter,
}

-- What other goroutines count is added on both sides.
Serve-plus :
    (b : ℕ) (canceled : Bool) (n k n' k' x y : ℕ) (new replies : List ℕ)
    → Serve b canceled n k n' k' new replies
    → Serve b canceled (n + x) (k + y) (n' + x) (k' + y) new replies
Serve-plus b c n k n' k' x y _ _ (calm e f) = calm (omega arith) (omega arith)
Serve-plus b c n k n' k' x y _ _ (skip z e f) = skip z (omega arith) (omega arith)
Serve-plus b c n k n' k' x y _ _ (enter z e f p) = enter z (omega arith) (omega arith) (omega arith)
Serve-plus b c n k n' k' x y _ _ (reply a e f) = reply a (omega arith) (omega arith)
Serve-plus b c n k n' k' x y _ _ (admit a e f) = admit a (omega arith) (omega arith)

-- Who is behind the test of `canceled` after a step was so before, or has just made the test.
Serve-ready :
    (P : List ℕ → Type 0) (b : ℕ) (canceled : Bool) (n k n' k' : ℕ) (done : List ℕ)
    → ((a : ℕ) → P done → P (a ∷ done))
    → (canceled ≡ false → 1 ≤ n → P done)
    → (1 ≤ k → P done)
    → (new replies : List ℕ) → Serve b canceled n k n' k' new replies
    → 1 ≤ k'
    → P (replies ++ done)
Serve-ready P b c n k n' k' done more test was _ _ (calm e f) p = was (omega arith)
Serve-ready P b c n k n' k' done more test was _ _ (skip z e f) p = was (omega arith)
Serve-ready P b c n k n' k' done more test was _ _ (enter z e f m) p = test z m
Serve-ready P b c n k n' k' done more test was _ _ (reply a e f) p = more a (was (omega arith))
Serve-ready P b c n k n' k' done more test was _ _ (admit a e f) p = was (omega arith)

engaged_self :
    (before : List Thread) (t : Thread) (after : List Thread)
    → in_call t.pc ≡ true
    → 1 ≤ total (engaged t.node) (before ++ t ∷ after)
engaged_self before t after e = ground (arith, total_around (engaged t.node) before (t ∷ []) after)

module _ (𝓠 : Queue ℕ) (𝓢 : Sort) (h : Heap) (g : ℕ) (flow : IsTaskFlow h g) where
  module _ (i : Input) (c : Core 𝓠 𝓢) (t : Thread) (before after new : List Thread) (d : Core 𝓠 𝓢)
      (acts : act 𝓠 𝓢 i c t t.pc ≡ some (d, new)) (same : SameShape h c.heap)
      (home : IsAtHome h g t.node t.pc) (tidy : IsTidy 𝓠 𝓢 h g t.node t.pc) where
    turn-Move :
        CountersFit c.heap
        → (b : ℕ)
        → Move h g b
            (c.heap.graph g).canceled
            (ledger 𝓠 𝓢 h g b c (before ++ t ∷ after))
            (ledger 𝓠 𝓢 h g b d (before ++ (new ++ after)))
            (started new)
    turn-Move fits b =
        let moved : Moves 𝓠 𝓢 h g b c t t.pc d new =
          subst (Ensures 𝓠 𝓢 (Moves 𝓠 𝓢 h g b c t t.pc)) acts
            (act-Move 𝓠 𝓢 h g b i c t t.pc same flow.static fits home tidy.plain (tidy.drops b)) in
        rw (ledger-plus 𝓠 𝓢 h g b c before (t ∷ []) after, ledger-plus 𝓠 𝓢 h g b d before new after)
          (Move-plus h g b (c.heap.graph g).canceled _ _ _ _ _ _ (started new) moved)

    turn-Serves :
        (b : ℕ)
        → Serve b
            (c.heap.graph g).canceled
            (total (expects b) (before ++ t ∷ after))
            (total (engaged b) (before ++ t ∷ after))
            (total (expects b) (before ++ (new ++ after)))
            (total (engaged b) (before ++ (new ++ after)))
            (started new)
            (called t.node t.pc)
    turn-Serves b =
        let served : Serves 𝓠 𝓢 h g b c t t.pc d new =
          subst (Ensures 𝓠 𝓢 (Serves 𝓠 𝓢 h g b c t t.pc)) acts
            (act-Serves 𝓠 𝓢 h g b i c t t.pc same flow.static home tidy.plain) in
        rw
          (
            total_around (expects b) before (t ∷ []) after,
            total_around (engaged b) before (t ∷ []) after,
            total_around (expects b) before new after,
            total_around (engaged b) before new after,
          )
          (Serve-plus b (c.heap.graph g).canceled _ _ _ _ _ _ (started new) (called t.node t.pc)
            served)

    turn-StaysCanceled : IsFlat c.heap → is_setting t.pc ≡ false → StaysCanceled g c.heap d.heap
    turn-StaysCanceled flat calm_pc = elim (Bool-cases (in_graph t.pc)) [
      | inl inside ↦
          subst (Ensures 𝓠 𝓢 (λ e n. StaysCanceled g c.heap e.heap)) acts
            (caller-StaysCanceled 𝓠 𝓢 g i c t t.pc inside calm_pc)
      | inr out ↦
          subst (Ensures 𝓠 𝓢 (λ e n. StaysCanceled g c.heap e.heap)) acts
            (act-StaysCanceled 𝓠 𝓢 g i c t t.pc flat out)
    ]

    module _ {begun done : List ℕ}
        (o : IsOrderly 𝓠 𝓢 h g flow begun done (record { core = c; threads = before ++ t ∷ after }))
        (stays : StaysCanceled g c.heap d.heap) where
      moves :
          (b : ℕ)
          → Move h g b
              (c.heap.graph g).canceled
              (ledger 𝓠 𝓢 h g b c (before ++ t ∷ after))
              (ledger 𝓠 𝓢 h g b d (before ++ (new ++ after)))
              (started new)
      moves = turn-Move (λ a. (o.balanced a).fits)

      few_needs : (b : ℕ) → needs h b g < 2 ^ 32
      few_needs b = ground (arith, flow.few b)

      once_after : (a : ℕ) → count a (started new ++ begun) ≤ (if is_listed h g a then 1 else 0)
      once_after a = omega (
        arith,
        Move-IsSingle h g a (c.heap.graph g).canceled _ _ begun (few_needs a) (o.balanced a)
            (started new) (moves a),
      )

      turn-IsBalanced :
          (b : ℕ)
          → IsBalanced h g b (ledger 𝓠 𝓢 h g b d (before ++ (new ++ after))) (started new ++ begun)
      turn-IsBalanced b =
          Move-IsBalanced h g b (c.heap.graph g).canceled _ _ begun (few_needs b) (o.balanced b)
            (started new) (given-le-needs h g flow b (started new ++ begun) once_after) (moves b)

      turn-IsOrderly :
          IsOrderly 𝓠 𝓢 h g flow
            (started new ++ begun)
            (called t.node t.pc ++ done)
            (record { core = d; threads = before ++ (new ++ after) })
      turn-IsOrderly = record {
        tidy =
            let IsNeat : Thread → Type 0 = λ r. IsTidy 𝓠 𝓢 h g r.node r.pc in
            let (p0, p1, p2) = All-split IsNeat before t after o.tidy in
            All-append IsNeat before (new ++ after) p0 (
              All-append IsNeat new after
                (subst (Ensures 𝓠 𝓢 (Tidies 𝓠 𝓢 h g)) acts
                  (act-IsTidy 𝓠 𝓢 h g i c t t.pc same flow.static home tidy))
                p2);
        balanced = turn-IsBalanced;
        served = λ b.
            Serve-IsServed b (c.heap.graph g).canceled (d.heap.graph g).canceled _ _ _ _ begun done
              stays (o.served b) (started new) (called t.node t.pc) (turn-Serves b);
        awake = λ live b.
            let was_live : (c.heap.graph g).canceled ≡ false = ground arith in
            Move-IsAwake h g b (c.heap.graph g).canceled _ _ begun was_live (o.balanced b)
              (o.awake was_live b) (started new) (moves b);
        ready = λ b n.
            Serve-ready (λ l. (x : ℕ) → 1 ≤ count x (h.node b).dependents → 1 ≤ count x l) b
              (c.heap.graph g).canceled _ _ _ _ done (λ a p x dep. omega (arith, p x dep))
              (λ live m. may_enter 𝓠 𝓢 h g flow o live b m) (λ m. o.ready b m) (started new)
              (called t.node t.pc) (turn-Serves b) n;
        ordered =
            called-IsOrdered h t.node t.pc done
              (λ e. o.ready t.node (engaged_self before t after e)) o.ordered;
      }

  -- Every step keeps the log in order.
  pub Step-IsOrderly :
      {u v : System 𝓠 𝓢} {begun done : List ℕ} (st : Step 𝓠 𝓢 u v)
      → IsSound 𝓠 𝓢 h g u
      → IsOrderly 𝓠 𝓢 h g flow begun done u
      → IsOrderly 𝓠 𝓢 h g flow (starts 𝓠 𝓢 st ++ begun) (calls 𝓠 𝓢 st ++ done) v
  Step-IsOrderly {u} {v} {begun} {done} (turn i t before after new d at acts goes) sound o =
      let o' : IsOrderly 𝓠 𝓢 h g flow begun done
          (record { core = u.core; threads = before ++ t ∷ after }) =
        subst (λ ts. IsOrderly 𝓠 𝓢 h g flow begun done (record { core = u.core; threads = ts })) at
          o in
      let IsNeat : Thread → Type 0 = λ r. IsTidy 𝓠 𝓢 h g r.node r.pc in
      let IsIn : Thread → Type 0 = λ r. IsAtHome h g r.node r.pc in
      let tidy : IsNeat t = (All-split IsNeat before t after o'.tidy).1 in
      let home : IsIn t = (All-split IsIn before t after (subst (All IsIn) at sound.at_home)).1 in
      let placed : IsPlaced t =
        (All-split IsPlaced before t after (subst (All IsPlaced) at sound.accounted.placed)).1 in
      let stays =
        turn-StaysCanceled i u.core t before after new d acts sound.shape home tidy
          sound.accounted.flat placed.1 in
      subst (IsOrderly 𝓠 𝓢 h g flow (started new ++ begun) (called t.node t.pc ++ done)) (sym goes)
        (turn-IsOrderly i u.core t before after new d acts sound.shape home tidy o' stays)
