-- ===== src/Executor/Sound.antt =====
-- Every step of a run within the bounds of `wg` keeps what such a run of one closed graph keeps.
use mathlib.Core.Path.{subst}
use go_taskflow.Base.{
  All-append, All-split, ℕ, ◌+◌, ◌<◌, ◌≤◌, ◌^◌, ◌≡◌, ◌≢◌, refl, sym, ap, ◌∙◌, List, [], ◌∷◌, ◌++◌,
  true, false, Bool-cases, inl, inr, if◌then◌else◌, ◌==◌, arith, some, All, total, total-append,
}
use go_taskflow.Memory.{Heap, nil}
use go_taskflow.Queue.{Queue}
use go_taskflow.Sort.{Sort}
use go_taskflow.Executor.{System, Step, turn}
use go_taskflow.Executor.Goroutine.{ending, Thread, at, Input}
use go_taskflow.Executor.Act.{Core, act, Ensures, is_over}
use go_taskflow.Executor.Flat.{IsFlat, act-SameShape}
use go_taskflow.Executor.Shape.{SameShape, SameShape-trans}
use go_taskflow.Executor.Weights.{working, underway, refs, units, in_graph, held}
use go_taskflow.Executor.Accounting.{Counts}
use go_taskflow.Executor.WaitGroup.{Waits}
use go_taskflow.Executor.Roots.{IsPlaced}
use go_taskflow.Executor.Steady.{StaysCanceled, act-StaysCanceled, act-SameQueue, act-SameCounter}
use go_taskflow.Executor.Homes.{IsClosed, IsAtHome}
use go_taskflow.Executor.Homed.{Homed, act-Homed}
use go_taskflow.Executor.Invariant.{IsAccounted, Step-IsAccounted}
use go_taskflow.Executor.Within.{decides, IsOver, HasWork, decides_at, calls, IsSound}
use go_taskflow.Executor.Outside.{
  out_decides, out_left, total-homed-le-length, refs-le-units, total-refs-le-units,
  IsAtHome-in_graph, IsAtHome-IsMember,
}
use go_taskflow.Executor.Works.{idle-Works, act-Works, act-IsOver}
use go_taskflow.Executor.Callers.{act-calls, act-decides}

module _ (𝓠 : Queue ℕ) (𝓢 : Sort) (h : Heap) (g : ℕ) where
  -- A goroutine that still holds its reference keeps the counter of its graph from zero.
  held-counter :
      (c : Core 𝓠 𝓢) (t : Thread) (others waiting : ℕ)
      → Counts 𝓠 𝓢 g c.heap c (refs c.heap g t + others)
      → Waits 𝓠 𝓢 c (units t + waiting)
      → others ≤ waiting
      → c.wg < 2 ^ 32
      → held t.pc ≡ true
      → (c.heap.node t.node).g ≡ g
      → (c.heap.graph g).join_counter ≢ 0
  held-counter c t others waiting counts waits le low holds home zero =
      let one : 1 ≤ refs c.heap g t = ground arith in
      omega (arith, refs-le-units c.heap g t, total-homed-le-length c.heap g (𝓠.contents c.wq))

  module _ (i : Input) (c d : Core 𝓠 𝓢) (t : Thread) (new : List Thread)
      (acts : act 𝓠 𝓢 i c t t.pc ≡ some (d, new)) (flat : IsFlat c.heap)
      (out : in_graph t.pc ≡ false)
      (counter : held t.pc ≡ true → (c.heap.graph g).join_counter ≢ 0) where
    -- A goroutine of a node does not take back that the graph is over.
    stays_over : is_over 𝓠 𝓢 c.heap g ≡ true → is_over 𝓠 𝓢 d.heap g ≡ true
    stays_over over =
        let canceled =
          subst (Ensures 𝓠 𝓢 (λ e n. StaysCanceled g c.heap e.heap)) acts
            (act-StaysCanceled 𝓠 𝓢 g i c t t.pc flat out) in
        elim (Bool-cases (held t.pc)) [
          | inl e ↦ let busy = counter e in ground arith
          | inr e ↦
              let same =
                subst
                  (Ensures 𝓠 𝓢
                    (λ x n. (x.heap.graph g).join_counter ≡ (c.heap.graph g).join_counter))
                  acts (act-SameCounter 𝓠 𝓢 g i c t t.pc out e) in
              ground arith
        ]

    others-HasWork :
        (l : List Thread)
        → (total decides l ≢ 0 → c.mu ≡ true)
        → All (λ r. IsAtHome h g r.node r.pc) l
        → All (HasWork 𝓠 𝓢 c) l
        → All (HasWork 𝓠 𝓢 d) l
    others-HasWork [] mu at works = tt
    others-HasWork (r ∷ l) mu at works = (
      λ k pg e over empty.
          let home : (r.node ≡ nil) × (k ≡ g) = subst (IsAtHome h g r.node) e at.0 in
          let one : decides r ≡ 1 = ap decides_at e in
          let kept =
            subst (Ensures 𝓠 𝓢 (λ x n. c.mu ≡ true → (x.wq ≡ c.wq) × (x.mu ≡ true))) acts
              (act-SameQueue 𝓠 𝓢 g i c t t.pc out) (mu (λ z. absurd (omega arith))) in
          elim (Bool-cases (is_over 𝓠 𝓢 c.heap g)) [
            | inl still ↦ absurd (
                let same : is_over 𝓠 𝓢 d.heap g ≡ false =
                  subst (λ x. is_over 𝓠 𝓢 d.heap x ≡ false) home.1 over in
                cc (stays_over still))
            | inr going ↦
                works.0 k pg e (subst (λ x. is_over 𝓠 𝓢 c.heap x ≡ false) (sym home.1) going)
                  (ap 𝓠.contents (sym kept.0) ∙ empty)
          ],
      others-HasWork l (λ z. mu (λ y. z (omega arith))) at.1 works.1,
    )

    others-IsOver : (l : List Thread) → All (IsOver 𝓠 𝓢 g c.heap) l → All (IsOver 𝓠 𝓢 g d.heap) l
    others-IsOver [] over = tt
    others-IsOver (r ∷ l) over = ((λ e. stays_over (over.0 e)), others-IsOver l over.1)

  -- Goroutines of nodes have not left the loop.
  nodes-IsOver :
      (k : Heap) (l : List Thread)
      → All (λ r. IsAtHome h g r.node r.pc) l
      → total calls l ≡ 0
      → All (IsOver 𝓠 𝓢 g k) l
  nodes-IsOver k [] home e = tt
  nodes-IsOver k (r ∷ l) home e =
      let real : r.node ≢ nil = λ z. absurd (ground arith) in
      let outside = IsAtHome-in_graph h g r.node r.pc home.0 real in
      (
        λ x. absurd (let same : false ≡ true = sym (out_left r.pc outside) ∙ x in cc same),
        nodes-IsOver k l home.1 (omega arith),
      )

  -- Where the caller takes the step, nobody else holds `e.mu`.
  no_decides :
      (l : List Thread)
      → All (λ r. IsAtHome h g r.node r.pc) l
      → total calls l ≡ 0
      → total decides l ≡ 0
  no_decides [] at e = refl
  no_decides (r ∷ l) at e =
      let real : r.node ≢ nil = λ z. absurd (ground arith) in
      let outside = IsAtHome-in_graph h g r.node r.pc at.0 real in
      let none_here : decides r ≡ 0 = out_decides r.pc outside in
      omega (arith, no_decides l at.1 (omega arith))

  pub Step-IsSound :
      {s u : System 𝓠 𝓢}
      → IsClosed h g
      → Step 𝓠 𝓢 s u
      → s.core.wg < 2 ^ 32
      → IsSound 𝓠 𝓢 h g s
      → IsSound 𝓠 𝓢 h g u
  Step-IsSound {s} closed (turn i t before after new d eq acts goes) low a =
      let c = s.core in
      let flat = a.accounted.flat in
      let (p0, p1, p2) =
        All-split IsPlaced before t after (subst (All IsPlaced) eq a.accounted.placed) in
      let (h0, h1, h2) =
        All-split (λ r. IsAtHome h g r.node r.pc) before t after
          (subst (All (λ r. IsAtHome h g r.node r.pc)) eq a.at_home) in
      let (w0, w1, w2) =
        All-split (HasWork 𝓠 𝓢 c) before t after (subst (All (HasWork 𝓠 𝓢 c)) eq a.has_work) in
      let units_sum = ap (total units) eq ∙ total-append units before (t ∷ after) in
      let waits = a.accounted.waits in
      let counts = a.accounted.counts g in
      let refs_sum =
        ap (total (refs c.heap g)) eq ∙ total-append (refs c.heap g) before (t ∷ after) in
      let calls_sum = ap (total calls) eq ∙ total-append calls before (t ∷ after) in
      let decides_sum = ap (total decides) eq ∙ total-append decides before (t ∷ after) in
      let one_caller = a.one_caller in
      let held_once = a.held_once in
      let done : t.pc ≡ ending → c.wg ≢ 0 = λ e zero.
        let one_unit : units t ≡ 1 = ap (λ q. working q + underway q) e in absurd (omega arith) in
      let homed =
        subst (Ensures 𝓠 𝓢 (Homed h g closed 𝓠 𝓢)) acts
          (act-Homed h g closed 𝓠 𝓢 c a.shape flat a.queued i t t.pc h1 p1.1 done w1) in
      let called =
        subst (Ensures 𝓠 𝓢 (λ x n. total calls n ≡ calls t)) acts
          (act-calls 𝓠 𝓢 h g i c t t.pc h1 a.queued) in
      let decided =
        subst
          (Ensures 𝓠 𝓢 (λ x n.
            total decides n + (if c.mu then 1 else 0) ≡ decides t + (if x.mu then 1 else 0)))
          acts (act-decides 𝓠 𝓢 i c t t.pc flat (omega arith) w1) in
      let works =
        subst (Ensures 𝓠 𝓢 (λ x n. All (HasWork 𝓠 𝓢 x) n)) acts (act-Works 𝓠 𝓢 i c t t.pc) in
      let (o0, o1, o2) =
        All-split (IsOver 𝓠 𝓢 g c.heap) before t after
          (subst (All (IsOver 𝓠 𝓢 g c.heap)) eq a.left_over) in
      let others : (All (HasWork 𝓠 𝓢 d) before × All (HasWork 𝓠 𝓢 d) after)
          × (All (IsOver 𝓠 𝓢 g d.heap) before
              × All (IsOver 𝓠 𝓢 g d.heap) new
              × All (IsOver 𝓠 𝓢 g d.heap) after) =
        elim (Bool-cases (t.node == nil)) [
          | inl e ↦ (
            (
              idle-Works 𝓠 𝓢 d before (no_decides before h0 (ground arith)),
              idle-Works 𝓠 𝓢 d after (no_decides after h2 (ground arith)),
            ),
            (
              nodes-IsOver d.heap before h0 (ground arith),
              subst (Ensures 𝓠 𝓢 (λ x n. All (IsOver 𝓠 𝓢 g x.heap) n)) acts
                  (act-IsOver 𝓠 𝓢 h g i c t t.pc (ground arith) h1 o1),
              nodes-IsOver d.heap after h2 (ground arith),
            ),
          )
          | inr e ↦
              let real : t.node ≢ nil = λ z. absurd (ground arith) in
              let out = IsAtHome-in_graph h g t.node t.pc h1 real in
              let member = IsAtHome-IsMember h g t.node t.pc h1 real in
              let counter : held t.pc ≡ true → (c.heap.graph g).join_counter ≢ 0 = λ e1.
                held-counter c t (total (refs c.heap g) before + total (refs c.heap g) after)
                  (total units before + total units after) (omega arith) (omega arith)
                  (omega (
                    arith,
                    total-refs-le-units c.heap g before,
                    total-refs-le-units c.heap g after,
                  ))
                  low e1 (subst (λ x. x ≡ g) (ground (arith, a.shape.node t.node)) member.1) in
              (
                (
                  others-HasWork i c d t new acts flat out counter before (λ z. ground arith) h0 w0,
                  others-HasWork i c d t new acts flat out counter after (λ z. ground arith) h2 w2,
                ),
                (
                  others-IsOver i c d t new acts flat out counter before o0,
                  nodes-IsOver d.heap new homed.0 (ground arith),
                  others-IsOver i c d t new acts flat out counter after o2,
                ),
              )
        ] in
      subst (IsSound 𝓠 𝓢 h g) (sym goes) (record {
        accounted =
            subst (IsAccounted 𝓠 𝓢) goes
              (Step-IsAccounted 𝓠 𝓢 (turn i t before after new d eq acts goes) a.accounted);
        shape = SameShape-trans a.shape (
            subst (Ensures 𝓠 𝓢 (λ x n. SameShape c.heap x.heap)) acts
              (act-SameShape 𝓠 𝓢 i c t t.pc flat));
        at_home =
            All-append (λ r. IsAtHome h g r.node r.pc) before (new ++ after) h0
              (All-append (λ r. IsAtHome h g r.node r.pc) new after homed.0 h2);
        queued = homed.1;
        one_caller =
            omega (arith, total-append calls before (new ++ after), total-append calls new after);
        held_once =
            omega
              (arith, total-append decides before (new ++ after), total-append decides new after);
        has_work =
            All-append (HasWork 𝓠 𝓢 d) before (new ++ after) others.0.0
              (All-append (HasWork 𝓠 𝓢 d) new after works others.0.1);
        left_over =
            All-append (IsOver 𝓠 𝓢 g d.heap) before (new ++ after) others.1.0
              (All-append (IsOver 𝓠 𝓢 g d.heap) new after others.1.1 others.1.2);
      })
