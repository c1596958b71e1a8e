-- ===== src/Executor/Acting.antt =====
-- Where some goroutine can take the next step of a run of one closed graph, and what is left where
-- none can.
use mathlib.Core.Path.{subst}
use go_taskflow.Base.{
  All-split, ℕ, ◌+◌, ◌<◌, ◌^◌, ◌≡◌, ◌≢◌, refl, sym, ap, List, [], ◌∷◌, true, false, Bool-cases, inl,
  inr, ◌⊎◌, if◌then◌else◌, arith, Bool, some, none, All, length-eq_zero, total, length,
}
use go_taskflow.Memory.{Heap, nil}
use go_taskflow.Queue.{Queue}
use go_taskflow.Sort.{Sort}
use go_taskflow.Executor.{System}
use go_taskflow.Executor.Goroutine.{
  Pc, scheduling, putting, looping, deciding, dropping, scanning, ending, ended, overdrawn, crashed,
  Thread, Input,
}
use go_taskflow.Executor.Act.{Core, act, may_go_on}
use go_taskflow.Executor.Weights.{refs, units, homed, pending, working, underway, in_graph, held}
use go_taskflow.Executor.Accounting.{Counts}
use go_taskflow.Executor.WaitGroup.{Waits}
use go_taskflow.Executor.Homes.{IsAtHome}
use go_taskflow.Executor.Within.{has_left, IsOver, calls, IsSound}
use go_taskflow.Executor.Outside.{IsAtHome-in_graph}
use go_taskflow.Executor.Progress.{is_crashed}
use go_taskflow.Executor.Finding.{may_wait, not_none, Holds, find_decider, find_node, members-homed}

-- The caller of `Run` that has returned.
abbrev has_ended : Pc → Bool
has_ended ended = true
has_ended _ = false

has_ended-eq : (pc : Pc) → has_ended pc ≡ true → pc ≡ ended
has_ended-eq ended e = refl
has_ended-eq (scheduling rest k) e = absurd cc
has_ended-eq _ e = absurd cc

module _ (𝓠 : Queue ℕ) (𝓢 : Sort) where
  pub acts :
      (i : Input) (c : Core 𝓠 𝓢) (t : Thread) (pc : Pc)
      → is_crashed pc ≡ false
      → may_wait pc ≡ false
      → act 𝓠 𝓢 i c t pc ≢ none
  unfolding act
  acts i c t ended live free e = absurd cc
  acts i c t overdrawn live free e = absurd cc
  acts i c t (crashed k) live free e = absurd cc
  acts i c t (putting n rest k) live free e = absurd cc
  acts i c t (looping k pg) live free e = absurd cc
  acts i c t ending live free e = ground arith
  acts i c t (deciding k pg) live free e = ground arith
  acts i c t (scheduling [] k) live free e = cc
  acts i c t (scheduling (n ∷ rest) k) live free e = cc
  acts i c t (dropping []) live free e = cc
  acts i c t (dropping (s ∷ rest)) live free e = cc
  acts i c t (scanning [] cand) live free e = cc
  acts i c t (scanning (n ∷ rest) cand) live free e = cc
  acts i c t _ live free e = cc

  -- The caller has left, nothing runs, and what is queued is what `wg` still counts: nothing, unless
  -- the graph was canceled.
  pub record IsFinished (g : ℕ) (s : System 𝓠 𝓢) : Type 0 where
    pub all_ended : All (λ t. t.pc ≡ ended) s.threads
    pub counted : s.core.wg ≡ length (𝓠.contents s.core.wq)
    pub emptied : (s.core.heap.graph g).canceled ≡ false → 𝓠.contents s.core.wq ≡ []

  -- There is a goroutine that can take its next step, whatever the step reads from outside.
  abbrev pub GoesOn : System 𝓠 𝓢 → Type 0
  GoesOn s =
      Holds
        (λ t.
          (i : Input)
          → (d : Core 𝓠 𝓢) × (new : List Thread) × (act 𝓠 𝓢 i s.core t t.pc ≡ some (d, new)))
        s.threads

  pub held_acts :
      (s : System 𝓠 𝓢) (P : Thread → Type 0)
      → Holds P s.threads
      → ((i : Input) (t : Thread) → P t → act 𝓠 𝓢 i s.core t t.pc ≢ none)
      → GoesOn s
  held_acts s P (before, t, after, e, p) goes = (
    before,
    t,
    after,
    e,
    λ i. let ((d, new), ok) = not_none (act 𝓠 𝓢 i s.core t t.pc) (goes i t p) in (d, new, ok),
  )

  pub only_one : (l : List Thread) → length l ≡ 1 → (t : Thread) × (l ≡ t ∷ [])
  only_one [] e = absurd (omega arith)
  only_one (t ∷ []) e = (t, refl)
  only_one (t ∷ r ∷ l) e = absurd (omega arith)

  -- A goroutine of a node acts if nobody holds `e.mu`.
  node_acts :
      (i : Input) (h : Heap) (g : ℕ) (c : Core 𝓠 𝓢) (t : Thread) (pc : Pc)
      → c.mu ≡ false
      → IsAtHome h g t.node pc
      → in_graph pc ≡ false
      → act 𝓠 𝓢 i c t pc ≢ none
  unfolding act
  node_acts i h g c t (putting n rest k) free m out = λ e. absurd ((ground arith))
  node_acts i h g c t (looping k pg) free m out = λ e. absurd (cc)
  node_acts i h g c t ended free m out = λ e. absurd (cc)
  node_acts i h g c t (scheduling rest k) free m out = acts i c t (scheduling rest k) refl refl
  node_acts i h g c t (deciding k pg) free m out = λ e. absurd (cc)
  node_acts i h g c t (dropping rest) free m out = acts i c t (dropping rest) refl refl
  node_acts i h g c t (scanning rest cand) free m out = acts i c t (scanning rest cand) refl refl
  node_acts i h g c t overdrawn free m out = absurd m
  node_acts i h g c t (crashed k) free m out = absurd m
  node_acts i h g c t ending free m out = acts i c t ending refl refl
  node_acts i h g c t pc free m out = acts i c t pc refl refl

  -- The caller acts unless it waits in its loop for nothing, or has ended.
  caller_acts :
      (i : Input) (h : Heap) (g : ℕ) (c : Core 𝓠 𝓢) (t : Thread) (pc : Pc)
      → c.mu ≡ false
      → t.node ≡ nil
      → IsAtHome h g t.node pc
      → ((k pg : ℕ) → pc ≡ looping k pg → may_go_on 𝓠 𝓢 c k ≡ true)
      → (pc ≡ ended) ⊎ (act 𝓠 𝓢 i c t pc ≢ none)
  unfolding act
  caller_acts i h g c t ended free root m on = inl refl
  caller_acts i h g c t (looping k pg) free root m on =
      let goes = on k pg refl in inr (λ e. absurd (ground arith))
  caller_acts i h g c t (putting n rest k) free root m on = inr (λ e. absurd (ground arith))
  caller_acts i h g c t overdrawn free root m on = absurd m
  caller_acts i h g c t (crashed k) free root m on = absurd m
  caller_acts i h g c t (scheduling rest k) free root m on =
      inr (acts i c t (scheduling rest k) refl refl)
  caller_acts i h g c t (deciding k pg) free root m on = inr (acts i c t (deciding k pg) refl refl)
  caller_acts i h g c t (dropping rest) free root m on = inr (acts i c t (dropping rest) refl refl)
  caller_acts i h g c t (scanning rest cand) free root m on =
      inr (acts i c t (scanning rest cand) refl refl)
  caller_acts i h g c t pc free root m on = inr (acts i c t pc refl refl)

  -- With only the caller left, the loop goes on: the graph is over or the queue has a node.
  pub alone_goes_on :
      (h : Heap) (g : ℕ) (s : System 𝓠 𝓢) (t : Thread)
      → IsSound 𝓠 𝓢 h g s
      → s.threads ≡ t ∷ []
      → (k pg : ℕ) → t.pc ≡ looping k pg
      → may_go_on 𝓠 𝓢 s.core k ≡ true
  unfolding may_go_on
  alone_goes_on h g s t a one k pg e =
      let home : IsAtHome h g t.node t.pc =
        (subst (All (λ r. IsAtHome h g r.node r.pc)) one a.at_home).0 in
      let (root, same) = subst (IsAtHome h g t.node) e home in
      let counts =
        subst (λ ts. Counts 𝓠 𝓢 k s.core.heap s.core (total (refs s.core.heap k) ts)) one
          (a.accounted.counts k) in
      let free : refs s.core.heap k t ≡ 0 =
        ap (λ p. (if held p then homed s.core.heap k t.node else 0) + pending s.core.heap k p) e in
      go (𝓠.contents s.core.wq) refl counts free
    where
      go :
          (l : List ℕ)
          → 𝓠.contents s.core.wq ≡ l
          → Counts 𝓠 𝓢 k s.core.heap s.core (total (refs s.core.heap k) (t ∷ []))
          → refs s.core.heap k t ≡ 0
          → may_go_on 𝓠 𝓢 s.core k ≡ true
      go [] q counts free = ground (arith, ap (total (homed s.core.heap k)) q)
      go (n ∷ l) q counts free = ground (arith, 𝓠.len-eq s.core.wq, ap length q)

  finished :
      (h : Heap) (g : ℕ) (s : System 𝓠 𝓢) (t : Thread)
      → IsSound 𝓠 𝓢 h g s
      → s.core.wg < 2 ^ 32
      → s.threads ≡ t ∷ []
      → t.pc ≡ ended
      → IsFinished g s
  finished h g s t a low one e = record {
    all_ended = subst (All (λ r. r.pc ≡ ended)) (sym one) (e, tt);
    counted =
        let waits = subst (λ ts. Waits 𝓠 𝓢 s.core (total units ts)) one a.accounted.waits in
        let none_held : units t ≡ 0 = ap (λ p. working p + underway p) e in omega arith;
    emptied = λ live.
        let over = (subst (All (IsOver 𝓠 𝓢 g s.core.heap)) one a.left_over).0 (ap has_left e) in
        let counts =
          subst (λ ts. Counts 𝓠 𝓢 g s.core.heap s.core (total (refs s.core.heap g) ts)) one
            (a.accounted.counts g) in
        let free : refs s.core.heap g t ≡ 0 =
          ap (λ p. (if held p then homed s.core.heap g t.node else 0) + pending s.core.heap g p)
            e in
        let waits = subst (λ ts. Waits 𝓠 𝓢 s.core (total units ts)) one a.accounted.waits in
        let at_zero : (s.core.heap.graph g).join_counter ≡ 0 = ground arith in
        let mine = members-homed h s.core.heap g (𝓠.contents s.core.wq) a.shape a.queued in
        length-eq_zero (𝓠.contents s.core.wq) (omega arith);
  }

  -- With `e.mu` free, a goroutine of a node goes on.
  pub node_goes :
      (h : Heap) (g : ℕ) (s : System 𝓠 𝓢)
      → IsSound 𝓠 𝓢 h g s
      → s.core.mu ≡ false
      → Holds (λ t. t.node ≢ nil) s.threads
      → Holds
          (λ t.
            (t.node ≢ nil)
            × ((i : Input)
                → (d : Core 𝓠 𝓢) × (new : List Thread) × (act 𝓠 𝓢 i s.core t t.pc ≡ some (d, new))))
          s.threads
  node_goes h g s a free (before, t, after, e, real) =
      let (h0, h1, h2) =
        All-split (λ r. IsAtHome h g r.node r.pc) before t after
          (subst (All (λ r. IsAtHome h g r.node r.pc)) e a.at_home) in
      (
        before,
        t,
        after,
        e,
        (
          real,
          λ i.
              let ((d, new), ok) = not_none (act 𝓠 𝓢 i s.core t t.pc) (
                node_acts i h g s.core t t.pc free h1
                  (IsAtHome-in_graph h g t.node t.pc h1 real)) in
              (d, new, ok),
        ),
      )

  pub sound_runs_on :
      (h : Heap) (g : ℕ) (s : System 𝓠 𝓢)
      → IsSound 𝓠 𝓢 h g s
      → s.core.wg < 2 ^ 32
      → GoesOn s ⊎ IsFinished g s
  sound_runs_on h g s a low =
      let held_once = a.held_once in
      let one_caller = a.one_caller in
      elim (Bool-cases s.core.mu) [
        | inl taken ↦ inl (
            held_acts s (λ t. (k : ℕ) × (pg : ℕ) × (t.pc ≡ deciding k pg))
              (find_decider s.threads (λ z. absurd (ground arith)))
              (λ i t found.
                subst (λ p. act 𝓠 𝓢 i s.core t p ≢ none) (sym found.2)
                  (acts i s.core t (deciding found.0 found.1) refl refl)))
        | inr free ↦ elim (find_node s.threads) [
          | inl found ↦
              let (before, t, after, e, (real, goes)) = node_goes h g s a free found in
              inl (before, t, after, e, goes)
          | inr all ↦
              let (t, one) = only_one s.threads (omega arith) in
              let home : IsAtHome h g t.node t.pc =
                (subst (All (λ r. IsAtHome h g r.node r.pc)) one a.at_home).0 in
              let root : t.node ≡ nil =
                let called : total calls (t ∷ []) ≡ 1 =
                  subst (λ ts. total calls ts ≡ 1) one one_caller in
                ground arith in
              elim (Bool-cases (has_ended t.pc)) [
                | inl e ↦ inr (finished h g s t a low one (has_ended-eq t.pc e))
                | inr live ↦ inl (
                    held_acts s (λ r. (i : Input) → act 𝓠 𝓢 i s.core r r.pc ≢ none)
                      (
                        [],
                        t,
                        [],
                        one,
                        λ i.
                            elim (caller_acts i h g s.core t t.pc free root home
                              (alone_goes_on h g s t a one)) [
                                | inl e ↦ absurd (ground arith)
                                | inr goes ↦ goes
                              ],
                      )
                      (λ i r goes. goes i))
              ]
        ]
      ]
