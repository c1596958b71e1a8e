-- ===== src/Executor/Ending.antt =====
-- Runs of a flow of static tasks end: a bound on the number of their steps.
use mathlib.Core.Path.{subst}
use go_taskflow.Base.{
  ℕ, ◌+◌, ◌*◌, ◌≤◌, ◌<◌, ◌^◌, ◌≡◌, refl, List, [], ◌∷◌, ◌++◌, Bool, true, ◌==◌, if◌then◌else◌,
  arith, inl, inr, ◌⊎◌, total, total_around, count, contains, length, select, length-same_count,
  All, All-split,
}
use go_taskflow.Memory.{Heap}
use go_taskflow.Queue.{Queue}
use go_taskflow.Sort.{Sort}
use go_taskflow.Graph
use go_taskflow.Graph.Setup.{setup_lem, sources}
use go_taskflow.Executor.{System, Step, turn}
use go_taskflow.Executor.Goroutine.{Thread}
use go_taskflow.Executor.Act.{Ensures, launch}
use go_taskflow.Executor.Homes.{IsAtHome}
use go_taskflow.Executor.Within.{IsSound}
use go_taskflow.Executor.Invariant.{IsStarting, launched, Step-launched}
use go_taskflow.Executor.Progress.{IsRunnable}
use go_taskflow.Executor.Ledger.{started}
use go_taskflow.Executor.Books.{is_listed}
use go_taskflow.Executor.Tidy.{IsTidy}
use go_taskflow.Executor.Effort.{effort, cost, Spends, act-Spends}
use go_taskflow.Executor.Logs.{IsTaskFlow, starts, Logged, steps, blank, note}
use go_taskflow.Executor.Orderly.{IsOrderly}
use go_taskflow.Executor.Ordering.{Step-IsOrderly}
use go_taskflow.Executor.Runs.{first_step, Logged-IsOrderly}

module _ (c : ℕ → ℕ) where
  -- What the tasks that were not started yet cost.
  abbrev left : List ℕ → List ℕ → ℕ
  left nodes begun = total (λ b. if count b begun == 0 then c b else 0) nodes

  left_falls : (nodes : List ℕ) (a : ℕ) (begun : List ℕ) → left nodes (a ∷ begun) ≤ left nodes begun
  left_falls [] a begun = omega arith
  left_falls (x ∷ nodes) a begun = ground (arith, left_falls nodes a begun)

  left-cons :
      (nodes : List ℕ) (a : ℕ) (begun : List ℕ)
      → contains a nodes ≡ true
      → count a begun ≡ 0
      → left nodes (a ∷ begun) + c a ≤ left nodes begun
  left-cons [] a begun mine new = absurd cc
  left-cons (x ∷ nodes) a begun mine new =
      ground (arith, left_falls nodes a begun, left-cons nodes a begun)

  left-nil : (nodes : List ℕ) → left nodes [] ≡ total c nodes
  left-nil [] = refl
  left-nil (x ∷ nodes) = omega (arith, left-nil nodes)

length-select : (p : ℕ → Bool) (l : List ℕ) → length (select p l) ≤ length l
length-select p [] = omega arith
length-select p (x ∷ l) = ground (arith, length-select p l)

-- The steps of a run of graph `g` are no more than this.
unfoldable pub most_steps : Heap → ℕ → ℕ
most_steps h g = 2 * length (h.graph g).nodes + total (cost h) (h.graph g).nodes + 5

module _ (𝓠 : Queue ℕ) (𝓢 : Sort) where
  module _ (h : Heap) (g : ℕ) where
    -- The steps that are left in a state.
    abbrev still : List ℕ → System 𝓠 𝓢 → ℕ
    still begun u = total (effort h) u.threads + left (cost h) (h.graph g).nodes begun

    module _ (flow : IsTaskFlow h g) where
      started-left :
          (new : List Thread) (begun : List ℕ)
          → ((a : ℕ) → count a (started new ++ begun) ≤ (if is_listed h g a then 1 else 0))
          → left (cost h) (h.graph g).nodes (started new ++ begun) + total (cost h) (started new)
            ≤ left (cost h) (h.graph g).nodes begun
      started-left [] begun once = omega arith
      started-left (t ∷ []) begun once = omega arith
      started-left (t ∷ r ∷ ts) begun once =
          let n = once r.node in
          omega
            (arith, left-cons (cost h) (h.graph g).nodes r.node begun (ground arith) (ground arith))

      Step-still :
          {u v : System 𝓠 𝓢} {begun done : List ℕ} (st : Step 𝓠 𝓢 u v)
          → IsSound 𝓠 𝓢 h g u
          → IsOrderly 𝓠 𝓢 h g flow begun done u
          → still (starts 𝓠 𝓢 st ++ begun) v + 1 ≤ still begun u
      Step-still {u} {v} {begun} (turn i t before after new d at acts goes) sound o =
          let o' = Step-IsOrderly 𝓠 𝓢 h g flow (turn i t before after new d at acts goes) sound o in
          let IsNeat : Thread → Type 0 = λ r. IsTidy 𝓠 𝓢 h g r.node r.pc in
          let IsIn : Thread → Type 0 = λ r. IsAtHome h g r.node r.pc in
          let tidy : IsNeat t =
            (All-split IsNeat before t after (subst (All IsNeat) at o.tidy)).1 in
          let home : IsIn t =
            (All-split IsIn before t after (subst (All IsIn) at sound.at_home)).1 in
          let spent : Spends 𝓠 𝓢 h g t t.pc d new =
            subst (Ensures 𝓠 𝓢 (Spends 𝓠 𝓢 h g t t.pc)) acts
              (act-Spends 𝓠 𝓢 h g i u.core t t.pc sound.shape flow.static home tidy.plain) in
          let paid = started-left new begun (λ a. omega (arith, (o'.balanced a).single)) in
          rw (goes, at)
            (omega (
              arith,
              total_around (effort h) before (t ∷ []) after,
              total_around (effort h) before new after,
            ))

  launched-still :
      (s : System 𝓠 𝓢) (a : IsStarting 𝓠 𝓢 s)
      → still s.core.heap a.graph [] (launched 𝓠 𝓢 s a.graph) + 1 ≤ most_steps s.core.heap a.graph
  unfolding most_steps launch
  launched-still s a =
      let h = s.core.heap in
      let g = a.graph in
      let key : ℕ → ℕ = λ n. ((Graph.setup h g).node n).priority in
      let es = ((Graph.setup h g).graph g).entries in
      let set_up : es ≡ sources h.node (h.graph g).nodes =
        ground (arith, (setup_lem h g a.distinct g).1) in
      let few : length es ≤ length (h.graph g).nodes =
        rw set_up (length-select (λ n. Graph.is_empty (h.node n).dependents) (h.graph g).nodes) in
      let sorted = length-same_count (𝓢.sort key es) es (𝓢.count-sort key es) in
      let all = left-nil (cost h) (h.graph g).nodes in ground arith

  abbrev Bounded :
      {s u : System 𝓠 𝓢} {begun done : List ℕ}
      → IsRunnable 𝓠 𝓢 s
      → Logged 𝓠 𝓢 s begun done u
      → Type 0
  Bounded {s} {u} {begun} a l =
      (steps 𝓠 𝓢 l ≡ 0)
      ⊎ (steps 𝓠 𝓢 l + still s.core.heap a.starting.graph begun u
          ≤ most_steps s.core.heap a.starting.graph)

  note-Bounded :
      {s u v : System 𝓠 𝓢} {begun done : List ℕ} (a : IsRunnable 𝓠 𝓢 s)
      (flow : IsTaskFlow s.core.heap a.starting.graph) (l : Logged 𝓠 𝓢 s begun done u)
      (low : u.core.wg < 2 ^ 32) (st : Step 𝓠 𝓢 u v)
      → Bounded a l
      → Bounded a (note l low st)
  note-Bounded {s} a flow blank low st b =
      let (no_start, no_call) = first_step 𝓠 𝓢 st a.starting in
      inr (
        rw (no_start, Step-launched 𝓠 𝓢 st a.starting) (omega (arith, launched-still s a.starting)))
  note-Bounded {s} a flow (note m low' st') low st b =
      elim (Logged-IsOrderly 𝓠 𝓢 a flow (note m low' st')) [
        | inl (e, eb, ed, none_yet) ↦ absurd (omega (arith, none_yet))
        | inr (sound, o) ↦ elim b [
          | inl none_yet ↦ absurd (omega (arith, none_yet))
          | inr within ↦
              inr (omega (arith, Step-still s.core.heap a.starting.graph flow st sound o))
        ]
      ]

  Logged-still :
      {s u : System 𝓠 𝓢} {begun done : List ℕ} (a : IsRunnable 𝓠 𝓢 s)
      → IsTaskFlow s.core.heap a.starting.graph
      → (l : Logged 𝓠 𝓢 s begun done u) → Bounded a l
  Logged-still a flow blank = inl refl
  Logged-still a flow (note l low st) = note-Bounded a flow l low st (Logged-still a flow l)

  -- Every run of a flow of static tasks ends: it takes no more steps than `most_steps`, which is five
  -- and, for each task of the graph, seventeen and four for each of its successors. The run starts as
  -- for `runs_once`, whatever the client's functions do.
  pub run_ends :
      {s u : System 𝓠 𝓢} {begun done : List ℕ} (a : IsRunnable 𝓠 𝓢 s)
      → IsTaskFlow s.core.heap a.starting.graph
      → (l : Logged 𝓠 𝓢 s begun done u) → steps 𝓠 𝓢 l ≤ most_steps s.core.heap a.starting.graph
  run_ends a flow l = elim (Logged-still a flow l) [
    | inl none_yet ↦ omega (arith, none_yet)
    | inr within ↦ omega (arith, within)
  ]
