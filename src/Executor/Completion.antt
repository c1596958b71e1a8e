-- ===== src/Executor/Completion.antt =====
-- Finished runs of a flow of static tasks without a cycle: every task has run.
use mathlib.Core.Path.{subst}
use go_taskflow.Base.{
  ℕ, zero, suc, ◌≤◌, ◌<◌, ◌^◌, ◌≡◌, refl, ap, List, [], ◌∷◌, ◌++◌, true, false, arith, inl, inr,
  total, count, All, shared-ge-length, length, contains, Bool-cases, ◌==◌, if◌then◌else◌,
}
use go_taskflow.Memory.{Heap}
use go_taskflow.Queue.{Queue}
use go_taskflow.Sort.{Sort}
use go_taskflow.Executor.{System, Step, turn, may_return}
use go_taskflow.Executor.Goroutine.{ended, Thread, Input, Reply}
use go_taskflow.Executor.Progress.{IsRunnable}
use go_taskflow.Executor.Acting.{IsFinished}
use go_taskflow.Executor.Ledger.{needs, owes, owes_at, scans, scans_at, holds, holds_at}
use go_taskflow.Executor.Books.{given, is_listed}
use go_taskflow.Executor.Replies.{before_reply, expects}
use go_taskflow.Executor.Logs.{IsTaskFlow, Logged, Logged-Within}
use go_taskflow.Executor.Orderly.{IsOrderly, given-shared, needs-eq}
use go_taskflow.Executor.Careful.{IsCareful, careful-canceled}
use go_taskflow.Executor.Liveness.{runs_on}
use go_taskflow.Executor.Runs.{Logged-IsOrderly}

-- A number for each task that is larger than those of its dependents: no task waits for itself.
pub record IsAcyclic (h : Heap) (g : ℕ) : Type 0 where
  pub rank : ℕ → ℕ
  pub rises :
      (d b : ℕ)
      → contains b (h.graph g).nodes ≡ true
      → 1 ≤ count d (h.node b).dependents
      → rank d < rank b

-- A goroutine that has ended has nothing to do.
module _ (h : Heap) (b : ℕ) where
  ended-owes : (ts : List Thread) → All (λ t. t.pc ≡ ended) ts → total (owes h b) ts ≡ 0
  ended-owes [] e = refl
  ended-owes (t ∷ ts) e = omega (arith, ap (owes_at h b t.node) e.0, ended-owes ts e.1)

  ended-scans : (ts : List Thread) → All (λ t. t.pc ≡ ended) ts → total (scans h b) ts ≡ 0
  ended-scans [] e = refl
  ended-scans (t ∷ ts) e = omega (arith, ap (scans_at h b t.node) e.0, ended-scans ts e.1)

  ended-holds : (ts : List Thread) → All (λ t. t.pc ≡ ended) ts → total (holds h b) ts ≡ 0
  ended-holds [] e = refl
  ended-holds (t ∷ ts) e = omega (arith, ap (holds_at h b) e.0, ended-holds ts e.1)

  ended-expects : (ts : List Thread) → All (λ t. t.pc ≡ ended) ts → total (expects b) ts ≡ 0
  ended-expects [] e = refl
  ended-expects (t ∷ ts) e = ground (arith, ap before_reply e.0, ended-expects ts e.1)

module _ (𝓠 : Queue ℕ) (𝓢 : Sort) (h : Heap) (g : ℕ) (flow : IsTaskFlow h g) {begun done : List ℕ}
    {u : System 𝓠 𝓢} (o : IsOrderly 𝓠 𝓢 h g flow begun done u) (over : IsFinished 𝓠 𝓢 g u)
    (live : (u.core.heap.graph g).canceled ≡ false) where
  none_out : (b : ℕ) → count b (𝓠.contents u.core.wq) ≡ 0
  none_out b = ap (count b) (over.emptied live)

  -- A task whose dependents were all started was started.
  starts_next :
      (b : ℕ)
      → is_listed h g b ≡ true
      → ((d : ℕ) → 1 ≤ count d (h.node b).dependents → 1 ≤ count d begun)
      → 1 ≤ count b begun
  starts_next b mine all = elim (Bool-cases (count b begun == 0)) [
    | inl missing ↦
        let awake = o.awake live b in
        let balanced = o.balanced b in
        let owed = ended-owes h b u.threads over.all_ended in
        let ahead = ended-scans h b u.threads over.all_ended in
        let held = ended-holds h b u.threads over.all_ended in
        let free = none_out b in
        elim (Bool-cases (needs h b g == 0)) [
          | inl entry ↦ absurd (ground (arith, awake.entered mine))
          | inr waits ↦
              let n : 1 ≤ needs h b g = ground arith in
              let full : given h g b begun ≡ needs h b g = omega (
                arith,
                given-shared h g flow b begun mine,
                needs-eq h g flow b mine,
                shared-ge-length begun (h.node b).dependents all,
                balanced.enough,
              ) in
              let books = balanced.books n in
              let unready = balanced.unready in
              let fits = balanced.fits in
              let few = flow.few b in
              let same = needs-eq h g flow b mine in absurd (ground (arith, awake.watched n))
        ]
    | inr some_yet ↦ ground arith
  ]

  starts_all :
      (acyclic : IsAcyclic h g) (n b : ℕ)
      → acyclic.rank b < n
      → is_listed h g b ≡ true
      → 1 ≤ count b begun
  starts_all acyclic zero b low mine = absurd (omega arith)
  starts_all acyclic (suc n) b low mine = starts_next b mine (λ d dep.
      let below : acyclic.rank d < n = omega (arith, acyclic.rises d b mine dep) in
      starts_all acyclic n d below (elim (Bool-cases (is_listed h g d)) [
        | inl here ↦ here
        | inr out ↦ absurd (omega (arith, flow.above d b out mine))
      ]))

  finished_calls : IsAcyclic h g → (b : ℕ) → count b done ≡ (if is_listed h g b then 1 else 0)
  finished_calls acyclic b =
      let exact = (o.served b).exactly live in
      let single = (o.balanced b).single in
      let over_all = ended-expects h b u.threads over.all_ended in
      elim (Bool-cases (is_listed h g b)) [
        | inl mine ↦
            let begun_it : 1 ≤ count b begun =
              starts_all acyclic (suc (acyclic.rank b)) b (omega arith) mine in
            ground arith
        | inr out ↦ ground arith
      ]

module _ (𝓠 : Queue ℕ) (𝓢 : Sort) where
  not_started : {s : System 𝓠 𝓢} (a : IsRunnable 𝓠 𝓢 s) → IsFinished 𝓠 𝓢 a.starting.graph s → ⊥
  not_started {s} a over =
      let all = subst (All (λ (t : Thread). t.pc ≡ ended)) a.starting.caller over.all_ended in
      absurd (cc (all.0))

  -- A careful run of a flow of static tasks without a cycle that has come to its end, where no
  -- goroutine can take a step, has called the function of every task of the graph exactly once, and
  -- no other function; and `Wait` may return there. The run starts where `Run` is called on an
  -- executor that does nothing, with a graph that is not canceled, whose edges stay inside it and
  -- mirror each other, and whose counters fit their 32 bits; no function panics, and the counter of
  -- `wg` stays within its 32 bits.
  pub runs_all :
      {s u : System 𝓠 𝓢} {begun done : List ℕ} (a : IsRunnable 𝓠 𝓢 s)
      → IsTaskFlow s.core.heap a.starting.graph
      → IsAcyclic s.core.heap a.starting.graph
      → (s.core.heap.graph a.starting.graph).canceled ≡ false
      → (l : Logged 𝓠 𝓢 s begun done u) → IsCareful 𝓠 𝓢 l
      → u.core.wg < 2 ^ 32
      → ((v : System 𝓠 𝓢) → Step 𝓠 𝓢 u v → ⊥)
      → (may_return 𝓠 𝓢 u ≡ true)
        × ((b : ℕ)
            → count b done
              ≡ (if contains b (s.core.heap.graph a.starting.graph).nodes then 1 else 0))
  runs_all {s} {u} a flow acyclic live l careful low stuck =
      let idle : Input = record { now = 0; reply = Reply.returned; calls = [] } in
      let still_live = careful-canceled 𝓠 𝓢 a flow live l careful in
      elim (runs_on 𝓠 𝓢 a (Logged-Within 𝓠 𝓢 l) low) [
        | inl (before, t, after, e, goes) ↦
            let (d, new, ok) = goes idle in
            absurd (
              stuck record { core = d; threads = before ++ (new ++ after) }
                (turn idle t before after new d e ok refl))
        | inr over ↦ elim (Logged-IsOrderly 𝓠 𝓢 a flow l) [
          | inl (e, eb, ed, z) ↦
              absurd (not_started a (subst (IsFinished 𝓠 𝓢 a.starting.graph) e over))
          | inr (sound, o) ↦ (
            let emptied = ap length (over.emptied still_live) in
                let counted = over.counted in ground arith,
            finished_calls 𝓠 𝓢 s.core.heap a.starting.graph flow o over still_live acyclic,
          )
        ]
      ]
