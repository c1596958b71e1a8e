-- ===== src/Executor/Entries.antt =====
-- The first step of a run of a flow of static tasks, which sets the graph up: the books are in
-- order, with the tasks without dependents about to be queued.
use go_taskflow.Base.{
  ℕ, ap, ◌≤◌, ◌≡◌, refl, List, [], ◌∷◌, Bool, true, false, if◌then◌else◌, arith, count, contains,
  length, select, IsDistinct, int32,
}
use go_taskflow.Memory.{Heap, is_idle}
use go_taskflow.Queue.{Queue}
use go_taskflow.Sort.{Sort}
use go_taskflow.Graph
use go_taskflow.Graph.Setup.{setup_lem}
use go_taskflow.Node.Counters.{strong}
use go_taskflow.Executor.{System}
use go_taskflow.Executor.Act.{launch}
use go_taskflow.Executor.Invariant.{IsStarting, launched}
use go_taskflow.Executor.Ledger.{Ledger, ledger, needs}
use go_taskflow.Executor.Books.{is_listed, IsBalanced}
use go_taskflow.Executor.Awake.{IsAwake}
use go_taskflow.Executor.Static.{strong-IsStatic}
use go_taskflow.Executor.Logs.{IsTaskFlow}
use go_taskflow.Executor.Orderly.{IsOrderly}

count-select :
    (p : ℕ → Bool) (b : ℕ) (l : List ℕ) → count b (select p l) ≡ (if p b then count b l else 0)
count-select p b [] = ground arith
count-select p b (x ∷ l) = ground (arith, count-select p b l)

count-contains : (b : ℕ) (l : List ℕ) → contains b l ≡ false → count b l ≡ 0
count-contains b [] e = refl
count-contains b (x ∷ l) e = ground (arith, count-contains b l)

count-IsDistinct : (b : ℕ) (l : List ℕ) → IsDistinct l → count b l ≡ (if contains b l then 1 else 0)
count-IsDistinct b [] d = refl
count-IsDistinct b (x ∷ l) d = ground (arith, count-IsDistinct b l d.1, count-contains x l d.0)

is_empty-length : (l : List ℕ) → length l ≡ (if Graph.is_empty l then 0 else length l)
is_empty-length [] = refl
is_empty-length (x ∷ l) = refl

is_filled : (l : List ℕ) → Graph.is_empty l ≡ false → 1 ≤ length l
is_filled [] e = absurd cc
is_filled (x ∷ l) e = omega arith

module _ (𝓠 : Queue ℕ) (𝓢 : Sort) (h : Heap) (g : ℕ) (distinct : IsDistinct (h.graph g).nodes)
    (b : ℕ) where
  -- The entries are the tasks without dependents, once each.
  launch-entries :
      count b ((launch 𝓠 𝓢 h g).graph g).entries
      ≡ (if is_listed h g b then if Graph.is_empty (h.node b).dependents then 1 else 0 else 0)
  unfolding launch
  launch-entries =
      let set_up = (setup_lem h g distinct g).1 in
      let key : ℕ → ℕ = λ a. ((Graph.setup h g).node a).priority in
      ground (
        arith,
        𝓢.count-sort key ((Graph.setup h g).graph g).entries b,
        count-select (λ n. Graph.is_empty (h.node n).dependents) b (h.graph g).nodes,
        count-IsDistinct b (h.graph g).nodes distinct,
      )

  launch-node : ((launch 𝓠 𝓢 h g).node b).join_counter ≡ (
      if is_listed h g b
      then int32 (strong h.node (h.node b).dependents)
      else (h.node b).join_counter)
  unfolding launch
  launch-node = ground (arith, (setup_lem h g distinct b).0)

  launch-is_idle : is_listed h g b ≡ true → is_idle ((launch 𝓠 𝓢 h g).node b).state ≡ true
  unfolding launch
  launch-is_idle e = ground (arith, (setup_lem h g distinct b).0)

module _ (𝓠 : Queue ℕ) (𝓢 : Sort) {s : System 𝓠 𝓢} (a : IsStarting 𝓠 𝓢 s)
    (flow : IsTaskFlow s.core.heap a.graph) where
  module _ (b : ℕ) where
    abbrev first : Ledger
    first = let u = launched 𝓠 𝓢 s a.graph in ledger 𝓠 𝓢 s.core.heap a.graph b u.core u.threads

    needs_of :
        Graph.is_empty (s.core.heap.node b).dependents ≡ true → needs s.core.heap b a.graph ≡ 0
    needs_of e = ground (arith, is_empty-length (s.core.heap.node b).dependents)

    entry : first.out ≡ (
        if is_listed s.core.heap a.graph b
        then if Graph.is_empty (s.core.heap.node b).dependents then 1 else 0
        else 0)
    entry =
        let empty : count b (𝓠.contents s.core.wq) ≡ 0 = ap (count b) a.no_queue in
        omega (arith, launch-entries 𝓠 𝓢 s.core.heap a.graph a.distinct b)

    launched-IsBalanced : IsBalanced s.core.heap a.graph b first []
    launched-IsBalanced =
        let counter = launch-node 𝓠 𝓢 s.core.heap a.graph a.distinct b in
        let deps : List ℕ = (s.core.heap.node b).dependents in
        let all_count = strong-IsStatic s.core.heap deps flow.static.typ in
        let out = entry in
        record {
          single = ground arith;
          enough = ground arith;
          due = omega arith;
          ahead = omega arith;
          unready = ground arith;
          fits = ground (arith, flow.fits b);
          books = λ n. ground arith;
          paid = λ n. (ground (arith, needs_of), refl);
          idle = λ n e. (ground (arith, needs_of), ground arith);
        }

    launched-IsAwake : IsAwake s.core.heap a.graph b first []
    launched-IsAwake =
        let counter = launch-node 𝓠 𝓢 s.core.heap a.graph a.distinct b in
        let deps : List ℕ = (s.core.heap.node b).dependents in
        let all_count = strong-IsStatic s.core.heap deps flow.static.typ in
        let few = flow.few b in
        let out = entry in
        record {
          rested = λ n f. launch-is_idle 𝓠 𝓢 s.core.heap a.graph a.distinct b (ground arith);
          watched = λ n f z. absurd (ground arith);
          entered = λ e f. ground (arith, is_filled deps);
        }

  pub launched-IsOrderly : IsOrderly 𝓠 𝓢 s.core.heap a.graph flow [] [] (launched 𝓠 𝓢 s a.graph)
  launched-IsOrderly = record {
    tidy = (record { plain = refl; drops = λ b. omega arith }, tt);
    balanced = launched-IsBalanced;
    served = λ b. record { at_most = ground arith; exactly = λ live. ground arith };
    awake = λ live. launched-IsAwake;
    ready = λ b n. absurd (ground arith);
    ordered = tt;
  }
