-- ===== src/Tests/Ordered.antt =====
-- Runs of a flow of two tasks, where `load` precedes `store`.
use mathlib.Core.Path.{subst}
use go_taskflow.Base.{
  ℕ, ◌≤◌, ◌<◌, ◌^◌, ◌≡◌, refl, sym, if_both, List, [], ◌∷◌, ◌++◌, Bool, true, false, Option, none,
  some, arith, All, total, count, contains, if◌then◌else◌, ◌==◌,
}
use go_taskflow.Memory.{Heap}
use go_taskflow.Flow.{precede}
use go_taskflow.Observer.{new_observer}
use go_taskflow.Sort.{by_insertion}
use go_taskflow.Executor.{System, may_return}
use go_taskflow.Executor.Goroutine.{ended, Input}
use go_taskflow.Executor.Homes.{IsClosed, IsMember}
use go_taskflow.Executor.Progress.{IsRunnable}
use go_taskflow.Executor.Liveness.{no-Step}
use go_taskflow.Executor.Replies.{engaged}
use go_taskflow.Executor.Logs.{IsTaskFlow, IsOrdered, blank, steps}
use go_taskflow.Executor.Completion.{IsAcyclic, runs_all}
use go_taskflow.Executor.Runs.{runs_once, runs_in_order}
use go_taskflow.Executor.Ending.{most_steps, run_ends}
use go_taskflow.Executor.Replay.{Noted, CarefulRun, replay, replay-CarefulRun}
use go_taskflow.Tests.Sample.{program, with_store}
use go_taskflow.Tests.Whole.{queue, caller, turns, run_program}

-- Addresses: graph 1, `load` 2, `store` 3.
abbrev chain : Heap
chain = precede with_store 2 (3 ∷ [])

abbrev begun : System queue by_insertion
begun = record {
  core = record { heap = chain; wq = []; wg = 0; obs = new_observer; mu = false };
  threads = caller ∷ [];
}

abbrev or_begun : Option (Noted queue by_insertion) → Noted queue by_insertion
or_begun none = (begun, [], [])
or_begun (some u) = u

-- The caller hands `load` over, which runs until it has queued `store`; the caller hands that over,
-- and it comes to its function.
abbrev to_store : List (ℕ × Input)
to_store = turns 0 6 ++ turns 1 13 ++ turns 0 2 ++ turns 1 3

abbrev all_of_it : List (ℕ × Input)
all_of_it = to_store ++ turns 1 9 ++ turns 1 3 ++ turns 0 3

abbrev at_store : Noted queue by_insertion
at_store = or_begun (replay queue by_insertion to_store (begun, [], []))

abbrev at_end : Noted queue by_insertion
at_end = or_begun (replay queue by_insertion all_of_it (begun, [], []))

abbrev is_some : Option (Noted queue by_insertion) → Bool
is_some none = false
is_some (some u) = true

some-or_begun : (o : Option (Noted queue by_insertion)) → is_some o ≡ true → o ≡ some (or_begun o)
some-or_begun none e = absurd cc
some-or_begun (some u) e = refl

goes_to_store : is_some (replay queue by_insertion to_store (begun, [], [])) ≡ true
unfolding run_program replay
goes_to_store = refl

goes_to_end : is_some (replay queue by_insertion all_of_it (begun, [], [])) ≡ true
unfolding run_program replay
goes_to_end = refl

logs : (at_store.1 ≡ 3 ∷ 2 ∷ []) × (at_store.2 ≡ 2 ∷ []) × (at_end.2 ≡ 3 ∷ 2 ∷ [])
unfolding run_program replay
logs = (refl, refl, refl)

chain-IsClosed : IsClosed chain 1
unfolding program
chain-IsClosed = record {
  listed = ((λ e. absurd (omega arith), refl), ((λ e. absurd (omega arith), refl), tt));
  successors = λ a e.
      let edges : (chain.node a).successors ≡ (if 2 == a then 3 ∷ [] else []) = ground arith in
      subst (All (IsMember chain 1)) (sym edges)
        (if_both (All (IsMember chain 1)) (2 == a) ((λ z. absurd (omega arith), refl), tt) tt);
  branches = λ a m k e p f. absurd (ground arith);
}

runnable : IsRunnable queue by_insertion begun
unfolding program
runnable = record {
  starting = record {
    graph = 1;
    flat = λ a k. ground arith;
    distinct = (refl, (refl, tt));
    unused = λ g. ground arith;
    no_queue = refl;
    no_units = refl;
    caller = refl;
  };
  closed = chain-IsClosed;
  unlocked = refl;
}

chain-IsTaskFlow : IsTaskFlow chain runnable.starting.graph
unfolding program runnable
chain-IsTaskFlow = record {
  static = record { ptr = λ a. ground arith; typ = λ a. ground arith };
  mirror = λ a b e. ground arith;
  inside = λ a b e f. ground arith;
  above = λ a b e f. ground arith;
  few = λ b. ground arith;
  fits = λ a. ground arith;
}

chain-IsAcyclic : IsAcyclic chain runnable.starting.graph
unfolding program runnable
chain-IsAcyclic = record { rank = λ a. a; rises = λ d b e n. ground arith }

chain_live : (chain.graph runnable.starting.graph).canceled ≡ false
unfolding program runnable
chain_live = refl

run_to_store : CarefulRun queue by_insertion begun at_store
run_to_store =
    replay-CarefulRun queue by_insertion to_store begun (begun, [], []) at_store (blank, tt)
      (some-or_begun (replay queue by_insertion to_store (begun, [], [])) goes_to_store)

run_to_end : CarefulRun queue by_insertion begun at_end
run_to_end =
    replay-CarefulRun queue by_insertion all_of_it begun (begun, [], []) at_end (blank, tt)
      (some-or_begun (replay queue by_insertion all_of_it (begun, [], [])) goes_to_end)

at_end-threads : All (λ t. t.pc ≡ ended) at_end.0.threads
unfolding run_program replay
at_end-threads = (refl, tt)

at_end-wg : at_end.0.core.wg < 2 ^ 32
unfolding run_program replay
at_end-wg = omega arith

runs_once_example : (count 2 at_end.1 ≤ 1) × (count 2 at_end.2 ≤ 1)
runs_once_example = runs_once queue by_insertion runnable chain-IsTaskFlow run_to_end.0 2

runs_in_order_example :
    IsOrdered chain at_store.2
    × ((b : ℕ)
        → 1 ≤ total (engaged b) at_store.0.threads
        → (d : ℕ) → 1 ≤ count d (chain.node b).dependents
        → 1 ≤ count d at_store.2)
runs_in_order_example = runs_in_order queue by_insertion runnable chain-IsTaskFlow run_to_store.0

run_ends_example : steps queue by_insertion run_to_end.0 ≤ most_steps chain runnable.starting.graph
run_ends_example = run_ends queue by_insertion runnable chain-IsTaskFlow run_to_end.0

runs_all_example :
    (may_return queue by_insertion at_end.0 ≡ true)
    × ((b : ℕ)
        → count b at_end.2
          ≡ (if contains b (chain.graph runnable.starting.graph).nodes then 1 else 0))
runs_all_example =
    runs_all queue by_insertion runnable chain-IsTaskFlow chain-IsAcyclic chain_live run_to_end.0
      run_to_end.1 at_end-wg (λ v st. no-Step queue by_insertion at_end.0 at_end-threads st)
