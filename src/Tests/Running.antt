-- ===== src/Tests/Running.antt =====
-- A run of the sample on one executor.
use go_taskflow.Base.{ℕ, ◌≡◌, refl, [], ◌∷◌, true, false, arith}
use go_taskflow.Memory.{Heap, nil}
use go_taskflow.Node
use go_taskflow.Graph
use go_taskflow.Observer.{new_observer}
use go_taskflow.Queue.{Queue, list_queue}
use go_taskflow.Sort.{by_insertion, insertion_sort}
use go_taskflow.Executor.{System, turn, Reach, here, next, run}
use go_taskflow.Executor.Goroutine.{setting_up, scheduling, watch, Thread, Input, returned, at}
use go_taskflow.Executor.Act.{Core, act, launch}
use go_taskflow.Executor.Invariant.{IsStarting}
use go_taskflow.Tests.Sample.{program, sample}

abbrev queue : Queue ℕ
queue = list_queue ℕ

abbrev core : Core queue by_insertion
core = record { heap = sample; wq = []; wg = 0; obs = new_observer; mu = false }

abbrev caller : Thread
caller = record { node = nil; parent = nil; span = nil; pc = setting_up 1 nil }

-- `Run` on a new executor.
abbrev begun : System queue by_insertion
begun = record { core = core; threads = caller ∷ [] }

begun_by_run :
    run queue by_insertion
      (record { core = core; threads = [] })
      (record { graph = 1; frozen = false })
    ≡ (begun, record { graph = 1; frozen = true })
unfolding run
begun_by_run = refl

begun-IsStarting : IsStarting queue by_insertion begun
unfolding program
begun-IsStarting = record {
  graph = 1;
  flat = λ a k. ground arith;
  distinct = (refl, (refl, (refl, (refl, tt))));
  unused = λ g. ground arith;
  no_queue = refl;
  no_units = refl;
  caller = refl;
}

abbrev quiet : Input
quiet = record { now = 0; reply = returned; calls = [] }

-- The graph is set up, with `load` as its only entry.
abbrev launched : Heap
launched = launch queue by_insertion sample 1

abbrev launched_system : System queue by_insertion
launched_system = record {
  core = record core { heap = launched };
  threads = at caller (scheduling (launched.graph 1).entries (watch 1 nil)) ∷ [];
}

launched_once : Reach queue by_insertion begun launched_system
unfolding act
launched_once = next here (
    turn quiet caller [] [] (at caller (scheduling (launched.graph 1).entries (watch 1 nil)) ∷ [])
      (record core { heap = launched }) refl refl refl)

launched_entries : (launched.graph 1).entries ≡ 2 ∷ []
unfolding launch program Graph.setup Node.setup insertion_sort
launched_entries = refl
