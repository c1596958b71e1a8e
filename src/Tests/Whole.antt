-- ===== src/Tests/Whole.antt =====
-- A whole run of a flow with one task, by a schedule.
use go_taskflow.Base.{
  ℕ, zero, suc, ◌+◌, ◌≡◌, refl, List, [], ◌∷◌, ◌++◌, true, false, Option, none, some, arith, All,
  total, length, int32,
}
use go_taskflow.Memory.{NodeState, nil}
use go_taskflow.Node
use go_taskflow.Graph
use go_taskflow.Observer.{new_observer, open_span, close_span}
use go_taskflow.Queue.{Queue, list_queue}
use go_taskflow.Sort.{by_insertion, insertion_sort}
use go_taskflow.Executor.{System, Reach, may_return}
use go_taskflow.Executor.Goroutine.{setting_up, ending, ended, looping, Thread, Input, returned}
use go_taskflow.Executor.Act.{Core, act}
use go_taskflow.Executor.Invariant.{IsStarting}
use go_taskflow.Executor.Safety.{done_decrements, counters_account, wait_returns}
use go_taskflow.Executor.Weights.{homed, refs, units, in_graph}
use go_taskflow.Executor.Schedule.{drive, drive-Reach}
use go_taskflow.Tests.Sample.{program, with_load}

abbrev pub queue : Queue ℕ
queue = list_queue ℕ

abbrev core : Core queue by_insertion
core = record { heap = with_load; wq = []; wg = 0; obs = new_observer; mu = false }

abbrev pub caller : Thread
caller = record { node = nil; parent = nil; span = nil; pc = setting_up 1 nil }

abbrev begun : System queue by_insertion
begun = record { core = core; threads = caller ∷ [] }

abbrev pub quiet : Input
quiet = record { now = 0; reply = returned; calls = [] }

abbrev pub turns : ℕ → ℕ → List (ℕ × Input)
turns k zero = []
turns k (suc n) = (k, quiet) ∷ turns k n

abbrev schedule : List (ℕ × Input)
schedule = turns 0 6 ++ turns 1 11

abbrev pub or_begun : Option (System queue by_insertion) → System queue by_insertion
or_begun none = begun
or_begun (some s) = s

-- The caller's six steps to the loop with the task handed over, then the task's eleven to `Done`.
abbrev before_done : System queue by_insertion
before_done = or_begun (drive queue by_insertion schedule begun)

-- One line for all that the run computes with.
unfoldable pub run_program : Unit {0}
unfolding program drive act Graph.setup Node.setup Node.drop Graph.ref Graph.deref insertion_sort
    open_span close_span
run_program = tt

driven : drive queue by_insertion schedule begun ≡ some before_done
unfolding run_program
driven = refl

begun-IsStarting : IsStarting queue by_insertion begun
unfolding program
begun-IsStarting = record {
  graph = 1;
  flat = λ a k. ground arith;
  distinct = (refl, tt);
  unused = λ g. ground arith;
  no_queue = refl;
  no_units = refl;
  caller = refl;
}

before_done_reached : Reach queue by_insertion begun before_done
before_done_reached = drive-Reach queue by_insertion schedule begun before_done driven

abbrev watching : Thread
watching = record caller { pc = looping 1 nil }

abbrev worker : Thread
worker = record { node = 2; parent = nil; span = nil; pc = ending }

before_done-threads : before_done.threads ≡ watching ∷ worker ∷ []
unfolding run_program
before_done-threads = refl

done_decrements_example :
    (c : Core queue by_insertion) × (act queue by_insertion quiet before_done.core worker ending
      ≡ some (c, []))
    × (c.wg + 1 ≡ before_done.core.wg)
done_decrements_example =
    done_decrements queue by_insertion quiet (watching ∷ []) worker [] begun-IsStarting
      before_done_reached before_done-threads refl

-- The rest of the run: `Done`, and the caller leaves.
abbrev whole : List (ℕ × Input)
whole = schedule ++ turns 1 1 ++ turns 0 3

abbrev at_end : System queue by_insertion
at_end = or_begun (drive queue by_insertion whole begun)

driven_whole : drive queue by_insertion whole begun ≡ some at_end
unfolding run_program
driven_whole = refl

at_end_reached : Reach queue by_insertion begun at_end
at_end_reached = drive-Reach queue by_insertion whole begun at_end driven_whole

at_end-threads : at_end.threads ≡ record caller { pc = ended } ∷ []
unfolding run_program
at_end-threads = refl

at_end-may_return : may_return queue by_insertion at_end ≡ true
unfolding run_program
at_end-may_return = refl

-- The task is idle again, and ready for the next `Run`.
at_end-state : (at_end.core.heap.node 2).state ≡ NodeState.idle
unfolding run_program
at_end-state = refl

wait_returns_example :
    (queue.contents at_end.core.wq ≡ []) × All (λ t. in_graph t.pc ≡ true) at_end.threads
wait_returns_example =
    wait_returns queue by_insertion begun-IsStarting at_end_reached at_end-may_return

counters_account_example :
    ((g : ℕ)
      → (before_done.core.heap.graph g).join_counter
        ≡ int32 (
            total (homed before_done.core.heap g) (queue.contents before_done.core.wq)
            + total (refs before_done.core.heap g) before_done.threads))
    × (before_done.core.wg
        ≡ length (queue.contents before_done.core.wq) + total units before_done.threads)
counters_account_example = counters_account queue by_insertion begun-IsStarting before_done_reached
