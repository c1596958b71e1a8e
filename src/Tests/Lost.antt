-- ===== src/Tests/Lost.antt =====
-- A run of a flow with two tasks and no edges, whose first task panics while the second is queued.
use go_taskflow.Base.{
  ℕ, ◌<◌, ◌^◌, ◌≡◌, ◌≢◌, ◌⊎◌, refl, List, [], ◌∷◌, ◌++◌, true, false, some, arith, All,
}
use go_taskflow.Memory.{nil}
use go_taskflow.Observer.{new_observer}
use go_taskflow.Sort.{by_insertion}
use go_taskflow.Executor.{System, may_return}
use go_taskflow.Executor.Goroutine.{opening, looping, ended, Input, panicked}
use go_taskflow.Executor.Homes.{IsClosed}
use go_taskflow.Executor.Within.{Within, stay}
use go_taskflow.Executor.Progress.{IsRunnable, is_crashed}
use go_taskflow.Executor.Acting.{IsFinished}
use go_taskflow.Executor.Liveness.{no_crash}
use go_taskflow.Executor.Act.{may_go_on}
use go_taskflow.Executor.Watching.{Watched, Moves, sleeps, Reaches, move, Within-Reaches}
use go_taskflow.Executor.Signals.{CanRun, wakes_up}
use go_taskflow.Executor.Leftover.{wait_forever}
use go_taskflow.Executor.Schedule.{drive, drive-Within}
use go_taskflow.Tests.Sample.{program, with_store}
use go_taskflow.Tests.Whole.{queue, caller, quiet, turns, or_begun, run_program}

-- The executor on which `Run` was just called with the tasks 2 and 3.
abbrev begun : System queue by_insertion
begun = record {
  core = record { heap = with_store; wq = []; wg = 0; obs = new_observer; mu = false };
  threads = caller ∷ [];
}

abbrev panics : Input
panics = record quiet { reply = panicked }

-- The caller queues both tasks and hands over the first, which comes to its function and panics.
abbrev until_panic : List (ℕ × Input)
until_panic = turns 0 8 ++ turns 1 3 ++ (1, panics) ∷ turns 1 1

-- The caller finds the graph canceled and leaves; the task ends.
abbrev all_of_it : List (ℕ × Input)
all_of_it = until_panic ++ turns 0 3 ++ turns 1 7

abbrev at_panic : System queue by_insertion
at_panic = or_begun (drive queue by_insertion until_panic begun)

abbrev at_end : System queue by_insertion
at_end = or_begun (drive queue by_insertion all_of_it begun)

driven_to_panic : drive queue by_insertion until_panic begun ≡ some at_panic
unfolding run_program
driven_to_panic = refl

driven : drive queue by_insertion all_of_it begun ≡ some at_end
unfolding run_program
driven = refl

with_store-IsClosed : IsClosed with_store 1
unfolding program
with_store-IsClosed = record {
  listed = ((λ e. absurd (omega arith), refl), ((λ e. absurd (omega arith), refl), tt));
  successors = λ a e. ground arith;
  branches = λ a m k e p f. absurd (ground arith);
}

begun-IsRunnable : IsRunnable queue by_insertion begun
unfolding program
begun-IsRunnable = record {
  starting = record {
    graph = 1;
    flat = λ a k. ground arith;
    distinct = (refl, (refl, tt));
    unused = λ g. ground arith;
    no_queue = refl;
    no_units = refl;
    caller = refl;
  };
  closed = with_store-IsClosed;
  unlocked = refl;
}

at_panic-Within : Within queue by_insertion begun at_panic
at_panic-Within =
    drive-Within queue by_insertion until_panic begun begun at_panic stay driven_to_panic

at_end-Within : Within queue by_insertion begun at_end
at_end-Within = drive-Within queue by_insertion all_of_it begun begun at_end stay driven

-- The state in which the run ends.
at_end-state :
    (at_end.threads ≡ record caller { pc = ended } ∷ [])
    × (queue.contents at_end.core.wq ≡ 3 ∷ [])
    × (at_end.core.wg ≡ 1)
    × ((at_end.core.heap.graph 1).canceled ≡ true)
unfolding run_program
at_end-state = (refl, refl, refl, refl)

at_panic-canceled : (at_panic.core.heap.graph 1).canceled ≡ true
unfolding run_program
at_panic-canceled = refl

at_panic_queue : queue.contents at_panic.core.wq ≢ []
unfolding run_program
at_panic_queue e = absurd (ground arith)

driven_on : drive queue by_insertion (turns 0 3 ++ turns 1 7) at_panic ≡ some at_end
unfolding run_program
driven_on = refl

on-Within : Within queue by_insertion at_panic at_end
on-Within =
    drive-Within queue by_insertion (turns 0 3 ++ turns 1 7) at_panic at_panic at_end stay driven_on

-- The caller hands over both tasks and comes back to its loop, where it has to wait.
abbrev at_loop : System queue by_insertion
at_loop = or_begun (drive queue by_insertion (turns 0 10) begun)

driven_to_loop : drive queue by_insertion (turns 0 10) begun ≡ some at_loop
unfolding run_program
driven_to_loop = refl

at_loop-Within : Within queue by_insertion begun at_loop
at_loop-Within =
    drive-Within queue by_insertion (turns 0 10) begun begun at_loop stay driven_to_loop

abbrev sleeping : Watched queue by_insertion
sleeping = record { system = at_loop; asleep = true }

falls_asleep : Moves queue by_insertion 1 record { system = at_loop; asleep = false } sleeping
unfolding run_program may_go_on
falls_asleep =
    sleeps record caller { pc = looping 1 nil } []
      (record { node = 3; parent = nil; span = nil; pc = opening }
        ∷ record { node = 2; parent = nil; span = nil; pc = opening }
        ∷ [])
      nil refl refl refl refl refl

at_loop-wg : at_loop.core.wg < 2 ^ 32
unfolding run_program
at_loop-wg = omega arith

sleeping-Reaches : Reaches queue by_insertion 1 begun sleeping
sleeping-Reaches = move (Within-Reaches queue by_insertion at_loop-Within) at_loop-wg falls_asleep

at_panic-wg : at_panic.core.wg < 2 ^ 32
unfolding run_program
at_panic-wg = omega arith

no_crash_example : All (λ t. is_crashed t.pc ≡ false) at_panic.threads
no_crash_example = no_crash queue by_insertion begun-IsRunnable at_panic-Within

wakes_up_example :
    CanRun queue by_insertion sleeping
    ⊎ IsFinished queue by_insertion begun-IsRunnable.starting.graph at_loop
unfolding begun-IsRunnable
wakes_up_example = wakes_up queue by_insertion begun-IsRunnable sleeping-Reaches at_loop-wg

wait_forever_example :
    (may_return queue by_insertion at_end ≡ false) × (queue.contents at_end.core.wq ≢ [])
unfolding begun-IsRunnable
wait_forever_example =
    wait_forever queue by_insertion begun-IsRunnable at_panic-Within at_panic-canceled
      at_panic_queue on-Within
