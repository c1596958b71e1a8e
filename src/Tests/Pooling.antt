-- ===== src/Tests/Pooling.antt =====
-- A pool of one worker that is given two tasks.
use go_taskflow.Base.{
  ℕ, ◌+◌, ◌<◌, ◌≤◌, ◌≡◌, ◌≢◌, refl, List, [], ◌∷◌, ◌++◌, false, int32, total, length,
}
use go_taskflow.Queue.{Queue, list_queue}
use go_taskflow.Copool.{
  Role, entering, queueing, fetching, running, Copool, Pool, PoolRun, idle, called, acted,
  new_copool, pool_act,
}
use go_taskflow.Copool.Workers.{works, runs, fresh}
use go_taskflow.Copool.Promises.{new_copool-IsNew, worker_bounds, runs_in_turn}

abbrev queue : Queue ℕ
queue = list_queue ℕ

abbrev pool : Copool queue
pool = new_copool queue 1

-- What step `n` of the goroutines leaves.
abbrev turn : Pool queue → Role → List Role → Pool queue
turn u r after = record {
  copool = (pool_act queue false u.copool r).0;
  roles = (pool_act queue false u.copool r).1 ++ after;
}

abbrev two_called : Pool queue
two_called = record { copool = pool; roles = entering 7 ∷ entering 8 ∷ [] }

abbrev first_entered : Pool queue
first_entered = turn two_called (entering 7) (entering 8 ∷ [])

abbrev first_queued : Pool queue
first_queued = turn first_entered (queueing 7) (entering 8 ∷ [])

abbrev first_taken : Pool queue
first_taken = turn first_queued fetching (entering 8 ∷ [])

unfoldable pooling : Unit {0}
unfolding new_copool pool_act
pooling = tt

first_taken-roles : first_taken.roles ≡ running 7 ∷ entering 8 ∷ []
unfolding pooling
first_taken-roles = refl

first_run : PoolRun queue (fresh queue pool) (7 ∷ []) (7 ∷ []) first_taken
unfolding pooling
first_run =
    acted false fetching [] (entering 8 ∷ [])
      (acted false (queueing 7) [] (entering 8 ∷ [])
        (acted false (entering 7) [] (entering 8 ∷ []) (called 7 (called 8 idle)) refl refl refl)
        refl refl refl)
      refl refl refl

live : first_taken.copool.exited ≡ false
unfolding pooling
live = refl

worker_bounds_example :
    (total works first_taken.roles ≤ 1)
    × (queue.contents first_taken.copool.task_q ≢ [] → 0 < total works first_taken.roles)
    × (first_taken.copool.corun
        ≡ int32 (length (queue.contents first_taken.copool.task_q) + total runs first_taken.roles))
unfolding pooling
worker_bounds_example = worker_bounds queue pool (new_copool-IsNew queue 1).0 first_run live

runs_in_turn_example : 7 ∷ [] ≡ (7 ∷ []) ++ queue.contents first_taken.copool.task_q
runs_in_turn_example = runs_in_turn queue pool (new_copool-IsNew queue 1).0 first_run
