-- ===== src/Copool.antt =====
-- utils/copool.go: a pool of goroutines that run the tasks of a queue, as goroutines that take atomic
-- steps in any order. A critical section under `mu` is one step. A task is the number of its
-- function; the objects that carry tasks come from a pool of the standard library and are not told
-- apart.
pub mod Workers
pub mod Promises
use go_taskflow.Base.{
  ℕ, ◌+◌, ◌-◌, ◌^◌, ◌≡◌, List, [], ◌∷◌, ◌++◌, Bool, true, false, not, ◌&&◌, ◌||◌, if◌then◌else◌,
  ◌==◌, ltb, Option, none, some, incr32, decr32,
}
use go_taskflow.Queue.{Queue}

-- Where a goroutine stands: in `CtxGo` before `corun.Add(1)` and before the lock, or in the loop of a
-- worker before the lock and in a task.
pub data Role : Type 0 where
  entering queueing : (f : ℕ) → Role
  fetching : Role
  running : (f : ℕ) → Role

module _ (𝓠 : Queue ℕ) where
  -- `Copool`. `handles` says whether there is a panic handler, and `exited` that the program has ended
  -- by a panic.
  pub record Copool : Type 0 where
    pub cap : ℕ
    pub task_q : 𝓠.Carrier
    pub corun : ℕ
    pub coworker : ℕ
    pub handles : Bool
    pub exited : Bool

  -- `NewCopool` and `SetPanicHandler`
  unfoldable pub new_copool : ℕ → Copool
  new_copool cap = record {
    cap = cap;
    task_q = 𝓠.empty;
    corun = 0;
    coworker = 0;
    handles = false;
    exited = false;
  }

  unfoldable pub set_panic_handler : Copool → Copool
  set_panic_handler p = record p { handles = true }

  -- `CtxGo` under the lock: the task is queued, and a worker is started if there is none or if there
  -- may be one more.
  unfoldable pub queue_task : Copool → ℕ → Copool × List Role
  queue_task p f =
      let q = 𝓠.put f p.task_q in
      if p.coworker == 0 || (not (𝓠.len q == 0) && ltb p.coworker p.cap)
      then (record p { task_q = q; coworker = p.coworker + 1 }, fetching ∷ [])
      else (record p { task_q = q }, [])

  -- A worker under the lock. A panic of `Pop` would end the program.
  unfoldable pub fetch_task : Copool → Copool × List Role
  fetch_task p =
      if 𝓠.len p.task_q == 0
      then (record p { coworker = p.coworker - 1 }, [])
      else elim (𝓠.pop p.task_q) [
        | none ↦ (record p { exited = true }, [])
        | some (f, q) ↦ (record p { task_q = q }, running f ∷ [])
      ]

  -- The function that `CtxGo` makes of a task, with its deferred calls: a panic without a handler ends
  -- the program.
  unfoldable pub run_task : Bool → Copool → Copool × List Role
  run_task panics p =
      let p' : Copool = record p { corun = decr32 p.corun } in
      if panics && not p.handles then (record p' { exited = true }, []) else (p', fetching ∷ [])

  -- One step of a goroutine, where the task panics or not.
  unfoldable pub pool_act : Bool → Copool → Role → Copool × List Role
  unfolding queue_task fetch_task run_task
  pool_act panics p (entering f) = (record p { corun = incr32 p.corun }, queueing f ∷ [])
  pool_act panics p (queueing f) = queue_task p f
  pool_act panics p fetching = fetch_task p
  pool_act panics p (running f) = run_task panics p

  pub record Pool : Type 0 where
    pub copool : Copool
    pub roles : List Role

  -- What a step puts into the queue, and what it takes out of it to run.
  abbrev pub puts : Role → List ℕ
  puts (queueing f) = f ∷ []
  puts _ = []

  abbrev pub takes : List Role → List ℕ
  takes (running f ∷ l) = f ∷ takes l
  takes (_ ∷ l) = takes l
  takes [] = []

  -- A run, with the tasks that it has queued and those that it has begun to run, in order. A client
  -- may call `Go` or `CtxGo` at any time, and any goroutine may take the next step until the program
  -- has ended.
  pub data PoolRun (s : Pool) : List ℕ → List ℕ → Pool → Type 0 where
    idle : PoolRun s [] [] s
    called :
        (f : ℕ) {put taken : List ℕ} {u : Pool}
        → PoolRun s put taken u
        → PoolRun s put taken (record u { roles = entering f ∷ u.roles })
    acted :
        (panics : Bool) (r : Role) (before after : List Role) {put taken : List ℕ} {u v : Pool}
        → PoolRun s put taken u
        → u.copool.exited ≡ false
        → u.roles ≡ before ++ r ∷ after
        → v ≡ record {
          copool = (pool_act panics u.copool r).0;
          roles = before ++ ((pool_act panics u.copool r).1 ++ after);
        }
        → PoolRun s (put ++ puts r) (taken ++ takes (pool_act panics u.copool r).1) v
