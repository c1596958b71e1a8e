-- ===== src/Copool/Promises.antt =====
-- What a pool promises to its clients.
use mathlib.Core.Path.{subst}
use go_taskflow.Base.{
  ℕ, ◌+◌, ◌<◌, ◌≤◌, ◌≡◌, ◌≢◌, refl, ap, ◌∙◌, List, [], ◌++◌, Bool, false, if◌then◌else◌, ◌==◌,
  int32, arith, total, length,
}
use go_taskflow.Queue.{Queue}
use go_taskflow.Copool.{
  Role, entering, queueing, fetching, running, Copool, Pool, PoolRun, idle, called, acted, pool_act,
  queue_task, fetch_task, run_task, new_copool, set_panic_handler,
}
use go_taskflow.Copool.Workers.{works, runs, fresh, PoolRun-IsStaffed}

module _ (𝓠 : Queue ℕ) where
  pool_act-cap : (panics : Bool) (p : Copool 𝓠) (r : Role) → (pool_act 𝓠 panics p r).0.cap ≡ p.cap
  unfolding pool_act queue_task fetch_task run_task
  pool_act-cap panics p (entering f) = refl
  pool_act-cap panics p (queueing f) = ground arith
  pool_act-cap panics p fetching = ground arith
  pool_act-cap panics p (running f) = ground arith

  PoolRun-cap :
      (p : Copool 𝓠) {put taken : List ℕ} {s : Pool 𝓠}
      → PoolRun 𝓠 (fresh 𝓠 p) put taken s
      → s.copool.cap ≡ p.cap
  PoolRun-cap p idle = refl
  PoolRun-cap p (called f r) = PoolRun-cap p r
  PoolRun-cap p (acted panics r before after {u = u} run live at goes) =
      ap (λ (v : Pool 𝓠). v.copool.cap) goes ∙ pool_act-cap panics u.copool r ∙ PoolRun-cap p run

  -- What `NewCopool` and `SetPanicHandler` make.
  abbrev pub IsNew : Copool 𝓠 → Type 0
  IsNew p = (p.coworker ≡ 0) × (p.corun ≡ 0) × (𝓠.contents p.task_q ≡ [])

  pub new_copool-IsNew :
      (cap : ℕ) → IsNew (new_copool 𝓠 cap) × IsNew (set_panic_handler 𝓠 (new_copool 𝓠 cap))
  unfolding new_copool set_panic_handler
  new_copool-IsNew cap = ((refl, refl, 𝓠.contents-empty), (refl, refl, 𝓠.contents-empty))

  -- In every state that a run of a new pool reaches, with calls of `Go` and `CtxGo` at any time and
  -- the goroutines in any order, while no panic has ended the program: there are at most `cap`
  -- workers, or one where `cap` is zero; where a task is queued there is a worker; and `corun` is, as
  -- an int32, the number of the tasks that are on the way into the queue, queued or running.
  pub worker_bounds :
      (p : Copool 𝓠) {put taken : List ℕ} {s : Pool 𝓠}
      → IsNew p
      → PoolRun 𝓠 (fresh 𝓠 p) put taken s
      → s.copool.exited ≡ false
      → (total works s.roles ≤ (if p.cap == 0 then 1 else p.cap))
        × (𝓠.contents s.copool.task_q ≢ [] → 0 < total works s.roles)
        × (s.copool.corun ≡ int32 (length (𝓠.contents s.copool.task_q) + total runs s.roles))
  worker_bounds p {s = s} (w, c, q) run live =
      let a = PoolRun-IsStaffed 𝓠 p w c q run in
      let number = a.workers live in
      let cap = PoolRun-cap p run in
      let bounded : s.copool.coworker ≤ (if p.cap == 0 then 1 else p.cap) =
        subst (λ n. s.copool.coworker ≤ (if n == 0 then 1 else n)) cap a.bounded in
      (omega arith, λ full. let some_worker = a.staffed live full in omega arith, a.counted live)

  -- A pool is a queue of tasks to its clients: in every state that a run of a new pool reaches, with
  -- calls of `Go` and `CtxGo` at any time and the goroutines in any order, the tasks that were put
  -- into the queue, in order, are those that workers have begun to run, in order, and then those
  -- that are queued. So no task is lost, run twice, or overtaken by a later one.
  pub runs_in_turn :
      (p : Copool 𝓠) {put taken : List ℕ} {s : Pool 𝓠}
      → IsNew p
      → PoolRun 𝓠 (fresh 𝓠 p) put taken s
      → put ≡ taken ++ 𝓠.contents s.copool.task_q
  runs_in_turn p (w, c, q) run = let a = PoolRun-IsStaffed 𝓠 p w c q run in a.in_turn
