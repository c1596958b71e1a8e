-- ===== src/Executor/Goroutine.antt =====
-- executor.go: where a goroutine stands between its atomic steps, and what a step reads from outside.
use go_taskflow.Base.{ℕ, List, Bool}
use go_taskflow.Flow

-- Where a loop of `schedule` was called, which is where its goroutine goes on: in `sche_successors`,
-- in `invokeCondition`, or in `scheduleGraph` of graph `g` with parent graph `pg`.
pub data After : Type 0 where
  release : After
  settle : After
  watch : (g pg : ℕ) → After

-- Where a goroutine stands.
pub data Pc : Type 0 where
  opening : Pc  -- `openSpan`
  checking : Pc  -- `!node.g.canceled.Load()`
  marking : Pc  -- `state.Store(kNodeStateRunning)`
  handling : Pc  -- the client's function
  finishing : Pc  -- `state.Store(kNodeStateFinished)`
  choosing : (choice : ℕ) → Pc  -- the guard on the choice of a condition
  recovering : Pc  -- the branch `r != nil` of the deferred function
  closing : (ok : Bool) → Pc  -- `closeSpan`
  setting_up : (g pg : ℕ) → Pc  -- `scheduleGraph`, up to `schedule`
  scheduling : (rest : List ℕ) (k : After) → Pc  -- the loop of `schedule`
  putting : (n : ℕ) (rest : List ℕ) (k : After) → Pc  -- `pushIntoQueue`
  looping : (g pg : ℕ) → Pc  -- the inner loop of `invokeGraph`
  deciding : (g pg : ℕ) → Pc  -- behind it, with `e.mu` held
  leaving : (g pg : ℕ) → Pc  -- `scheduleGraph` behind `invokeGraph`
  dropping : (rest : List ℕ) → Pc  -- the loop of `drop`
  scanning : (rest cand : List ℕ) → Pc  -- the loop of `sche_successors`
  resetting : (cand : List ℕ) → Pc  -- the sort and `node.setup()`
  dereffing : Pc  -- `node.g.deref()`
  restoring : Pc  -- `node.setup()` of `invokeCondition`
  ending : Pc  -- `wg.Done()`
  ended : Pc  -- `Run` has returned
  overdrawn : Pc  -- `wg.Done()` with the counter at zero, which panics
  crashed : (k : After) → Pc  -- a panic that nothing recovers, in `schedule` or behind its loop

-- A goroutine that runs a node, or the caller of `Run`, whose node is nil. `parent` is the
-- argument `parentSpan`, and `span` the one that it opened.
pub record Thread : Type 0 where
  pub node : ℕ
  pub parent : ℕ
  pub span : ℕ
  pub pc : Pc

abbrev pub at : Thread → Pc → Thread
at t pc = record t { pc = pc }

-- What a call of the client's function does.
pub data Reply : Type 0 where
  returned : Reply
  chose : (choice : ℕ) → Reply
  panicked : Reply

-- What a step reads from outside: the clock, and the call of the client's function, with what it
-- builds if it is that of a subflow.
pub record Input : Type 0 where
  pub now : ℕ
  pub reply : Reply
  pub calls : List Flow.Call
