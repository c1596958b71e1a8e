-- ===== src/Executor.antt =====
-- executor.go: an executor as goroutines that take atomic steps in any order.
pub mod Goroutine
pub mod Handlers
pub mod Act
pub mod Shape
pub mod Flat
pub mod Weights
pub mod Accounting
pub mod Roots
pub mod WaitGroup
pub mod Sums
pub mod Invariant
pub mod Steady
pub mod Homes
pub mod Homed
pub mod Within
pub mod Callers
pub mod Works
pub mod Outside
pub mod Sound
pub mod Progress
pub mod Finding
pub mod Acting
pub mod Liveness
pub mod Holders
pub mod Watching
pub mod Signals
pub mod Leftover
pub mod Safety
pub mod Schedule
pub mod Choice
pub mod Alone
pub mod Scan
pub mod Launch
pub mod Ledger
pub mod Changes
pub mod Books
pub mod Awake
pub mod Static
pub mod Moves
pub mod Tidy
pub mod Replies
pub mod Logs
pub mod Orderly
pub mod Ordering
pub mod Entries
pub mod Runs
pub mod Completion
pub mod Effort
pub mod Ending
pub mod Careful
pub mod Replay
use go_taskflow.Base.{
  ℕ, zero, suc, ◌+◌, ◌-◌, ◌≡◌, String, List, [], ◌∷◌, ◌++◌, Bool, true, false, not, ◌&&◌, ◌||◌,
  if◌then◌else◌, ◌==◌, ltb, leb, Option, none, some, length,
}
use go_taskflow.Memory.{
  Node, Graph, NodeType, NodeState, Ptr, Heap, put_node, put_graph, nil, is_condition, is_idle,
}
use go_taskflow.Node
use go_taskflow.Graph
use go_taskflow.Flow
use go_taskflow.Observer.{Observer, open_span, close_span}
use go_taskflow.Queue.{Queue}
use go_taskflow.Sort.{Sort}
use go_taskflow.Executor.Goroutine.{
  After, release, settle, watch, Pc, opening, checking, marking, handling, finishing, choosing,
  recovering, closing, setting_up, scheduling, putting, looping, deciding, leaving, dropping,
  scanning, resetting, dereffing, restoring, ending, ended, crashed, Thread, at, Reply, returned,
  chose, panicked, Input,
}
use go_taskflow.Executor.Act.{Core, act}

module _ (𝓠 : Queue ℕ) (𝓢 : Sort) where
  -- The goroutines and what they share. The pool runs what it is handed in goroutines of its own,
  -- so a goroutine may start late, as far as the order of the steps goes.
  pub record System : Type 0 where
    pub core : Core 𝓠 𝓢
    pub threads : List Thread

  -- `NewExecutor`, which panics for concurrency 0; the options set the observer.
  unfoldable pub new_executor : ℕ → Heap → Observer → Option System
  new_executor concurrency h o =
      if concurrency == 0
      then none
      else some (record {
        core = record { heap = h; wq = 𝓠.empty; wg = 0; obs = o; mu = false };
        threads = [];
      })

  -- `Run`: the flow is frozen, and the caller goes into `scheduleGraph`.
  unfoldable pub run : System → Flow.TaskFlow → System × Flow.TaskFlow
  run s tf = (
    record s {
      threads =
          record { node = nil; parent = nil; span = nil; pc = setting_up tf.graph nil } ∷ s.threads;
    },
    record tf { frozen = true },
  )

  -- `Wait` returns where the counter of `wg` is zero.
  abbrev pub may_return : System → Bool
  may_return s = s.core.wg == 0

  -- Any goroutine may take the next step.
  pub data Step (s s' : System) : Type 0 where
    turn :
        (i : Input) (t : Thread) (before after new : List Thread) (c : Core 𝓠 𝓢)
        → s.threads ≡ before ++ t ∷ after
        → act 𝓠 𝓢 i s.core t t.pc ≡ some (c, new)
        → s' ≡ record { core = c; threads = before ++ (new ++ after) }
        → Step s s'

  pub data Reach (s : System) : System → Type 0 where
    here : Reach s s
    next : {u v : System} → Reach s u → Step u v → Reach s v
