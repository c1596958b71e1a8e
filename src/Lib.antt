-- ===== src/Lib.antt =====
-- go-taskflow: a model of the task-parallel library and proofs about it.
--
-- A client builds a flow (taskflow.go, flow.go, task.go): a graph (graph.go) of nodes (node.go) that
-- are static tasks, subflows with a graph of their own, or conditions that choose a branch. An
-- executor (executor.go) runs the flow: it sets the graph up, puts the nodes that may run into a
-- queue, and hands each to a goroutine of a pool, which runs the client's function and schedules the
-- successors that have nothing left to wait for. An observer (profiler.go, tracer.go) records what
-- ran when.
--
-- Files and what they model:
--   Memory: the objects of node.go, graph.go and flow.go on a heap. A pointer is an address, nil is
--     0, and every operation takes the heap and returns the heap. Memory/Writes has the equations of
--     writes.
--   Node: node.go (newNode, ref, deref, setup, drop, precede, hasCondPredecessor). Node/Counters is
--     about the counters.
--   Graph: graph.go (newGraph, ref, deref, reset, push, setup, recyclable, walk). Graph/Setup is
--     about setup.
--   Flow: flow.go, task.go and taskflow.go (the builders, Precede, Succeed, Priority, the frozen
--     flow). Flow/Mapper is about the branches of a condition, Flow/Invariant and Flow/Links about
--     all that a client can build, Flow/Nesting and Flow/Walk about walk.
--   Observer: profiler.go and tracer.go, with getDependentNames of executor.go. Observer/Durations
--     is about closeSpan. Observer/Profile has the text of a profile (profiler.go), Profile and Trace
--     of executor.go, and options.go; Observer/Stacks is about what Profile writes.
--   Dot: visualizer_dot.go, and Dot/Visualize its visualizeG. Dot/Edges and Dot/Drawing are about
--     what is drawn, Dot/Text has the text (String, Format, quote, formatAttributes).
--   Validator: validator.go. Validator/Skips and Validator/Rounds are about the tasks that it takes for
--     skipped, Validator/Results and Validator/Verdict about the lists of a result, Validator/Valid
--     about when a trace is valid, Validator/Recorded about the dependents in an event, and
--     Validator/Slices about stringSliceEqual; Validator/Text has the texts of a result.
--   Queue: the interface of utils/queue.go, which is a copy of another project's queue and a
--     parameter of the executor. Sort: slices.SortFunc of the standard library, another parameter.
--   Executor: executor.go. Executor/Goroutine has the places where a goroutine can stand,
--     Executor/Handlers the parts that read and write the heap alone, Executor/Act the step of a
--     goroutine, Executor itself the system of goroutines and its runs, Executor/Schedule runs by a
--     given schedule. Shape, Flat, Weights, Accounting, WaitGroup, Roots, Sums, Invariant and Safety
--     are about what every run keeps; Steady, Homes, Homed, Within, Callers, Works, Outside, Sound,
--     Progress, Finding, Acting and Liveness about runs of a graph whose edges stay inside it; Holders,
--     Watching and Signals about runs in which the caller sleeps on scheCond until somebody signals;
--     Leftover about what a canceled run leaves. Alone has the steps of one goroutine by itself; Scan
--     is about sche_successors, Launch about scheduleGraph and Choice about invokeCondition. Logs has runs of a flow of static tasks
--     with a log of what they start and call, and Replay such runs by a schedule; Static has such
--     flows, Ledger, Changes, Moves, Books and Awake keep the books on one task, Tidy and Replies say
--     where its goroutine stands, Orderly and
--     Ordering put them together, Entries starts them, and Runs, Completion, Careful, Effort and Ending
--     are about whole runs.
--   Copool: utils/copool.go, the pool of goroutines. Copool/Workers and Copool/Promises are about its
--     workers and the order of its tasks.
--   Duration: NormalizeDuration of utils/utils.go. Duration/Parts is about the parts that it writes.
--   Base: shared names, lists, Boolean tests, int32, and memory as a function.
--   Tests: a sample flow, runs of it, and each theorem with hypotheses at a concrete input.
--
-- How the executor is modelled: a goroutine is a node, its spans and a place in the code; `act` is
-- one atomic step from a place to the next, and a run is any sequence of steps by any goroutines. A
-- step is one access to shared data, or a critical section of which no other goroutine sees the
-- middle. A goroutine that waits (for e.mu, for wg, on scheCond) has no step until its condition
-- holds. Executor/Watching adds the signals of scheCond for a graph without subflows: the caller
-- of Run that finds nothing to do sleeps, and goes on only after a step that signals. Panics of the
-- client's function are inputs of the step; a panic that nothing recovers stops the goroutine. The
-- pool starts what it is handed at any later time, which covers its bound on the number of workers
-- but not a flow that waits for a worker for ever.
--
-- Numbers: a counter (atomic.Int32) is its bit pattern below 2 ^ 32, and adding one and taking one
-- wrap around. wg is a number, and Done at zero is a panic; what needs its counter below 2 ^ 32
-- says so (Executor/Within), which takes in the 2 ^ 31 that sync.WaitGroup allows. A run of a flow
-- of static tasks takes no more steps than most_steps (Executor/Ending). Times are nanoseconds on
-- the monotonic clock. Fuel: walk and visualizeG recur into subflows on fuel, and the number of
-- addresses handed out is enough; the loop on changed of the validator has one round more than the
-- map has entries. Maps are lists of keys with values; a loop over a map goes through them in an
-- order that is a parameter (Dot/Text, and Ranges of Base/Maps for the validator). The decimal
-- text of a number is a parameter too (Dot), and so is strings.Split (Validator/Recorded).
--
-- A writer is a state with a function that writes, a parameter (Observer/Profile), and so is the JSON
-- encoder of the standard library.
--
-- Not modelled: Dump, which prints the drawing of a flow, the runtime profiler (utils/pprof.go), the
-- object pool (utils/obj_pool.go, a wrapper around sync.Pool), the examples and the benchmarks.
pub mod Base
pub mod Memory
pub mod Node
pub mod Graph
pub mod Flow
pub mod Queue
pub mod Copool
pub mod Duration
pub mod Observer
pub mod Sort
pub mod Executor
pub mod Dot
pub mod Validator
mod Tests
