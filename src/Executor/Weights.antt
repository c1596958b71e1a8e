-- ===== src/Executor/Weights.antt =====
-- What a goroutine of a flow without subflows holds: a reference to the graph of its node, and a
-- unit of `wg`.
use go_taskflow.Base.{ℕ, ◌+◌, ◌≡◌, Bool, true, false, if◌then◌else◌, ◌==◌}
use go_taskflow.Memory.{Heap, nil}
use go_taskflow.Executor.Goroutine.{
  After, watch, Pc, setting_up, scheduling, putting, looping, deciding, leaving, restoring, ending,
  overdrawn, ended, crashed, Thread,
}

abbrev pub is_watch : After → Bool
is_watch (watch g pg) = true
is_watch _ = false

-- Whether the goroutine stands in `scheduleGraph`.
abbrev pub in_graph : Pc → Bool
in_graph (setting_up g pg) = true
in_graph (looping g pg) = true
in_graph (deciding g pg) = true
in_graph (leaving g pg) = true
in_graph (scheduling rest k) = is_watch k
in_graph (putting n rest k) = is_watch k
in_graph (crashed k) = is_watch k
in_graph ended = true
in_graph _ = false

abbrev pub is_setting : Pc → Bool
is_setting (setting_up g pg) = true
is_setting _ = false

-- Whether `node.g.deref()` and `wg.Done()` of a node are still to come.
abbrev pub held : Pc → Bool
held restoring = false
held ending = false
held overdrawn = false
held pc = if in_graph pc then false else true

abbrev pub working : Pc → ℕ
working pc = if in_graph pc then 0 else 1

-- The node that is counted in `schedule` and not in the queue yet.
abbrev pub homed : Heap → ℕ → ℕ → ℕ
homed h g n = if (h.node n).g == g then 1 else 0

abbrev pub pending : Heap → ℕ → Pc → ℕ
pending h g (putting n rest k) = homed h g n
pending h g _ = 0

abbrev pub underway : Pc → ℕ
underway (putting n rest k) = 1
underway _ = 0

-- The references to graph `g`, and the units of `wg`, that a goroutine accounts for.
abbrev pub refs : Heap → ℕ → Thread → ℕ
refs h g t = (if held t.pc then homed h g t.node else 0) + pending h g t.pc

abbrev pub units : Thread → ℕ
units t = working t.pc + underway t.pc

-- Only the caller of `Run`, which runs no node, stands in `scheduleGraph`.
abbrev pub IsRooted : Thread → Type 0
IsRooted t = in_graph t.pc ≡ true → t.node ≡ nil
