-- ===== src/Flow.antt =====
-- flow.go, task.go and taskflow.go: how a client builds a flow. A `Task` is the address of its
-- node, a `Subflow` the address of its graph. The text `nanos` is the one that `newNode` reads off
-- the clock for a task without a name.
pub mod Mapper
pub mod Invariant
pub mod Links
pub mod Nesting
pub mod Walk
use go_taskflow.Base.{
  ℕ, ◌+◌, String, List, [], ◌∷◌, ◌++◌, Bool, true, false, if◌then◌else◌, ◌==◌, Option, none, some,
  suc, length,
}
use go_taskflow.Memory.{Node, NodeType, Ptr, Heap, put_node}
use go_taskflow.Node
use go_taskflow.Graph

-- `flowBuilder.NewStatic`
unfoldable pub new_static : Heap → String → String → ℕ × Heap
unfolding Node.new_node
new_static h name nanos =
    let (a, h') = Node.new_node h name nanos in
    (a, put_node h' a (record (h'.node a) { ptr = Ptr.static; typ = NodeType.static }))

-- `flowBuilder.NewSubflow`
unfoldable pub new_subflow : Heap → String → String → ℕ × Heap
unfolding Node.new_node Graph.new_graph
new_subflow h name nanos =
    let (a, h') = Node.new_node h name nanos in
    let (g, h'') = Graph.new_graph h' name in
    (a, put_node h'' a (record (h''.node a) { ptr = Ptr.subflow g; typ = NodeType.subflow }))

-- `flowBuilder.NewCondition`
unfoldable pub new_condition : Heap → String → String → ℕ × Heap
unfolding Node.new_node
new_condition h name nanos =
    let (a, h') = Node.new_node h name nanos in
    (a, put_node h' a (record (h'.node a) { ptr = Ptr.condition []; typ = NodeType.condition }))

-- The three builders, as one argument of the functions that call them.
pub data Kind : Type 0 where
  static subflow condition : Kind

unfoldable pub build : Kind → Heap → String → String → ℕ × Heap
unfolding new_static new_subflow new_condition
build Kind.static = new_static
build Kind.subflow = new_subflow
build Kind.condition = new_condition

-- `Subflow.push`
unfoldable pub push_each : Heap → ℕ → List ℕ → Heap
unfolding Graph.push
push_each h g [] = h
push_each h g (t ∷ ts) = push_each (Graph.push h g (t ∷ [])) g ts

-- `Subflow.NewTask`, `Subflow.NewSubflow` and `Subflow.NewCondition`
unfoldable pub subflow_new : Kind → Heap → ℕ → String → String → ℕ × Heap
unfolding build push_each
subflow_new k h g name nanos = let (a, h') = build k h name nanos in (a, push_each h' g (a ∷ []))

-- `TaskFlow`
pub record TaskFlow : Type 0 where
  pub graph : ℕ
  pub frozen : Bool

-- `NewTaskFlow`
unfoldable pub new_task_flow : Heap → String → TaskFlow × Heap
unfolding Graph.new_graph
new_task_flow h name =
    let (g, h') = Graph.new_graph h name in (record { graph = g; frozen = false }, h')

-- `TaskFlow.Reset`
unfoldable pub reset : TaskFlow → TaskFlow
reset tf = record tf { frozen = false }

-- `TaskFlow.push`, which panics (`none`) on a frozen flow.
unfoldable pub push : Heap → TaskFlow → List ℕ → Option Heap
unfolding push_each
push h tf ts = if tf.frozen then none else some (push_each h tf.graph ts)

-- `TaskFlow.NewTask`, `TaskFlow.NewSubflow` and `TaskFlow.NewCondition`
unfoldable pub flow_new : Kind → Heap → TaskFlow → String → String → Option (ℕ × Heap)
unfolding build push
flow_new k h tf name nanos =
    let (a, h') = build k h name nanos in
    elim (push h' tf (a ∷ [])) [ none ↦ none | some h'' ↦ some (a, h'') ]

-- `m[k] = v` and `m[k]` on the mapper of a condition. A missing key reads as nil.
unfoldable pub map_set : ℕ → ℕ → List (ℕ × ℕ) → List (ℕ × ℕ)
map_set k v [] = (k, v) ∷ []
map_set k v ((j, w) ∷ m) = if j == k then (k, v) ∷ m else (j, w) ∷ map_set k v m

unfoldable pub map_get : ℕ → List (ℕ × ℕ) → ℕ
map_get k [] = 0
map_get k ((j, w) ∷ m) = if j == k then w else map_get k m

-- The first loop of `Precede`, on the mapper.
unfoldable pub add_branches : List (ℕ × ℕ) → List ℕ → List (ℕ × ℕ)
unfolding map_set
add_branches m [] = m
add_branches m (t ∷ ts) = add_branches (map_set (length m) t m) ts

-- The second loop of `Precede`, and the loop of `Succeed`.
unfoldable pub precede_each : Heap → ℕ → List ℕ → Heap
unfolding Node.precede
precede_each h t [] = h
precede_each h t (v ∷ vs) = precede_each (Node.precede h t v) t vs

unfoldable pub succeed_each : Heap → ℕ → List ℕ → Heap
unfolding Node.precede
succeed_each h t [] = h
succeed_each h t (v ∷ vs) = succeed_each (Node.precede h v t) t vs

-- `Task.Precede`
unfoldable pub add_to_mapper : Heap → ℕ → Ptr → List ℕ → Heap
unfolding add_branches
add_to_mapper h t (Ptr.condition m) ts =
    put_node h t (record (h.node t) { ptr = Ptr.condition (add_branches m ts) })
add_to_mapper h t _ ts = h

unfoldable pub precede : Heap → ℕ → List ℕ → Heap
unfolding add_to_mapper precede_each
precede h t ts = precede_each (add_to_mapper h t (h.node t).ptr ts) t ts

-- `Task.Succeed`
unfoldable pub succeed : Heap → ℕ → List ℕ → Heap
unfolding succeed_each
succeed h t ts = succeed_each h t ts

-- `Task.Priority`
unfoldable pub priority : Heap → ℕ → ℕ → Heap
priority h t p = put_node h t (record (h.node t) { priority = p })

-- `Task.Name` and `TaskFlow.Name`
unfoldable pub task_name : Heap → ℕ → String
task_name h t = (h.node t).name

unfoldable pub flow_name : Heap → TaskFlow → String
flow_name h tf = (h.graph tf.graph).name

-- What the function of a subflow may do with its graph `g`: the calls of Subflow and of Task.
pub data Call : Type 0 where
  create : (k : Kind) (name nanos : String) → Call
  link_from link_to : (t : ℕ) (ts : List ℕ) → Call
  prioritize : (t p : ℕ) → Call

unfoldable pub run_call : Heap → ℕ → Call → Heap
unfolding subflow_new precede succeed priority
run_call h g (create k name nanos) = (subflow_new k h g name nanos).1
run_call h g (link_from t ts) = precede h t ts
run_call h g (link_to t ts) = succeed h t ts
run_call h g (prioritize t p) = priority h t p

unfoldable pub run_calls : Heap → ℕ → List Call → Heap
unfolding run_call
run_calls h g [] = h
run_calls h g (c ∷ cs) = run_calls (run_call h g c) g cs
