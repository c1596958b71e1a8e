-- ===== src/Flow/Links.antt =====
-- What holds of every heap that a client builds through flow.go, task.go and taskflow.go.
use go_taskflow.Base.{
  ℕ, ◌<◌, ◌≡◌, refl, false, String, none, some, arith, List, [], ◌∷◌, contains, All, if◌then◌else◌,
}
use mathlib.Core.Path.{subst}
use go_taskflow.Memory.{Heap, Ptr, no_objects}
use go_taskflow.Node
use go_taskflow.Graph
use go_taskflow.Flow.{
  Kind, TaskFlow, build, new_static, new_subflow, new_condition, new_task_flow, subflow_new,
  flow_new, push, precede_each, succeed_each, add_to_mapper, precede, succeed, priority,
}
use go_taskflow.Flow.Invariant.{
  IsBuilt, IsObject, IsBuilt-no_objects, precede-IsBuilt, put_node-IsBuilt, new_node-IsBuilt,
  new_graph-IsBuilt, push-IsBuilt,
}

-- A heap `h'` with a new node `a` that no graph lists yet.
record HasNew (h : Heap) (a : ℕ) (h' : Heap) : Type 0 where
  built : IsBuilt h'
  at : a ≡ h.fresh
  grown : h.fresh < h'.fresh
  free : (k : ℕ) → contains a (h'.graph k).nodes ≡ false

not_listed : (h : Heap) → IsBuilt h → (k : ℕ) → contains h.fresh (h.graph k).nodes ≡ false
not_listed h i k = ground (arith, i.owned k h.fresh)

module _ (h : Heap) (name nanos : String) (i : IsBuilt h) where
  new_static-HasNew : HasNew h (new_static h name nanos).0 (new_static h name nanos).1
  unfolding new_static
  new_static-HasNew = record {
    built =
        put_node-IsBuilt (Node.new_node h name nanos).1 h.fresh _ (new_node-IsBuilt h name nanos i)
          (ground (arith, i.started)) refl refl refl refl (λ k e. ground arith);
    at = refl;
    grown = omega arith;
    free = not_listed h i;
  }

  new_condition-HasNew : HasNew h (new_condition h name nanos).0 (new_condition h name nanos).1
  unfolding new_condition
  new_condition-HasNew = record {
    built =
        put_node-IsBuilt (Node.new_node h name nanos).1 h.fresh _ (new_node-IsBuilt h name nanos i)
          (ground (arith, i.started)) refl refl refl refl (λ k e. ground arith);
    at = refl;
    grown = omega arith;
    free = not_listed h i;
  }

  new_subflow-HasNew : HasNew h (new_subflow h name nanos).0 (new_subflow h name nanos).1
  unfolding new_subflow
  new_subflow-HasNew =
      let h1 = (Node.new_node h name nanos).1 in
      record {
        built =
            put_node-IsBuilt (Graph.new_graph h1 name).1 h.fresh _
              (new_graph-IsBuilt h1 name (new_node-IsBuilt h name nanos i))
              (ground (arith, i.started)) refl refl refl refl (λ k e. ground arith);
        at = refl;
        grown = omega arith;
        free = λ k. ground (arith, not_listed h i k);
      }

  build-HasNew : (k : Kind) → HasNew h (build k h name nanos).0 (build k h name nanos).1
  unfolding build
  build-HasNew Kind.static = new_static-HasNew
  build-HasNew Kind.subflow = new_subflow-HasNew
  build-HasNew Kind.condition = new_condition-HasNew

-- A new task of a graph.
subflow_new-IsBuilt :
    (k : Kind) (h : Heap) (g : ℕ) (name nanos : String)
    → IsBuilt h
    → IsObject h g
    → IsBuilt (subflow_new k h g name nanos).1
unfolding subflow_new
subflow_new-IsBuilt k h g name nanos i hg =
    let (a, h') = build k h name nanos in
    let new = build-HasNew h name nanos i k in
    push-IsBuilt h' g a new.built (ground (arith, new.grown)) (ground (arith, new.at, new.grown))
      (ground (arith, new.at)) new.free

-- `NewTask`, `NewSubflow` and `NewCondition` of a flow panic on a frozen flow. On any other flow they
-- do to its graph what those of Subflow do to theirs.
flow_new-eq :
    (k : Kind) (h : Heap) (tf : TaskFlow) (name nanos : String)
    → flow_new k h tf name nanos
      ≡ (if tf.frozen then none else some (subflow_new k h tf.graph name nanos))
unfolding flow_new push subflow_new
flow_new-eq k h tf name nanos = ground arith

flow_new_heap :
    (k : Kind) (h : Heap) (tf : TaskFlow) (name nanos : String) {a : ℕ} {h' : Heap}
    → flow_new k h tf name nanos ≡ some (a, h')
    → (subflow_new k h tf.graph name nanos).1 ≡ h'
flow_new_heap k h tf name nanos e = ground (arith, flow_new-eq k h tf name nanos)

precede_each-IsBuilt :
    (h : Heap) (t : ℕ) (ts : List ℕ)
    → IsBuilt h
    → IsObject h t
    → All (IsObject h) ts
    → IsBuilt (precede_each h t ts)
unfolding precede_each Node.precede
precede_each-IsBuilt h t [] i ht hts = i
precede_each-IsBuilt h t (v ∷ vs) i ht hts =
    precede_each-IsBuilt (Node.precede h t v) t vs (precede-IsBuilt h t v i ht hts.0) ht hts.1

succeed_each-IsBuilt :
    (h : Heap) (t : ℕ) (ts : List ℕ)
    → IsBuilt h
    → IsObject h t
    → All (IsObject h) ts
    → IsBuilt (succeed_each h t ts)
unfolding succeed_each Node.precede
succeed_each-IsBuilt h t [] i ht hts = i
succeed_each-IsBuilt h t (v ∷ vs) i ht hts =
    succeed_each-IsBuilt (Node.precede h v t) t vs (precede-IsBuilt h v t i hts.0 ht) ht hts.1

task_precede-IsBuilt :
    (h : Heap) (t : ℕ) (ts : List ℕ) (p : Ptr)
    → IsBuilt h
    → IsObject h t
    → All (IsObject h) ts
    → IsBuilt (precede_each (add_to_mapper h t p ts) t ts)
unfolding add_to_mapper
task_precede-IsBuilt h t ts (Ptr.condition m) i ht hts =
    precede_each-IsBuilt _ t ts (put_node-IsBuilt h t _ i ht refl refl refl refl (λ k e. cc)) ht hts
task_precede-IsBuilt h t ts Ptr.static i ht hts = precede_each-IsBuilt h t ts i ht hts
task_precede-IsBuilt h t ts (Ptr.subflow g) i ht hts = precede_each-IsBuilt h t ts i ht hts

-- The heaps that a client can build, call by call. A task or a graph that a call names is an
-- object that was handed out.
pub data Built : Heap → Type 0 where
  start : Built no_objects
  new_flow : {h : Heap} (name : String) → Built h → Built (new_task_flow h name).1
  new_in_flow :
      {h h' : Heap} {a : ℕ} (k : Kind) (tf : TaskFlow) (name nanos : String)
      → Built h
      → IsObject h tf.graph
      → flow_new k h tf name nanos ≡ some (a, h')
      → Built h'
  new_in_subflow :
      {h : Heap} (k : Kind) (g : ℕ) (name nanos : String)
      → Built h
      → IsObject h g
      → Built (subflow_new k h g name nanos).1
  edges_from :
      {h : Heap} (t : ℕ) (ts : List ℕ)
      → Built h
      → IsObject h t
      → All (IsObject h) ts
      → Built (precede h t ts)
  edges_to :
      {h : Heap} (t : ℕ) (ts : List ℕ)
      → Built h
      → IsObject h t
      → All (IsObject h) ts
      → Built (succeed h t ts)
  prioritized : {h : Heap} (t p : ℕ) → Built h → IsObject h t → Built (priority h t p)

-- Whatever a client builds through the calls of TaskFlow, Subflow and Task: a node stands among the
-- successors of another as often as that one stands among its dependents, no edge leads to nil or
-- to an address not handed out, no graph lists a node twice, the nodes that a graph lists belong to
-- it and are younger than it, the graph inside a subflow is younger than its node, and no counter
-- has moved, of a node or of a graph.
pub Built-IsBuilt : {h : Heap} → Built h → IsBuilt h
unfolding precede succeed priority new_task_flow
Built-IsBuilt start = IsBuilt-no_objects
Built-IsBuilt (new_flow name b) = new_graph-IsBuilt _ name (Built-IsBuilt b)
Built-IsBuilt (new_in_flow {h = h} k tf name nanos b ho e) =
    subst IsBuilt (flow_new_heap k h tf name nanos e)
      (subflow_new-IsBuilt k h tf.graph name nanos (Built-IsBuilt b) ho)
Built-IsBuilt (new_in_subflow {h = h} k g name nanos b hg) =
    subflow_new-IsBuilt k h g name nanos (Built-IsBuilt b) hg
Built-IsBuilt (edges_from {h = h} t ts b ht hts) =
    task_precede-IsBuilt h t ts (h.node t).ptr (Built-IsBuilt b) ht hts
Built-IsBuilt (edges_to {h = h} t ts b ht hts) =
    succeed_each-IsBuilt h t ts (Built-IsBuilt b) ht hts
Built-IsBuilt (prioritized {h = h} t p b ht) =
    put_node-IsBuilt h t _ (Built-IsBuilt b) ht refl refl refl refl
      (λ k e. (Built-IsBuilt b).nested t k e)
