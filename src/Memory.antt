-- ===== src/Memory.antt =====
-- The objects of node.go, graph.go and flow.go on a heap. A Go pointer is an address, and nil is
-- address 0. Every node and every graph has an address of its own, handed out in order by `fresh`.
-- The mutexes and the condition variable of a graph are not part of the heap: Executor says which
-- of their critical sections are single steps.
pub mod Writes
use go_taskflow.Base.{ℕ, String, List, [], Bool, false, true, update}

abbrev pub nil : ℕ
nil = 0

-- `nodeType`
pub data NodeType : Type 0 where
  subflow static condition : NodeType

-- The constants `kNodeState…`. A node fresh from `newNode` has the number 0, which is none of them.
pub data NodeState : Type 0 where
  unset idle waiting running finished : NodeState

-- `TaskPriority`: `HIGH`, `NORMAL` and `LOW` are 1, 2 and 3, and a client may pass any number.
abbrev pub high : ℕ
high = 1

abbrev pub normal : ℕ
normal = 2

abbrev pub low : ℕ
low = 3

-- What the field `ptr` points at. The field `handle`, the client's function, is no data: what it
-- does is an input of the step that calls it. The mapper of a condition is its list of entries.
pub data Ptr : Type 0 where
  static : Ptr
  subflow : (g : ℕ) → Ptr
  condition : (mapper : List (ℕ × ℕ)) → Ptr

-- `innerNode`
pub record Node : Type 0 where
  pub name : String
  pub successors : List ℕ
  pub dependents : List ℕ
  pub typ : NodeType
  pub ptr : Ptr
  pub state : NodeState
  pub join_counter : ℕ
  pub g : ℕ
  pub priority : ℕ

-- `eGraph`
pub record Graph : Type 0 where
  pub name : String
  pub nodes : List ℕ
  pub join_counter : ℕ
  pub entries : List ℕ
  pub instantiated : Bool
  pub canceled : Bool

pub record Heap : Type 0 where
  pub node : ℕ → Node
  pub graph : ℕ → Graph
  pub fresh : ℕ

-- A write through a pointer to a node or to a graph.
abbrev pub put_node : Heap → ℕ → Node → Heap
put_node h a n = record h { node = update h.node a n }

abbrev pub put_graph : Heap → ℕ → Graph → Heap
put_graph h a g = record h { graph = update h.graph a g }

abbrev pub is_condition : NodeType → Bool
is_condition NodeType.condition = true
is_condition _ = false

abbrev pub is_idle : NodeState → Bool
is_idle NodeState.idle = true
is_idle _ = false

-- The objects that stand at addresses not handed out yet.
abbrev pub blank_node : Node
blank_node = record {
  name = "";
  successors = [];
  dependents = [];
  typ = NodeType.static;
  ptr = Ptr.static;
  state = NodeState.unset;
  join_counter = 0;
  g = nil;
  priority = normal;
}

abbrev pub blank_graph : Graph
blank_graph = record {
  name = "";
  nodes = [];
  join_counter = 0;
  entries = [];
  instantiated = false;
  canceled = false;
}

abbrev pub no_objects : Heap
no_objects = record { node = λ _. blank_node; graph = λ _. blank_graph; fresh = 1 }
