-- ===== src/Dot.antt =====
-- visualizer_dot.go: the graph in dot format that a flow is drawn as. A map is a list of keys with
-- values. An edge keeps the ids of its two nodes: `Format` reads nothing else of them, and an id is
-- never written again.
pub mod Visualize
pub mod Edges
pub mod Text
pub mod Drawing
use Prim.Native.String
use text.Mathlib.Text.{◌==◌ as str_eq}
use go_taskflow.Base.{
  ℕ, zero, suc, ◌+◌, String, List, [], ◌∷◌, ◌++◌, Bool, true, false, if◌then◌else◌, ◌==◌, Option,
  none, some, get, put,
}
use go_taskflow.Memory.{Node, Heap, Ptr, high, low, is_condition}

-- `dotNode`
pub record DotNode : Type 0 where
  pub id : String
  pub attributes : List (String × String)

-- `dotEdge`
pub record DotEdge : Type 0 where
  pub from : String
  pub to : String
  pub attributes : List (String × String)

-- `dotGraph` without its subgraphs, and with them.
pub record DotBody : Type 0 where
  pub name : String
  pub is_subgraph : Bool
  pub nodes : List (String × DotNode)
  pub edges : List DotEdge
  pub attributes : List (String × String)
  pub indent : String

mutual
  pub data DotGraph : Type 0 where
    dot_graph : (body : DotBody) (subgraphs : DotGraphs) → DotGraph

  pub data DotGraphs : Type 0 where
    no_graph : DotGraphs
    graph_then : (first : DotGraph) (rest : DotGraphs) → DotGraphs

unfoldable pub add_last : DotGraphs → DotGraph → DotGraphs
add_last no_graph s = graph_then s no_graph
add_last (graph_then f r) s = graph_then f (add_last r s)

abbrev pub body : DotGraph → DotBody
body (dot_graph b subs) = b

-- `newDotGraph`, and the graph that `SubGraph` makes.
unfoldable pub new_dot_graph : String → DotBody
new_dot_graph name = record {
  name = name;
  is_subgraph = false;
  nodes = [];
  edges = [];
  attributes = [];
  indent = "";
}

unfoldable pub sub_graph : DotBody → String → DotBody
sub_graph b name = record {
  name = name;
  is_subgraph = true;
  nodes = [];
  edges = [];
  attributes = [];
  indent = String.◌++◌ b.indent "  ";
}

-- `CreateNode`, and a write to an attribute of the node that it returned.
unfoldable pub create_node : DotBody → String → DotBody
create_node b name = elim (get name b.nodes) [
  | some n ↦ b
  | none ↦ record b { nodes = put name (record { id = name; attributes = [] }) b.nodes }
]

unfoldable pub set_attribute : DotBody → String → String → String → DotBody
set_attribute b name k v = elim (get name b.nodes) [
  | none ↦ b
  | some n ↦ record b { nodes = put name (record n { attributes = put k v n.attributes }) b.nodes }
]

-- `CreateEdge`, with the style that its caller writes into the edge unless it is "solid".
unfoldable pub create_edge : DotBody → String → String → String → Bool → DotBody
create_edge b from to label dashed =
    let labelled = if str_eq label "" then [] else put "label" label [] in
    record b {
      edges =
          b.edges
          ++ record {
            from = from;
            to = to;
            attributes = if dashed then put "style" "dashed" labelled else labelled;
          }
            ∷ [];
    }

-- The colour of a node by its priority.
unfoldable pub colour : Node → String
colour n = if n.priority == high then "#f5427b" else if n.priority == low then "purple" else "black"

-- The subgraph of a subflow, with the point that stands for it, before the graph in it is drawn.
unfoldable pub draw_subflow : DotBody → Node → DotBody
unfolding sub_graph create_node set_attribute colour
draw_subflow b n =
    let s = sub_graph b n.name in
    let labelled = put "style" "dashed" (put "label" n.name s.attributes) in
    let coloured =
      put "fontcolor" (colour n) (put "bgcolor" "#F5F5F5" (put "rankdir" "LR" labelled)) in
    let pointed = create_node (record s { attributes = coloured }) n.name in
    let shaped =
      set_attribute (set_attribute pointed n.name "shape" "point") n.name "height" "0.05" in
    set_attribute shaped n.name "width" "0.05"

unfoldable pub draw_static : DotBody → Node → DotBody
unfolding create_node set_attribute colour
draw_static b n = set_attribute (create_node b n.name) n.name "color" (colour n)

unfoldable pub draw_condition : DotBody → Node → DotBody
unfolding create_node set_attribute
draw_condition b n =
    set_attribute (set_attribute (create_node b n.name) n.name "shape" "diamond") n.name "color"
      "green"
