-- ===== src/Dot/Text.antt =====
-- visualizer_dot.go: the text of a drawing. A loop over a map takes the entries in an order that is
-- not specified, which `visit` and `visit_nodes` stand for.
use Prim.Native.String
use text.Mathlib.Text.{◌==◌ as str_eq}
use go_taskflow.Base.{String, List, [], ◌∷◌, if◌then◌else◌, map}
use go_taskflow.Dot.{
  DotNode, DotEdge, DotBody, DotGraph, dot_graph, DotGraphs, no_graph, graph_then,
}

-- The texts one after another, which is what a `strings.Builder` collects.
unfoldable pub write_all : List String → String
write_all [] = ""
write_all (s ∷ ss) = String.◌++◌ s (write_all ss)

-- `strings.Join(result, ", ")`
unfoldable pub join_comma : List String → String
join_comma [] = ""
join_comma (s ∷ []) = s
join_comma (s ∷ t ∷ ss) = String.◌++◌ s (String.◌++◌ ", " (join_comma (t ∷ ss)))

-- `quote`
unfoldable pub quote : String → String
unfolding write_all
quote s = write_all ("\"" ∷ s ∷ "\"" ∷ [])

module _ (visit : List (String × String) → List (String × String))
    (visit_nodes : List (String × DotNode) → List (String × DotNode)) where
  -- `formatAttributes`
  unfoldable pub format_attributes : List (String × String) → String
  unfolding quote join_comma
  format_attributes [] = ""
  format_attributes (a ∷ attrs) =
      join_comma (map (λ kv. write_all (kv.0 ∷ "=" ∷ quote kv.1 ∷ [])) (visit (a ∷ attrs)))

  -- `dotNode.Format` and `dotEdge.Format`
  unfoldable pub format_node : DotNode → String → String
  unfolding format_attributes
  format_node n indent =
      let attrs = format_attributes n.attributes in
      if str_eq attrs ""
      then write_all (indent ∷ quote n.id ∷ ";\n" ∷ [])
      else write_all (indent ∷ quote n.id ∷ " [" ∷ attrs ∷ "];\n" ∷ [])

  unfoldable pub format_edge : DotEdge → String → String
  unfolding format_attributes
  format_edge e indent =
      let attrs = format_attributes e.attributes in
      if str_eq attrs ""
      then write_all (indent ∷ quote e.from ∷ " -> " ∷ quote e.to ∷ ";\n" ∷ [])
      else write_all (indent ∷ quote e.from ∷ " -> " ∷ quote e.to ∷ " [" ∷ attrs ∷ "];\n" ∷ [])

  -- The head, the attributes, the nodes and the edges of `dotGraph.String`.
  unfoldable pub body_text : DotBody → String
  unfolding format_node format_edge
  body_text b =
      let deeper = String.◌++◌ b.indent "  " in
      let head =
        if b.is_subgraph
        then write_all
            (b.indent ∷ "subgraph " ∷ quote (String.◌++◌ "cluster_" b.name) ∷ " {\n" ∷ [])
        else write_all (b.indent ∷ "digraph " ∷ quote b.name ∷ " {\n" ∷ []) in
      write_all (
        head
        ∷ write_all (
            map (λ kv. write_all (deeper ∷ kv.0 ∷ "=" ∷ quote kv.1 ∷ ";\n" ∷ []))
              (visit b.attributes))
        ∷ write_all (map (λ kv. format_node kv.1 deeper) (visit_nodes b.nodes))
        ∷ write_all (map (λ e. format_edge e deeper) b.edges)
        ∷ [])

  -- `dotGraph.String`
  unfoldable mutual
    unfolding body_text

    pub graph_text : DotGraph → String
    graph_text (dot_graph b subs) =
        write_all (body_text b ∷ graphs_text subs ∷ b.indent ∷ "}\n" ∷ [])

    pub graphs_text : DotGraphs → String
    graphs_text no_graph = ""
    graphs_text (graph_then s rest) = String.◌++◌ (graph_text s) (graphs_text rest)
