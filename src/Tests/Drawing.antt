-- ===== src/Tests/Drawing.antt =====
-- The drawing of the sample.
use go_taskflow.Base.{put, ℕ, zero, suc, ◌≡◌, refl, String, [], some, arith, length, total}
use go_taskflow.Flow.Nesting.{IsBuilt-IsNested}
use go_taskflow.Dot.{DotGraph, DotEdge, body}
use go_taskflow.Dot.Visualize.{visualize}
use go_taskflow.Dot.Edges.{drawn}
use go_taskflow.Dot.Text.{format_edge}
use go_taskflow.Dot.Drawing.{visualize-total}
use go_taskflow.Tests.Sample.{program, sample}
use go_taskflow.Tests.Building.{sample_grown, sample-IsBuilt}

-- The decimal texts that the sample needs.
abbrev decimal : ℕ → String
decimal zero = "0"
decimal (suc zero) = "1"
decimal n = "2"

visualize-total_example :
    (d : DotGraph) × (visualize decimal sample 1 ≡ some d)
    × (length (body d).edges ≡ total (drawn sample (sample.graph 1).nodes) (sample.graph 1).nodes)
visualize-total_example =
    visualize-total decimal sample 1 (IsBuilt-IsNested sample sample-IsBuilt) (omega arith)
      sample_grown

-- Four edges: to `store`, to `again`, and the two branches.
sample_edges : total (drawn sample (sample.graph 1).nodes) (sample.graph 1).nodes ≡ 4
unfolding program
sample_edges = refl

abbrev branch : DotEdge
branch = record {
  from = "again";
  to = "done";
  attributes = put "style" "dashed" (put "label" "1" []);
}

branch-text :
    format_edge (λ m. m) (λ m. m) branch "  "
    ≡ "  \"again\" -> \"done\" [label=\"1\", style=\"dashed\"];\n"
unfolding format_edge
branch-text = refl
