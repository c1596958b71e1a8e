-- ===== src/Tests/Building.antt =====
-- The operations that build a flow, and the setup of a graph, on the sample.
use go_taskflow.Base.{
  ℕ, ◌+◌, ◌<◌, ◌≡◌, ◌↔◌, refl, List, [], ◌∷◌, ◌++◌, true, if◌then◌else◌, ◌==◌, arith, contains,
  int32, some,
}
use go_taskflow.Memory.{NodeState, Ptr, put_node, is_condition}
use go_taskflow.Memory.Writes.{CountersFit}
use go_taskflow.Node
use go_taskflow.Node.Counters.{setup-eq, drop-eq, strong, discount}
use go_taskflow.Graph
use go_taskflow.Graph.Setup.{setup_lem, ready_node, sources}
use go_taskflow.Flow.{Kind, precede, succeed, map_get}
use go_taskflow.Flow.Invariant.{IsBuilt}
use go_taskflow.Flow.Links.{
  Built, start, new_flow, new_in_subflow, edges_from, edges_to, Built-IsBuilt,
}
use go_taskflow.Flow.Mapper.{InStep, numbered, nth, precede-InStep, succeed-condition}
use go_taskflow.Flow.Nesting.{Visits, IsBuilt-IsNested}
use go_taskflow.Flow.Walk.{walk_total}
use go_taskflow.Tests.Sample.{program, with_edges, sample}

-- The node `store` waits for `load` alone, since `again` is a condition.
setup-eq_example :
    Node.setup sample 3
    ≡ put_node sample 3 (record (sample.node 3) {
      state = NodeState.idle;
      join_counter =
          int32 ((sample.node 3).join_counter + strong sample.node (sample.node 3).dependents);
    })
unfolding program
setup-eq_example = setup-eq sample 3 (omega arith)

sample-CountersFit : CountersFit sample
unfolding program
sample-CountersFit a = ground arith

drop-eq_example : Node.drop sample 2 ≡ (
    if is_condition (sample.node 2).typ then sample else discount sample (sample.node 2).successors)
drop-eq_example = drop-eq sample 2 sample-CountersFit

setup_lem_example :
    ((Graph.setup sample 1).node 3
      ≡ (if contains 3 (sample.graph 1).nodes then ready_node sample.node 3 else sample.node 3))
    × ((Graph.setup sample 1).graph 3 ≡ (
        if 1 == 3
        then record (sample.graph 3) {
          join_counter = 0;
          entries = sources sample.node (sample.graph 1).nodes;
        }
        else sample.graph 3))
unfolding program
setup_lem_example = setup_lem sample 1 (refl, (refl, (refl, (refl, tt)))) 3

sample-Built : Built sample
unfolding program
sample-Built =
    edges_from 4 (3 ∷ 5 ∷ [])
      (edges_to 4 (3 ∷ [])
        (edges_from 2 (3 ∷ [])
          (new_in_subflow Kind.static 1 "done" ""
            (new_in_subflow Kind.condition 1 "again" ""
              (new_in_subflow Kind.static 1 "store" ""
                (new_in_subflow Kind.static 1 "load" "" (new_flow "flow" start) (omega arith))
                (omega arith))
              (omega arith))
            (omega arith))
          (omega arith) (omega arith))
        (omega arith) (omega arith))
      (omega arith) (omega arith)

pub sample-IsBuilt : IsBuilt sample
sample-IsBuilt = Built-IsBuilt sample-Built

Built-IsBuilt_example : IsBuilt sample
Built-IsBuilt_example = Built-IsBuilt sample-Built

pub sample_grown : 1 < sample.fresh
unfolding program
sample_grown = omega arith

walk_total_example :
    (l : List ℕ) × (Graph.walk sample.fresh sample 1 ≡ some l)
    × ((a : ℕ) → (contains a l ≡ true) ↔ Visits sample a 1)
walk_total_example =
    walk_total sample 1 (IsBuilt-IsNested sample sample-IsBuilt) (omega arith) sample_grown

-- `again` has no branch yet.
precede-InStep_example :
    InStep ((precede with_edges 4 (3 ∷ 5 ∷ [])).node 4) ([] ++ 3 ∷ 5 ∷ [])
    × ((i : ℕ) → map_get i (numbered 0 ([] ++ 3 ∷ 5 ∷ [])) ≡ nth ([] ++ 3 ∷ 5 ∷ []) i)
unfolding program
precede-InStep_example = precede-InStep with_edges 4 [] (3 ∷ 5 ∷ []) (refl, refl)

succeed-condition_example :
    (((succeed sample 2 (4 ∷ [])).node 4).ptr ≡ Ptr.condition (numbered 0 (3 ∷ 5 ∷ [])))
    × (((succeed sample 2 (4 ∷ [])).node 4).successors ≡ (3 ∷ 5 ∷ []) ++ 2 ∷ [])
    × (nth ((3 ∷ 5 ∷ []) ++ 2 ∷ []) 2 ≡ 2)
    × (map_get 2 (numbered 0 (3 ∷ 5 ∷ [])) ≡ 0)
unfolding program
succeed-condition_example = succeed-condition sample 2 4 (3 ∷ 5 ∷ []) (refl, refl)
