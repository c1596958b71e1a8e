-- ===== src/Tests/Sample.antt =====
-- A flow: `load` before `store`, `store` before the condition `again`, whose branches are `store`
-- and `done`. Then the same with a subflow.
use go_taskflow.Base.{[], ◌∷◌, ◌≡◌, refl}
use go_taskflow.Memory.{Heap, no_objects}
use go_taskflow.Flow.{Kind, new_task_flow, subflow_new, precede, succeed, run_calls}

abbrev pub empty_flow : Heap
empty_flow = (new_task_flow no_objects "flow").1

abbrev pub with_load : Heap
with_load = (subflow_new Kind.static empty_flow 1 "load" "").1

abbrev pub with_store : Heap
with_store = (subflow_new Kind.static with_load 1 "store" "").1

abbrev pub with_again : Heap
with_again = (subflow_new Kind.condition with_store 1 "again" "").1

abbrev pub with_done : Heap
with_done = (subflow_new Kind.static with_again 1 "done" "").1

abbrev pub with_edges : Heap
with_edges = succeed (precede with_done 2 (3 ∷ [])) 4 (3 ∷ [])

-- Addresses: graph 1, `load` 2, `store` 3, `again` 4, `done` 5.
abbrev pub sample : Heap
sample = precede with_edges 4 (3 ∷ 5 ∷ [])

-- One line for all that the sample computes with.
unfoldable pub program : Unit {0}
unfolding new_task_flow subflow_new precede succeed run_calls
program = tt

sample_links :
    ((sample.node 3).successors ≡ 4 ∷ [])
    × ((sample.node 3).dependents ≡ 2 ∷ 4 ∷ [])
    × ((sample.node 4).successors ≡ 3 ∷ 5 ∷ [])
    × ((sample.node 5).name ≡ "done")
    × ((sample.graph 1).nodes ≡ 2 ∷ 3 ∷ 4 ∷ 5 ∷ [])
    × (sample.fresh ≡ 6)
unfolding program
sample_links = (refl, refl, refl, refl, refl, refl)
