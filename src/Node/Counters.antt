-- ===== src/Node/Counters.antt =====
-- What `setup` and `drop` of node.go do to the counters of the nodes.
use go_taskflow.Base.{
  ℕ, ◌+◌, ◌<◌, ◌^◌, ◌≡◌, refl, ap, sym, ◌∙◌, fun_ext, true, false, if◌then◌else◌, Bool-cases, inl,
  inr, update, arith, List, [], ◌∷◌, total, count, int32, incr32, minus32,
}
use go_taskflow.Memory.{Node, NodeState, Heap, put_node, is_condition}
use go_taskflow.Memory.Writes.{
  put_node_self, put_node_again, with_counter, with_counter_again, CountersFit,
}
use go_taskflow.Node.{ref, deref, ref_each, setup, deref_each, drop}

-- The dependents that count: all but the condition nodes, each as often as it is listed.
abbrev pub strong : (ℕ → Node) → List ℕ → ℕ
strong nodes = total (λ d. if is_condition (nodes d).typ then 0 else 1)

-- A write that keeps the type of a node keeps the number of dependents that count.
pub strong-update :
    (f : ℕ → Node) (a : ℕ) (n : Node) (ds : List ℕ)
    → n.typ ≡ (f a).typ
    → strong (update f a n) ds ≡ strong f ds
strong-update f a n [] e = refl
strong-update f a n (d ∷ ds) e = ground (arith, strong-update f a n ds e)

-- The loop of `setup` adds the dependents that count, and writes nothing else.
ref_each-eq :
    (h : Heap) (a : ℕ) (ds : List ℕ)
    → (h.node a).join_counter < 2 ^ 32
    → ref_each h a ds ≡ with_counter h a (int32 ((h.node a).join_counter + strong h.node ds))
unfolding ref_each
ref_each-eq h a [] fits = sym (put_node_self h a _ (ground arith))
ref_each-eq h a (d ∷ ds) fits = elim (Bool-cases (is_condition (h.node d).typ)) [
  | inl skip ↦ rw skip (ref_each-eq h a ds fits ∙ ap (with_counter h a) (omega arith))
  | inr counts ↦ rw counts (
      ref_each-eq (ref h a) a ds (ground arith)
      ∙ with_counter_again h a _ _
      ∙ ap (with_counter h a) (
          ground (
            arith,
            strong-update h.node a
                (record (h.node a) { join_counter = incr32 (h.node a).join_counter }) ds,
          )))
]

-- `setup` sets the state of its node to idle, adds to its counter the number of its dependents
-- that are no conditions, as a 32-bit sum, and changes nothing else on the heap. The counter is
-- the bit pattern of an int32.
pub setup-eq :
    (h : Heap) (a : ℕ)
    → (h.node a).join_counter < 2 ^ 32
    → setup h a
      ≡ put_node h a (record (h.node a) {
        state = NodeState.idle;
        join_counter = int32 ((h.node a).join_counter + strong h.node (h.node a).dependents);
      })
unfolding setup
setup-eq h a fits =
    ref_each-eq (put_node h a idle_node) a (h.node a).dependents (ground arith)
    ∙ put_node_again h a idle_node _
    ∙ ap (put_node h a) (ground (arith, strong-update h.node a idle_node (h.node a).dependents))
  where
    idle_node : Node
    idle_node = record (h.node a) { state = NodeState.idle }

-- The heap where every node has lost one count for each time that it stands in a list.
abbrev pub discount : Heap → List ℕ → Heap
discount h ss = record h {
  node = λ b. record (h.node b) { join_counter = minus32 (h.node b).join_counter (count b ss) };
}

deref_each-eq :
    (h : Heap) (a : ℕ) (ss : List ℕ)
    → CountersFit h
    → is_condition (h.node a).typ ≡ false
    → deref_each h a ss ≡ discount h ss
unfolding deref_each
deref_each-eq h a [] fits plain =
    ap (λ f. record h { node = f }) (fun_ext (λ b. ground (arith, fits b)))
deref_each-eq h a (s ∷ ss) fits plain = rw plain (
    deref_each-eq (deref h s) a ss (λ b. ground (arith, fits b, fits s)) (ground arith)
    ∙ ap (λ f. record h { node = f }) (fun_ext (λ b. ground (arith, fits b))))

deref_each-condition :
    (h : Heap) (a : ℕ) (ss : List ℕ) → is_condition (h.node a).typ ≡ true → deref_each h a ss ≡ h
unfolding deref_each
deref_each-condition h a [] e = refl
deref_each-condition h a (s ∷ ss) e = rw e (deref_each-condition h a ss e)

-- `drop` of a condition node changes nothing. `drop` of any other node takes from the counter of
-- every node as many counts as the node stands among the successors, with 32-bit wrap-around, and
-- changes nothing else on the heap. The counters are bit patterns of an int32.
pub drop-eq :
    (h : Heap) (a : ℕ)
    → CountersFit h
    → drop h a ≡ (if is_condition (h.node a).typ then h else discount h (h.node a).successors)
unfolding drop
drop-eq h a fits = elim (Bool-cases (is_condition (h.node a).typ)) [
  | inl e ↦ rw e (deref_each-condition h a (h.node a).successors e)
  | inr e ↦ rw e (deref_each-eq h a (h.node a).successors fits e)
]
