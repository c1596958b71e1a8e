-- ===== src/Memory/Writes.antt =====
-- Writes to the heap, as equations between heaps.
use go_taskflow.Base.{ℕ, ◌<◌, ◌^◌, ◌≡◌, ap, ◌∙◌, fun_ext, update, arith}
use go_taskflow.Memory.{Node, Heap, put_node}

module _ {ℓ} {A : Type ℓ} where
  pub update-update : (f : ℕ → A) (i : ℕ) (a b : A) → update (update f i a) i b ≡ update f i b
  update-update f i a b = fun_ext (λ j. ground arith)

  pub update_self : (f : ℕ → A) (i : ℕ) → update f i (f i) ≡ f
  update_self f i = fun_ext (λ j. ground arith)

  pub update_at : (f : ℕ → A) (i : ℕ) (a : A) → update f i a i ≡ a
  update_at f i a = ground arith

-- Every counter of a node is the bit pattern of an int32.
abbrev pub CountersFit : Heap → Type 0
CountersFit h = (a : ℕ) → (h.node a).join_counter < 2 ^ 32

pub put_node_again :
    (h : Heap) (a : ℕ) (n m : Node) → put_node (put_node h a n) a m ≡ put_node h a m
put_node_again h a n m = ap (λ f. record h { node = f }) (update-update h.node a n m)

pub put_node_self : (h : Heap) (a : ℕ) (n : Node) → n ≡ h.node a → put_node h a n ≡ h
put_node_self h a n e = rw e (ap (λ f. record h { node = f }) (update_self h.node a))

-- A write to the counter of one node.
abbrev pub with_counter : Heap → ℕ → ℕ → Heap
with_counter h a c = put_node h a (record (h.node a) { join_counter = c })

pub with_counter_again :
    (h : Heap) (a c d : ℕ) → with_counter (with_counter h a c) a d ≡ with_counter h a d
with_counter_again h a c d = put_node_again h a _ _ ∙ ap (put_node h a) (ground arith)
