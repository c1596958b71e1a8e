-- ===== src/Flow/Mapper.antt =====
-- The branches of a condition: what `Precede` and `Succeed` of task.go make of its mapper.
use go_taskflow.Base.{
  ℕ, zero, suc, ◌+◌, ◌≤◌, ◌≡◌, refl, ap, sym, ◌∙◌, arith, List, [], ◌∷◌, ◌++◌, length,
}
use mathlib.Core.List.{append-nil, append_assoc}
use go_taskflow.Memory.{Node, Ptr, Heap}
use go_taskflow.Node
use go_taskflow.Flow.{map_set, map_get, add_branches, precede_each, add_to_mapper, precede, succeed}

-- The branches `ts`, numbered from `k` on.
abbrev pub numbered : ℕ → List ℕ → List (ℕ × ℕ)
numbered k [] = []
numbered k (t ∷ ts) = (k, t) ∷ numbered (suc k) ts

pub length-numbered : (k : ℕ) (ts : List ℕ) → length (numbered k ts) ≡ length ts
length-numbered k [] = refl
length-numbered k (t ∷ ts) = ap suc (length-numbered (suc k) ts)

-- The next number is a new key.
map_set-numbered :
    (k v j : ℕ) (ts : List ℕ)
    → j ≡ k + length ts
    → map_set j v (numbered k ts) ≡ numbered k (ts ++ v ∷ [])
unfolding map_set
map_set-numbered k v j [] e = ground arith
map_set-numbered k v j (t ∷ ts) e = ground (arith, map_set-numbered (suc k) v j ts)

add_branches-numbered : (us ts : List ℕ) → add_branches (numbered 0 us) ts ≡ numbered 0 (us ++ ts)
unfolding add_branches
add_branches-numbered us [] = ap (numbered 0) (sym (append-nil us))
add_branches-numbered us (t ∷ ts) =
    ap (λ m. add_branches m ts)
      (map_set-numbered 0 t (length (numbered 0 us)) us (omega (arith, length-numbered 0 us)))
    ∙ add_branches-numbered (us ++ t ∷ []) ts
    ∙ ap (numbered 0) (append_assoc us (t ∷ []) ts)

-- The `i`-th number of a list, or nil.
abbrev pub nth : List ℕ → ℕ → ℕ
nth [] i = 0
nth (t ∷ ts) zero = t
nth (t ∷ ts) (suc i) = nth ts i

pub map_get-numbered : (k i j : ℕ) (ts : List ℕ) → j ≡ k + i → map_get j (numbered k ts) ≡ nth ts i
unfolding map_get
map_get-numbered k i j [] e = refl
map_get-numbered k zero j (t ∷ ts) e = ground arith
map_get-numbered k (suc i) j (t ∷ ts) e = ground (arith, map_get-numbered (suc k) i j ts)

pub nth_out_of_range : (ts : List ℕ) (i : ℕ) → length ts ≤ i → nth ts i ≡ 0
nth_out_of_range [] i h = refl
nth_out_of_range (t ∷ ts) zero h = absurd (omega arith)
nth_out_of_range (t ∷ ts) (suc i) h = nth_out_of_range ts i (omega arith)

nth-length : (ts : List ℕ) → nth ts (length ts) ≡ 0
nth-length [] = refl
nth-length (t ∷ ts) = nth-length ts

nth-append : (ts : List ℕ) (t : ℕ) → nth (ts ++ t ∷ []) (length ts) ≡ t
nth-append [] t = refl
nth-append (s ∷ ts) t = nth-append ts t

-- The branches of a condition are its successors, in the order of both.
abbrev pub InStep : Node → List ℕ → Type 0
InStep n us = (n.ptr ≡ Ptr.condition (numbered 0 us)) × (n.successors ≡ us)

-- The node that an edge starts at.
precede-at :
    (h : Heap) (t v : ℕ)
    → (((Node.precede h t v).node t).successors ≡ (h.node t).successors ++ v ∷ [])
      × (((Node.precede h t v).node t).ptr ≡ (h.node t).ptr)
unfolding Node.precede
precede-at h t v = ground arith

precede_each-at :
    (h : Heap) (t : ℕ) (vs : List ℕ)
    → (((precede_each h t vs).node t).successors ≡ (h.node t).successors ++ vs)
      × (((precede_each h t vs).node t).ptr ≡ (h.node t).ptr)
unfolding precede_each
precede_each-at h t [] = (sym (append-nil _), refl)
precede_each-at h t (v ∷ vs) = ground (
  arith,
  precede-at h t v,
  precede_each-at (Node.precede h t v) t vs,
  append_assoc (h.node t).successors (v ∷ []) vs,
)

add_to_mapper-at :
    (h : Heap) (t : ℕ) (us ts : List ℕ) (p : Ptr)
    → p ≡ Ptr.condition (numbered 0 us)
    → (((add_to_mapper h t p ts).node t).ptr ≡ Ptr.condition (numbered 0 (us ++ ts)))
      × (((add_to_mapper h t p ts).node t).successors ≡ (h.node t).successors)
unfolding add_to_mapper
add_to_mapper-at h t us ts p e = rw e (ground (arith, add_branches-numbered us ts))

-- `Precede` on a condition whose branches are its successors in order keeps that so: the tasks
-- become the next branches and the next successors. The mapper then reads branch `i` as the `i`-th
-- of the old and the new tasks together, and as nil from their number on.
pub precede-InStep :
    (h : Heap) (t : ℕ) (us ts : List ℕ)
    → InStep (h.node t) us
    → InStep ((precede h t ts).node t) (us ++ ts)
      × ((i : ℕ) → map_get i (numbered 0 (us ++ ts)) ≡ nth (us ++ ts) i)
unfolding precede
precede-InStep h t us ts s =
    let h' = add_to_mapper h t (h.node t).ptr ts in
    (
      ground (arith, add_to_mapper-at h t us ts (h.node t).ptr s.0, precede_each-at h' t ts),
      λ i. map_get-numbered 0 i i (us ++ ts) (omega arith),
    )

-- `Succeed` on a condition adds the task to the successors of the condition and leaves its mapper
-- as it was. If the branches were the successors in order, the task is the last successor and the
-- mapper has nil for it.
pub succeed-condition :
    (h : Heap) (t c : ℕ) (us : List ℕ)
    → InStep (h.node c) us
    → (((succeed h t (c ∷ [])).node c).ptr ≡ Ptr.condition (numbered 0 us))
      × (((succeed h t (c ∷ [])).node c).successors ≡ us ++ t ∷ [])
      × (nth (us ++ t ∷ []) (length us) ≡ t)
      × (map_get (length us) (numbered 0 us) ≡ 0)
unfolding succeed
succeed-condition h t c us s = ground (
  arith,
  precede-at h c t,
  nth-append us t,
  map_get-numbered 0 (length us) (length us) us,
  nth-length us,
)
