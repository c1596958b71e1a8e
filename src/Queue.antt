-- ===== src/Queue.antt =====
-- utils/queue.go is a copy of another project's queue. The executor and the pool take it as a
-- parameter: its operations, and a view of its contents in which it is first in, first out.
use go_taskflow.Base.{ℕ, ◌≡◌, refl, ap, List, [], ◌∷◌, ◌++◌, Option, none, some, length}

pub record Queue (A : Type 0) : Type 1 where
  pub Carrier : Type 0
  -- `NewQueue`, `Put`, `Len` and `Pop`, which panics (`none`) on an empty queue.
  pub empty : Carrier
  pub put : A → Carrier → Carrier
  pub len : Carrier → ℕ
  pub pop : Carrier → Option (A × Carrier)
  pub contents : Carrier → List A
  pub contents-empty : contents empty ≡ []
  pub contents-put : (a : A) (q : Carrier) → contents (put a q) ≡ contents q ++ a ∷ []
  pub len-eq : (q : Carrier) → len q ≡ length (contents q)
  pub pop-nil : (q : Carrier) → contents q ≡ [] → pop q ≡ none
  pub pop-cons :
      (q : Carrier) (a : A) (rest : List A)
      → contents q ≡ a ∷ rest
      → (r : Carrier) × (pop q ≡ some (a, r)) × (contents r ≡ rest)

-- The queue as a list, which has the behaviour that is asked for.
abbrev pub pop_list : {A : Type 0} → List A → Option (A × List A)
pop_list [] = none
pop_list (x ∷ xs) = some (x, xs)

abbrev pub list_queue : (A : Type 0) → Queue A
list_queue A = record {
  Carrier = List A;
  empty = [];
  put = λ a q. q ++ a ∷ [];
  len = length;
  pop = pop_list;
  contents = λ q. q;
  contents-empty = refl;
  contents-put = λ a q. refl;
  len-eq = λ q. refl;
  pop-nil = λ q e. ap pop_list e;
  pop-cons = λ q a rest e. (rest, ap pop_list e, refl);
}

module _ {A : Type 0} (𝓠 : Queue A) where
  -- What `Pop` returns stood first.
  pub contents-pop :
      (q : 𝓠.Carrier) (a : A) (r : 𝓠.Carrier)
      → 𝓠.pop q ≡ some (a, r)
      → 𝓠.contents q ≡ a ∷ 𝓠.contents r
  contents-pop q a r e = split (𝓠.contents q) refl
    where
      split : (l : List A) → 𝓠.contents q ≡ l → 𝓠.contents q ≡ a ∷ 𝓠.contents r
      split [] el = absurd (cc (𝓠.pop-nil q el))
      split (b ∷ l) el = let (r', pops, rest) = 𝓠.pop-cons q b l el in cc
