-- ===== src/Executor/Finding.antt =====
-- Where in the list of the goroutines one of a kind stands.
use go_taskflow.Base.{
  ℕ, ◌≡◌, ◌≢◌, refl, ap, List, [], ◌∷◌, ◌++◌, Bool, true, false, Bool-cases, inl, inr, ◌⊎◌, ◌==◌,
  arith, Option, none, some, All, total, length,
}
use go_taskflow.Memory.{Heap, nil}
use go_taskflow.Executor.Goroutine.{Pc, scheduling, putting, looping, deciding, ended, Thread}
use go_taskflow.Executor.Weights.{homed}
use go_taskflow.Executor.Shape.{SameShape}
use go_taskflow.Executor.Homes.{IsMember}
use go_taskflow.Executor.Within.{decides_at, decides, calls}

-- Where a goroutine may have to wait, or has ended.
abbrev pub may_wait : Pc → Bool
may_wait (putting n rest k) = true
may_wait (looping k pg) = true
may_wait ended = true
may_wait _ = false

pub not_none {ℓ} : {A : Type ℓ} (o : Option A) → o ≢ none → (a : A) × (o ≡ some a)
not_none none e = absurd (e refl)
not_none (some a) e = (a, refl)

-- A list with a marked place.
abbrev pub Holds : (Thread → Type 0) → List Thread → Type 0
Holds P l =
    (before : List Thread) × (t : Thread) × (after : List Thread) × (l ≡ before ++ t ∷ after) × P t

pub Holds-cons : (P : Thread → Type 0) (t : Thread) (l : List Thread) → Holds P l → Holds P (t ∷ l)
Holds-cons P t l (before, r, after, e, p) = (t ∷ before, r, after, ap (λ x. t ∷ x) e, p)

pub decider_cases : (pc : Pc) → ((k : ℕ) × (pg : ℕ) × (pc ≡ deciding k pg)) ⊎ (decides_at pc ≡ 0)
decider_cases (deciding k pg) = inl (k, pg, refl)
decider_cases (scheduling rest k) = inr refl
decider_cases _ = inr refl

pub find_decider :
    (l : List Thread)
    → total decides l ≢ 0
    → Holds (λ t. (k : ℕ) × (pg : ℕ) × (t.pc ≡ deciding k pg)) l
find_decider [] e = absurd (e refl)
find_decider (t ∷ l) e = elim (decider_cases t.pc) [
  | inl found ↦ ([], t, l, refl, found)
  | inr z ↦
      Holds-cons (λ t. (k : ℕ) × (pg : ℕ) × (t.pc ≡ deciding k pg)) t l
        (find_decider l (λ y. e (omega arith)))
]

pub find_node : (l : List Thread) → Holds (λ t. t.node ≢ nil) l ⊎ (total calls l ≡ length l)
find_node [] = inr refl
find_node (t ∷ l) = elim (Bool-cases (t.node == nil)) [
  | inl e ↦ elim (find_node l) [
    | inl found ↦ inl (Holds-cons (λ t. t.node ≢ nil) t l found)
    | inr all ↦ inr (ground arith)
  ]
  | inr e ↦ inl ([], t, l, refl, λ z. absurd (ground arith))
]

-- The nodes of one graph are all counted for it.
pub members-homed :
    (h k : Heap) (g : ℕ) (l : List ℕ)
    → SameShape h k
    → All (IsMember h g) l
    → total (homed k g) l ≡ length l
members-homed h k g [] s m = refl
members-homed h k g (n ∷ l) s m =
    let home = m.0.1 in ground (arith, s.node n, members-homed h k g l s m.1)
