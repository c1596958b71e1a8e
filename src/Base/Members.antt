-- ===== src/Base/Members.antt =====
-- `All` on joined lists, and on lists of numbers as a statement on the numbers that a list counts.
use mathlib.Core.Path.{subst, ◌≡◌, refl, ◌∙◌}
use mathlib.Core.Logic.{◌≢◌, inl, inr}
use mathlib.Core.List.{List, [], ◌∷◌, ◌++◌}
use Prim.Native.Nat.{ℕ}
use native.Mathlib.Omega.{arith}
use go_taskflow.Base.Tests.{Bool-cases, ◌==◌}
use go_taskflow.Base.Lists.{All, count, length}

-- `All`, as a statement on the elements that a list counts.
All→counted : (P : ℕ → Type 0) (l : List ℕ) (a : ℕ) → All P l → count a l ≢ 0 → P a
All→counted P [] a p c = absurd (c refl)
All→counted P (x ∷ l) a p c = elim (Bool-cases (x == a)) [
  | inl e ↦ subst P (ground arith) p.0
  | inr e ↦ All→counted P l a p.1 (ground arith)
]

counted→All : (P : ℕ → Type 0) (l : List ℕ) → ((a : ℕ) → count a l ≢ 0 → P a) → All P l
counted→All P [] h = tt
counted→All P (x ∷ l) h = (h x (ground arith), counted→All P l (λ a c. h a (ground arith)))

pub All-same_count :
    (P : ℕ → Type 0) (l m : List ℕ) → ((a : ℕ) → count a m ≡ count a l) → All P l → All P m
All-same_count P l m e p = counted→All P m (λ a c. All→counted P l a p (λ z. c (e a ∙ z)))

pub All-map {ℓ} :
    {A : Type ℓ} (P Q : A → Type 0) (l : List A) → ((a : A) → P a → Q a) → All P l → All Q l
All-map P Q [] f p = tt
All-map P Q (x ∷ l) f p = (f x p.0, All-map P Q l f p.1)

pub length-eq_zero : (l : List ℕ) → length l ≡ 0 → l ≡ []
length-eq_zero [] e = refl
length-eq_zero (x ∷ l) e = absurd (omega arith)

pub All-append {ℓ} :
    {A : Type ℓ} (P : A → Type 0) (l m : List A) → All P l → All P m → All P (l ++ m)
All-append P [] m left right = right
All-append P (a ∷ l) m (here, left) right = (here, All-append P l m left right)

pub All-split {ℓ} :
    {A : Type ℓ} (P : A → Type 0) (xs : List A) (y : A) (ys : List A)
    → All P (xs ++ y ∷ ys)
    → All P xs × P y × All P ys
All-split P [] y ys h = (tt, h.0, h.1)
All-split P (x ∷ xs) y ys h = let (a, b, c) = All-split P xs y ys h.1 in ((h.0, a), b, c)
