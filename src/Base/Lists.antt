-- ===== src/Base/Lists.antt =====
-- Lists measured by native numbers, and predicates on their elements.
use Prim.Native.Nat.{ℕ, suc, ◌+◌}
use mathlib.Core.Path.{◌≡◌, refl}
use mathlib.Core.Bool.{Bool, true, false}
use mathlib.Core.List.{List, [], ◌∷◌, ◌++◌}
use native.Mathlib.Omega.{arith}
use go_taskflow.Base.Tests.{if◌then◌else◌, ◌==◌}

module _ {ℓ} {A : Type ℓ} where
  abbrev pub length : List A → ℕ
  length [] = 0
  length (x ∷ xs) = suc (length xs)

  -- A test that every element passes, and the elements that pass a test.
  abbrev pub all : (A → Bool) → List A → Bool
  all p [] = true
  all p (x ∷ xs) = if p x then all p xs else false

  abbrev pub select : (A → Bool) → List A → List A
  select p [] = []
  select p (x ∷ xs) = let rest = select p xs in if p x then x ∷ rest else rest

  abbrev pub All {κ} : (A → Type κ) → List A → Type κ
  All P [] = Unit
  All P (x ∷ xs) = P x × All P xs

  -- The sum of the weights of the elements.
  abbrev pub total : (A → ℕ) → List A → ℕ
  total w [] = 0
  total w (x ∷ xs) = w x + total w xs

module _ {ℓ} {A : Type ℓ} where
  pub length-append : (xs ys : List A) → length (xs ++ ys) ≡ length xs + length ys
  length-append [] ys = omega arith
  length-append (x ∷ xs) ys = omega (arith, length-append xs ys)

  pub total-append : (w : A → ℕ) (l m : List A) → total w (l ++ m) ≡ total w l + total w m
  total-append w [] m = ground arith
  total-append w (a ∷ l) m = ground (arith, total-append w l m)

module _ {ℓ} {A : Type ℓ} where
  pub total_around :
      (w : A → ℕ) (l m r : List A) → total w (l ++ (m ++ r)) ≡ total w m + (total w l + total w r)
  total_around w l m r = omega (arith, total-append w l (m ++ r), total-append w m r)

-- How often a number stands in a list.
abbrev pub count : ℕ → List ℕ → ℕ
count a [] = 0
count a (x ∷ xs) = (if x == a then 1 else 0) + count a xs

-- The test of membership.
abbrev pub contains : ℕ → List ℕ → Bool
contains a [] = false
contains a (x ∷ xs) = if x == a then true else contains a xs

-- No number stands in the list twice.
abbrev pub IsDistinct : List ℕ → Type 0
IsDistinct [] = Unit
IsDistinct (x ∷ xs) = (contains x xs ≡ false) × IsDistinct xs

pub count-append : (n : ℕ) (l m : List ℕ) → count n (l ++ m) ≡ count n l + count n m
count-append n [] m = ground arith
count-append n (k ∷ l) m = ground (arith, count-append n l m)

pub contains-append :
    (a : ℕ) (xs ys : List ℕ)
    → contains a (xs ++ ys) ≡ (if contains a xs then true else contains a ys)
contains-append a [] ys = refl
contains-append a (x ∷ xs) ys = ground (arith, contains-append a xs ys)

-- A number that is new to a list of distinct numbers may stand at its end.
pub IsDistinct-snoc :
    (xs : List ℕ) (a : ℕ) → IsDistinct xs → contains a xs ≡ false → IsDistinct (xs ++ a ∷ [])
IsDistinct-snoc [] a d e = (refl, tt)
IsDistinct-snoc (x ∷ xs) a d e =
    (ground (arith, contains-append x xs (a ∷ [])), IsDistinct-snoc xs a d.1 (ground arith))
