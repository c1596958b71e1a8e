-- ===== src/Base/Sums.antt =====
-- How often the elements of one list stand in another.
use Prim.Native.Nat.{ℕ, ◌+◌, ◌≤◌}
use mathlib.Core.Path.{◌≡◌, refl}
use mathlib.Core.List.{List, [], ◌∷◌}
use native.Mathlib.Omega.{arith}
use go_taskflow.Base.Tests.{◌==◌, if◌then◌else◌}
use go_taskflow.Base.Lists.{count, total, length}

-- How often the elements of `l` stand in `m`, all in all.
abbrev pub shared : List ℕ → List ℕ → ℕ
shared l m = total (λ a. count a m) l

shared-nil : (l : List ℕ) → shared l [] ≡ 0
shared-nil [] = refl
shared-nil (a ∷ l) = omega (arith, shared-nil l)

shared-cons : (l : List ℕ) (x : ℕ) (m : List ℕ) → shared l (x ∷ m) ≡ count x l + shared l m
shared-cons [] x m = refl
shared-cons (a ∷ l) x m = ground (arith, shared-cons l x m)

module _ (l : List ℕ) (once : (a : ℕ) → count a l ≤ 1) where
  -- A list without repetitions counts no more than there is.
  pub shared-le-length : (m : List ℕ) → shared l m ≤ length m
  shared-le-length [] = omega (arith, shared-nil l)
  shared-le-length (x ∷ m) = omega (arith, shared-cons l x m, shared-le-length m, once x)

  -- Where it counts all that there is, it has all the elements.
  pub count-shared : (m : List ℕ) → shared l m ≡ length m → (d : ℕ) → 1 ≤ count d m → 1 ≤ count d l
  count-shared [] e d n = absurd (omega arith)
  count-shared (x ∷ m) e d n = ground (
    arith,
    shared-cons l x m,
    shared-le-length m,
    once x,
    count-shared m (omega (arith, shared-cons l x m, shared-le-length m, once x)) d,
  )

-- A list that has all the elements counts all that there is.
pub shared-ge-length :
    (l m : List ℕ) → ((d : ℕ) → 1 ≤ count d m → 1 ≤ count d l) → length m ≤ shared l m
shared-ge-length l [] f = omega arith
shared-ge-length l (x ∷ m) f =
    let here : 1 ≤ count x l = f x (ground arith) in
    omega (arith, shared-cons l x m, shared-ge-length l m (λ d n. f d (ground arith)))

-- A list without the first one of a number.
abbrev remove : ℕ → List ℕ → List ℕ
remove x [] = []
remove x (y ∷ m) = if y == x then m else y ∷ remove x m

count-remove :
    (x : ℕ) (m : List ℕ) (a : ℕ)
    → 1 ≤ count x m
    → count a (remove x m) + (if x == a then 1 else 0) ≡ count a m
count-remove x [] a n = absurd (omega arith)
count-remove x (y ∷ m) a n = ground (arith, count-remove x m a)

length-remove : (x : ℕ) (m : List ℕ) → 1 ≤ count x m → length (remove x m) + 1 ≡ length m
length-remove x [] n = absurd (omega arith)
length-remove x (y ∷ m) n = ground (arith, length-remove x m)

-- Lists with the same numbers have the same length.
pub length-same_count : (l m : List ℕ) → ((a : ℕ) → count a l ≡ count a m) → length l ≡ length m
length-same_count [] [] same = refl
length-same_count [] (y ∷ m) same = absurd (ground (arith, same y))
length-same_count (x ∷ l) m same =
    let has : 1 ≤ count x m = ground (arith, same x) in
    omega (
      arith,
      length-remove x m has,
      length-same_count l (remove x m) (λ a. ground (arith, same a, count-remove x m a has)),
    )
