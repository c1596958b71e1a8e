-- ===== src/Sort.antt =====
-- `slices.SortFunc` of the standard library, by a number that each element carries. It keeps the
-- elements and orders them; the order of equal elements is not specified.
use go_taskflow.Base.{ℕ, ◌≤◌, ◌≡◌, refl, List, [], ◌∷◌, count, if◌then◌else◌, leb, arith}

-- Every element is at most the next one.
abbrev pub IsAscending : (ℕ → ℕ) → List ℕ → Type 0
IsAscending key [] = Unit
IsAscending key (x ∷ []) = Unit
IsAscending key (x ∷ y ∷ l) = (key x ≤ key y) × IsAscending key (y ∷ l)

pub IsAscending-same_key :
    (f k : ℕ → ℕ) (l : List ℕ) → ((a : ℕ) → f a ≡ k a) → IsAscending f l → IsAscending k l
IsAscending-same_key f k [] same up = tt
IsAscending-same_key f k (x ∷ []) same up = tt
IsAscending-same_key f k (x ∷ y ∷ l) same up =
    (omega (arith, up.0, same x, same y), IsAscending-same_key f k (y ∷ l) same up.1)

pub record Sort : Type 0 where
  pub sort : (ℕ → ℕ) → List ℕ → List ℕ
  pub count-sort : (key : ℕ → ℕ) (l : List ℕ) (a : ℕ) → count a (sort key l) ≡ count a l
  pub sort-IsAscending : (key : ℕ → ℕ) (l : List ℕ) → IsAscending key (sort key l)

-- Insertion sort is one such function.
unfoldable pub insert : (ℕ → ℕ) → ℕ → List ℕ → List ℕ
insert key a [] = a ∷ []
insert key a (x ∷ l) = if leb (key a) (key x) then a ∷ x ∷ l else x ∷ insert key a l

unfoldable pub insertion_sort : (ℕ → ℕ) → List ℕ → List ℕ
unfolding insert
insertion_sort key [] = []
insertion_sort key (x ∷ l) = insert key x (insertion_sort key l)

count-insert :
    (key : ℕ → ℕ) (x : ℕ) (l : List ℕ) (a : ℕ) → count a (insert key x l) ≡ count a (x ∷ l)
unfolding insert
count-insert key x [] a = refl
count-insert key x (y ∷ l) a = ground (arith, count-insert key x l a)

pub count-insertion_sort :
    (key : ℕ → ℕ) (l : List ℕ) (a : ℕ) → count a (insertion_sort key l) ≡ count a l
unfolding insertion_sort
count-insertion_sort key [] a = refl
count-insertion_sort key (x ∷ l) a =
    ground (arith, count-insert key x (insertion_sort key l) a, count-insertion_sort key l a)

insert-IsAscending :
    (key : ℕ → ℕ) (x : ℕ) (l : List ℕ) → IsAscending key l → IsAscending key (insert key x l)
unfolding insert
insert-IsAscending key x [] h = tt
insert-IsAscending key x (y ∷ []) h = ground arith
insert-IsAscending key x (y ∷ z ∷ l) h = ground (arith, insert-IsAscending key x (z ∷ l))

pub insertion_sort-IsAscending : (key : ℕ → ℕ) (l : List ℕ) → IsAscending key (insertion_sort key l)
unfolding insertion_sort
insertion_sort-IsAscending key [] = tt
insertion_sort-IsAscending key (x ∷ l) =
    insert-IsAscending key x (insertion_sort key l) (insertion_sort-IsAscending key l)

abbrev pub by_insertion : Sort
by_insertion = record {
  sort = insertion_sort;
  count-sort = count-insertion_sort;
  sort-IsAscending = insertion_sort-IsAscending;
}
