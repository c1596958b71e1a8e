-- ===== src/Base/Maps.antt =====
-- A Go map whose keys are strings, as a list of keys with values.
use text.Mathlib.Text.{◌==◌ as str_eq}
use text.Mathlib.TextEquality.{eq_iff}
use Prim.Native.Nat.{ℕ, ◌+◌}
use Prim.Native.String.{String}
use mathlib.Core.Path.{◌≡◌, refl, ap, sym, ◌∙◌, subst}
use text.Mathlib.TextPositions.{eq_refl}
use mathlib.Core.Logic.{◌⊎◌, inl, inr}
use mathlib.Core.Bool.{Bool, true, false, ◌&&◌}
use mathlib.Core.List.{List, [], ◌∷◌}
use mathlib.Core.Option.{Option, none, some}
use native.Mathlib.Omega.{arith}
use go_taskflow.Base.Tests.{if◌then◌else◌, Bool-cases}

-- `m[k]` with its test, and `m[k] = v`.
abbrev pub get {ℓ} : {A : Type ℓ} → String → List (String × A) → Option A
get k [] = none
get k ((j, v) ∷ m) = if str_eq j k then some v else get k m

abbrev pub put {ℓ} : {A : Type ℓ} → String → A → List (String × A) → List (String × A)
put k v [] = (k, v) ∷ []
put k v ((j, w) ∷ m) = let rest = put k v m in if str_eq j k then (k, v) ∷ m else (j, w) ∷ rest

abbrev pub has {ℓ} : {A : Type ℓ} → String → List (String × A) → Bool
has k m = elim (get k m) [ none ↦ false | some v ↦ true ]

-- How many elements pass a test.
abbrev pub number {ℓ} : {A : Type ℓ} → (A → Bool) → List A → ℕ
number p [] = 0
number p (x ∷ l) = (if p x then 1 else 0) + number p l

abbrev pub named {ℓ} : {A : Type ℓ} → String → String × A → Bool
named k (j, v) = str_eq j k

-- No key stands in the list twice.
abbrev pub HasKeys {ℓ} : {A : Type ℓ} → List (String × A) → Type 0
HasKeys [] = Unit
HasKeys ((k, v) ∷ m) = (number (named k) m ≡ 0) × HasKeys m

-- 1 where a key has an entry that passes a test, 0 elsewhere.
abbrev pub once {ℓ} : {A : Type ℓ} → (String × A → Bool) → String → List (String × A) → ℕ
once p k m = elim (get k m) [ none ↦ 0 | some v ↦ if p (k, v) then 1 else 0 ]

-- A loop over a map: each turn is one of its entries, and each entry has one turn. The order is
-- not specified, and each loop may have another one, so that loops are numbered.
pub record Ranges {ℓ} (A : Type ℓ) : Type ℓ where
  pub range : ℕ → List (String × A) → List (String × A)
  pub number-range :
      (i : ℕ) (m : List (String × A)) (p : String × A → Bool) → number p (range i m) ≡ number p m

-- Loops in the order in which the keys were added.
abbrev pub in_order {ℓ} : (A : Type ℓ) → Ranges A
in_order A = record { range = λ i m. m; number-range = λ i m p. refl }

pub str_eq-cases : (s t : String) → (s ≡ t) ⊎ (str_eq s t ≡ false)
str_eq-cases s t = elim (Bool-cases (str_eq s t)) [ inl e ↦ inl ((eq_iff s t).0 e) | inr e ↦ inr e ]

-- The test answers alike from both sides.
pub str_eq-sym : (s t : String) → str_eq s t ≡ str_eq t s
str_eq-sym s t = elim (str_eq-cases s t) [
  | inl e ↦ ap (λ x. str_eq x t) e ∙ ap (λ x. str_eq t x) (sym e)
  | inr e ↦ elim (str_eq-cases t s) [
    | inl f ↦ ap (λ x. str_eq s x) f ∙ ap (λ x. str_eq x s) (sym f)
    | inr f ↦ e ∙ sym f
  ]
]

module _ {ℓ} {A : Type ℓ} where
  number-and : (p q : A → Bool) (l : List A) → number p l ≡ 0 → number (λ e. p e && q e) l ≡ 0
  number-and p q [] e = refl
  number-and p q (x ∷ l) e = ground (arith, number-and p q l (omega arith))

module _ {ℓ} {A : Type ℓ} where
  pub number-put :
      (k j : String) (v : A) (m : List (String × A))
      → str_eq j k ≡ false
      → number (named k) (put j v m) ≡ number (named k) m
  number-put k j v [] e = ground arith
  number-put k j v ((i, w) ∷ m) e = elim (str_eq-cases i j) [
    | inl same ↦
        let at : str_eq i k ≡ str_eq j k = ap (λ x. str_eq x k) same in
        ground (arith, at, eq_refl i)
    | inr other ↦ ground (arith, number-put k j v m e)
  ]

  pub put-HasKeys : (j : String) (v : A) (m : List (String × A)) → HasKeys m → HasKeys (put j v m)
  put-HasKeys j v [] h = (refl, tt)
  put-HasKeys j v ((i, w) ∷ m) h = elim (str_eq-cases i j) [
    | inl same ↦
        let at : number (named j) m ≡ 0 = subst (λ x. number (named x) m ≡ 0) same h.0 in
        rw (ap (λ x. str_eq x j) same ∙ eq_refl j) (at, h.1)
    | inr other ↦
        rw other (number-put i j v m (str_eq-sym j i ∙ other) ∙ h.0, put-HasKeys j v m h.1)
  ]

  -- A key with an entry has one.
  pub number-named :
      (k : String) (m : List (String × A))
      → HasKeys m
      → number (named k) m ≡ (if has k m then 1 else 0)
  number-named k [] h = refl
  number-named k ((j, v) ∷ m) h = elim (str_eq-cases j k) [
    | inl same ↦
        let none_left : number (named k) m ≡ 0 = subst (λ x. number (named x) m ≡ 0) same h.0 in
        ground (arith, ap (λ x. str_eq x k) same, eq_refl k)
    | inr other ↦ ground (arith, number-named k m h.1)
  ]

  -- The entries of a key that pass a test are one or none.
  pub number-once :
      (p : String × A → Bool) (k : String) (m : List (String × A))
      → HasKeys m
      → number (λ e. named k e && p e) m ≡ once p k m
  number-once p k [] h = refl
  number-once p k ((j, v) ∷ m) h = elim (str_eq-cases j k) [
    | inl same ↦
        let only : number (named k) m ≡ 0 = subst (λ x. number (named x) m ≡ 0) same h.0 in
        let test : p (j, v) ≡ p (k, v) = ap (λ x. p (x, v)) same in
        let rest : number (λ e. named k e && p e) m ≡ 0 = number-and (named k) p m only in
        ground (arith, ap (λ x. str_eq x k) same, eq_refl k)
    | inr other ↦ ground (arith, number-once p k m h.1)
  ]

  pub once-range :
      (r : Ranges A) (i : ℕ) (p : String × A → Bool) (k : String) (m : List (String × A))
      → HasKeys m
      → number (λ e. named k e && p e) (r.range i m) ≡ once p k m
  once-range r i p k m h = r.number-range i m (λ e. named k e && p e) ∙ number-once p k m h

  pub has-put :
      (k j : String) (v : A) (m : List (String × A))
      → has k (put j v m) ≡ (if str_eq j k then true else has k m)
  has-put k j v [] = ground arith
  has-put k j v ((i, w) ∷ m) = elim (str_eq-cases i j) [
    | inl same ↦ ground (arith, ap (λ x. str_eq x k) same, ap (λ x. str_eq x j) same, eq_refl j)
    | inr other ↦ ground (arith, has-put k j v m, other)
  ]
