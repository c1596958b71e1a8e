-- ===== src/Validator/Slices.antt =====
-- `stringSliceEqual` of validator.go against the numbers of occurrences.
use text.Mathlib.Text.{◌==◌ as str_eq}
use text.Mathlib.TextEquality.{eq_iff}
use text.Mathlib.TextPositions.{eq_refl}
use go_taskflow.Base.{
  ℕ, ◌+◌, ◌-◌, ◌<◌, ◌≤◌, ◌≡◌, ◌↔◌, refl, ap, String, List, [], ◌∷◌, true, Bool-cases, inl, inr,
  if◌then◌else◌, length, arith,
}
use go_taskflow.Validator.{tally, spend, string_slice_equal}

-- How often a string stands in a list.
abbrev pub occurrences : String → List String → ℕ
occurrences t [] = 0
occurrences t (s ∷ ss) = (if str_eq s t then 1 else 0) + occurrences t ss

tally-eq : (c : String → ℕ) (a : List String) (t : String) → tally c a t ≡ c t + occurrences t a
unfolding tally
tally-eq c [] t = omega arith
tally-eq c (s ∷ ss) t = ground (arith, tally-eq (λ u. if str_eq s u then c u + 1 else c u) ss t)

spend-covers :
    (c : String → ℕ) (b : List String) → spend c b ≡ true → (t : String) → occurrences t b ≤ c t
unfolding spend
spend-covers c [] e t = omega arith
spend-covers c (s ∷ ss) e t =
    let kept = spend-covers (λ u. if str_eq s u then c u - 1 else c u) ss (ground arith) t in
    elim (Bool-cases (str_eq s t)) [
      | inl same ↦ let at : c s ≡ c t = ap c ((eq_iff s t).0 same) in ground arith
      | inr other ↦ ground arith
    ]

covers-spend :
    (c : String → ℕ) (b : List String) → ((t : String) → occurrences t b ≤ c t) → spend c b ≡ true
unfolding spend
covers-spend c [] h = refl
covers-spend c (s ∷ ss) h = ground (
  arith,
  h s,
  eq_refl s,
  covers-spend (λ u. if str_eq s u then c u - 1 else c u) ss (λ t. ground (arith, h t)),
)

-- A list without the first place where a string stands.
abbrev without : String → List String → List String
without s [] = []
without s (t ∷ ts) = let rest = without s ts in if str_eq t s then ts else t ∷ rest

length-without :
    (s : String) (a : List String) → 0 < occurrences s a → length (without s a) + 1 ≡ length a
length-without s [] e = absurd (omega arith)
length-without s (t ∷ ts) e = elim (Bool-cases (str_eq t s)) [
  | inl same ↦ ground arith
  | inr other ↦ ground (arith, length-without s ts (ground arith))
]

occurrences-without :
    (s : String) (a : List String) (u : String)
    → 0 < occurrences s a
    → occurrences u (without s a) + (if str_eq s u then 1 else 0) ≡ occurrences u a
occurrences-without s [] u e = absurd (omega arith)
occurrences-without s (t ∷ ts) u e = elim (Bool-cases (str_eq t s)) [
  | inl same ↦
      let at : str_eq t u ≡ str_eq s u = ap (λ x. str_eq x u) ((eq_iff t s).0 same) in ground arith
  | inr other ↦ ground (arith, occurrences-without s ts u (ground arith))
]

-- Lists of one length, of which one has at least what the other has, have the same.
same_occurrences :
    (b a : List String)
    → length a ≡ length b
    → ((t : String) → occurrences t b ≤ occurrences t a)
    → (t : String) → occurrences t a ≡ occurrences t b
same_occurrences [] [] e h t = refl
same_occurrences [] (s ∷ ss) e h t = absurd (omega arith)
same_occurrences (s ∷ ss) a e h t =
    let some_left : 0 < occurrences s a = ground (arith, h s, eq_refl s) in
    let rest =
      same_occurrences ss (without s a) (omega (arith, length-without s a some_left))
        (λ u. ground (arith, h u, occurrences-without s a u some_left)) t in
    ground (arith, rest, occurrences-without s a t some_left)

same_length :
    (b a : List String) → ((t : String) → occurrences t a ≡ occurrences t b) → length a ≡ length b
same_length [] [] h = refl
same_length [] (s ∷ ss) h = absurd (ground (arith, h s, eq_refl s))
same_length (s ∷ ss) a h =
    let some_left : 0 < occurrences s a = ground (arith, h s, eq_refl s) in
    let rest =
      same_length ss (without s a)
        (λ u. ground (arith, h u, occurrences-without s a u some_left)) in
    omega (arith, rest, length-without s a some_left)

-- `stringSliceEqual` holds of two lists exactly when every string stands in both equally often.
pub string_slice_equal_iff :
    (a b : List String)
    → (string_slice_equal a b ≡ true) ↔ ((t : String) → occurrences t a ≡ occurrences t b)
unfolding string_slice_equal
string_slice_equal_iff a b = (
  λ e. same_occurrences b a (ground arith) (λ t.
      let covered = spend-covers (tally (λ _. 0) a) b (ground arith) t in
      omega (arith, tally-eq (λ _. 0) a t)),
  λ h. ground (
    arith,
    same_length b a h,
    covers-spend (tally (λ _. 0) a) b (λ t. omega (arith, h t, tally-eq (λ _. 0) a t)),
  ),
)
