-- ===== src/Validator/Results.antt =====
-- What the loops of `run` in validator.go append to the lists of a result.
use text.Mathlib.Text.{◌==◌ as str_eq}
use go_taskflow.Base.{
  ℕ, ◌+◌, ◌≡◌, refl, ◌∙◌, String, List, [], ◌∷◌, ◌++◌, true, false, Bool, Bool-cases, ◌⊎◌, inl, inr,
  if◌then◌else◌, arith, not, ◌&&◌, number, named, get, has, Option, none, some,
}
use go_taskflow.Memory.{Heap}
use go_taskflow.Observer.{Event}
use go_taskflow.Validator.{
  DependencyError, ValidationResult, classify, find_unexpected, check_one, check_deps,
  string_slice_equal, expected_deps, actual_deps,
}
use go_taskflow.Validator.Slices.{occurrences}

pub Option-cases {ℓ} : {A : Type ℓ} (o : Option A) → (o ≡ none) ⊎ ((a : A) × (o ≡ some a))
Option-cases none = inl refl
Option-cases (some a) = inr (a, refl)

occurrences-append :
    (k : String) (a b : List String) → occurrences k (a ++ b) ≡ occurrences k a + occurrences k b
occurrences-append k [] b = omega arith
occurrences-append k (s ∷ a) b = ground (arith, occurrences-append k a b)

number-append {ℓ} :
    {A : Type ℓ} (p : A → Bool) (a b : List A) → number p (a ++ b) ≡ number p a + number p b
number-append p [] b = omega arith
number-append p (s ∷ a) b = ground (arith, number-append p a b)

abbrev pub is_nil {ℓ} : {A : Type ℓ} → List A → Bool
is_nil [] = true
is_nil (x ∷ l) = false

is_nil-snoc {ℓ} : {A : Type ℓ} (a : List A) (x : A) → is_nil (a ++ x ∷ []) ≡ false
is_nil-snoc [] x = refl
is_nil-snoc (y ∷ a) x = refl

-- The flag says whether the three lists of failures are empty.
abbrev pub IsHonest : ValidationResult → Type 0
IsHonest r =
    r.valid ≡ (is_nil r.missing_tasks && is_nil r.unexpected_tasks && is_nil r.dependency_errors)

abbrev pub of_task : String → DependencyError → Bool
of_task k d = str_eq d.task k

abbrev pub is_missing : (String → Bool) → (String → Bool) → String × ℕ → Bool
is_missing ran skipped (name, n) = not (ran name) && not (skipped name)

abbrev pub is_skipped : (String → Bool) → (String → Bool) → String × ℕ → Bool
is_skipped ran skipped (name, n) = not (ran name) && skipped name

abbrev pub is_unexpected : List (String × ℕ) → String × Event → Bool
is_unexpected expected (name, e) = not (has name expected)

-- The dependencies of an event are not those of its node.
abbrev pub differs :
    (String → String → List String)
    → Heap
    → (String → Bool)
    → List (String × ℕ)
    → String × Event
    → Bool
differs split h ran expected (name, e) = elim (get name expected) [
  | none ↦ false
  | some n ↦ not (string_slice_equal (expected_deps h ran n) (actual_deps split ran e))
]

module _ (k : String) where
  module _ (ran skipped : String → Bool) where
    -- The loop appends what is missing and what is skipped, and leaves the other lists alone.
    pub classify-lists :
        (l : List (String × ℕ)) (r : ValidationResult)
        → let s = classify ran skipped l r in
          (occurrences k s.missing_tasks
            ≡ occurrences k r.missing_tasks + number (λ e. named k e && is_missing ran skipped e) l)
          × (occurrences k s.skipped_branches
              ≡ occurrences k r.skipped_branches
                + number (λ e. named k e && is_skipped ran skipped e) l)
          × (s.unexpected_tasks ≡ r.unexpected_tasks)
          × (s.dependency_errors ≡ r.dependency_errors)
    unfolding classify
    classify-lists [] r = (omega arith, omega arith, refl, refl)
    classify-lists ((name, n) ∷ l) r = elim (Bool-cases (ran name)) [
      | inl e ↦
          let rest = classify-lists l r in
          rw (e, classify) (ground arith, ground arith, rest.2, rest.3)
      | inr e ↦ elim (Bool-cases (skipped name)) [
        | inl f ↦
            let rest =
              classify-lists l (record r { skipped_branches = r.skipped_branches ++ name ∷ [] }) in
            let added = occurrences-append k r.skipped_branches (name ∷ []) in
            rw (e, f, classify) (ground arith, ground arith, rest.2, rest.3)
        | inr f ↦
            let rest =
              classify-lists l
                (record r { missing_tasks = r.missing_tasks ++ name ∷ []; valid = false }) in
            let added = occurrences-append k r.missing_tasks (name ∷ []) in
            rw (e, f, classify) (ground arith, ground arith, rest.2, rest.3)
      ]
    ]

  module _ (expected : List (String × ℕ)) where
    pub find_unexpected-lists :
        (l : List (String × Event)) (r : ValidationResult)
        → let s = find_unexpected expected l r in
          (occurrences k s.unexpected_tasks
            ≡ occurrences k r.unexpected_tasks
              + number (λ e. named k e && is_unexpected expected e) l)
          × (s.missing_tasks ≡ r.missing_tasks)
          × (s.skipped_branches ≡ r.skipped_branches)
          × (s.dependency_errors ≡ r.dependency_errors)
    unfolding find_unexpected
    find_unexpected-lists [] r = (omega arith, refl, refl, refl)
    find_unexpected-lists ((name, e) ∷ l) r = elim (Bool-cases (has name expected)) [
      | inl f ↦
          let rest = find_unexpected-lists l r in
          rw (f, find_unexpected) (ground arith, rest.1, rest.2, rest.3)
      | inr f ↦
          let rest =
            find_unexpected-lists l
              (record r { unexpected_tasks = r.unexpected_tasks ++ name ∷ []; valid = false }) in
          let added = occurrences-append k r.unexpected_tasks (name ∷ []) in
          rw (f, find_unexpected) (ground arith, rest.1, rest.2, rest.3)
    ]

    module _ (split : String → String → List String) (h : Heap) (ran : String → Bool) where
      check_one-lists :
          (name : String) (e : Event) (r : ValidationResult)
          → let s = check_one split h ran expected name e r in
            (number (of_task k) s.dependency_errors
              ≡ number (of_task k) r.dependency_errors
                + (if str_eq name k && differs split h ran expected (name, e) then 1 else 0))
            × (s.missing_tasks ≡ r.missing_tasks)
            × (s.skipped_branches ≡ r.skipped_branches)
            × (s.unexpected_tasks ≡ r.unexpected_tasks)
      unfolding check_one
      check_one-lists name e r = elim (Option-cases (get name expected)) [
        | inl f ↦ rw (f, check_one) (ground arith, refl, refl, refl)
        | inr (n, f) ↦
            elim (Bool-cases
              (string_slice_equal (expected_deps h ran n) (actual_deps split ran e))) [
                | inl same ↦ rw (f, same, check_one) (ground arith, refl, refl, refl)
                | inr other ↦
                    let added = number-append (of_task k) r.dependency_errors (
                      record {
                        task = name;
                        expected = expected_deps h ran n;
                        actual = actual_deps split ran e;
                      }
                      ∷ []) in
                    rw (f, other, check_one) (ground arith, refl, refl, refl)
              ]
      ]

      pub check_deps-lists :
          (l : List (String × Event)) (r : ValidationResult)
          → let s = check_deps split h ran expected l r in
            (number (of_task k) s.dependency_errors
              ≡ number (of_task k) r.dependency_errors
                + number (λ e. named k e && differs split h ran expected e) l)
            × (s.missing_tasks ≡ r.missing_tasks)
            × (s.skipped_branches ≡ r.skipped_branches)
            × (s.unexpected_tasks ≡ r.unexpected_tasks)
      unfolding check_deps
      check_deps-lists [] r = (omega arith, refl, refl, refl)
      check_deps-lists ((name, e) ∷ l) r =
          let (errors, a, b, c) = check_one-lists name e r in
          let (errors', a', b', c') =
            check_deps-lists l (check_one split h ran expected name e r) in
          (omega arith, a' ∙ a, b' ∙ b, c' ∙ c)

-- The flag says whether the lists of failures are empty, before a loop and behind it.
pub classify-IsHonest :
    (ran skipped : String → Bool) (l : List (String × ℕ)) (r : ValidationResult)
    → IsHonest r
    → IsHonest (classify ran skipped l r)
unfolding classify
classify-IsHonest ran skipped [] r a = a
classify-IsHonest ran skipped ((name, n) ∷ l) r a =
    classify-IsHonest ran skipped l _ (ground (arith, is_nil-snoc r.missing_tasks name))

pub find_unexpected-IsHonest :
    (expected : List (String × ℕ)) (l : List (String × Event)) (r : ValidationResult)
    → IsHonest r
    → IsHonest (find_unexpected expected l r)
unfolding find_unexpected
find_unexpected-IsHonest expected [] r a = a
find_unexpected-IsHonest expected ((name, e) ∷ l) r a =
    find_unexpected-IsHonest expected l _ (ground (arith, is_nil-snoc r.unexpected_tasks name))

module _ (split : String → String → List String) (h : Heap) (ran : String → Bool)
    (expected : List (String × ℕ)) where
  check_one-IsHonest :
      (name : String) (e : Event) (r : ValidationResult)
      → IsHonest r
      → IsHonest (check_one split h ran expected name e r)
  unfolding check_one
  check_one-IsHonest name e r a = elim (Option-cases (get name expected)) [
    | inl f ↦ rw (f, check_one) a
    | inr (n, f) ↦
        elim (Bool-cases (string_slice_equal (expected_deps h ran n) (actual_deps split ran e))) [
          | inl same ↦ rw (f, same, check_one) a
          | inr other ↦
              rw (f, other, check_one)
                (ground (
                  arith,
                  is_nil-snoc r.dependency_errors (record {
                    task = name;
                    expected = expected_deps h ran n;
                    actual = actual_deps split ran e;
                  }),
                ))
        ]
  ]

  pub check_deps-IsHonest :
      (l : List (String × Event)) (r : ValidationResult)
      → IsHonest r
      → IsHonest (check_deps split h ran expected l r)
  unfolding check_deps
  check_deps-IsHonest [] r a = a
  check_deps-IsHonest ((name, e) ∷ l) r a = check_deps-IsHonest l _ (check_one-IsHonest name e r a)
