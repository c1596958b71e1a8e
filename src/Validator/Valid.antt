-- ===== src/Validator/Valid.antt =====
-- When `run` in validator.go finds a trace valid.
use text.Mathlib.TextPositions.{eq_refl}
use go_taskflow.Base.{
  ℕ, ◌≡◌, refl, sym, ◌∙◌, String, List, [], ◌∷◌, true, false, Bool, Bool-cases, inl, inr, arith,
  ◌↔◌, number, get, has, once, if◌then◌else◌, some,
}
use go_taskflow.Memory.{Heap}
use go_taskflow.Observer.{Event}
use go_taskflow.Validator.{DependencyError, ValidationResult, expected_deps, actual_deps}
use go_taskflow.Validator.Slices.{occurrences, string_slice_equal_iff}
use go_taskflow.Validator.Skips.{IsSkipped}
use go_taskflow.Validator.Results.{
  is_nil, of_task, is_missing, is_unexpected, differs, Option-cases,
}
use go_taskflow.Validator.Verdict.{IsVerdict, ran}

nil_names : (l : List String) → ((k : String) → occurrences k l ≡ 0) → is_nil l ≡ true
nil_names [] z = refl
nil_names (s ∷ l) z = absurd (ground (arith, z s, eq_refl s))

names_nil : (l : List String) (k : String) → is_nil l ≡ true → occurrences k l ≡ 0
names_nil [] k e = refl
names_nil (s ∷ l) k e = absurd (ground arith)

nil_errors :
    (l : List DependencyError) → ((k : String) → number (of_task k) l ≡ 0) → is_nil l ≡ true
nil_errors [] z = refl
nil_errors (d ∷ l) z = absurd (ground (arith, z d.task, eq_refl d.task))

errors_nil : (l : List DependencyError) (k : String) → is_nil l ≡ true → number (of_task k) l ≡ 0
errors_nil [] k e = refl
errors_nil (d ∷ l) k e = absurd (ground arith)

-- No entry of a key passes a test, and the other way round.
once-zero {ℓ} :
    {A : Type ℓ} (p : String × A → Bool) (k : String) (m : List (String × A)) (v : A)
    → once p k m ≡ 0
    → get k m ≡ some v
    → p (k, v) ≡ false
once-zero p k m v z e = unless (p (k, v)) (rw (e, once) at z)
  where
    unless : (b : Bool) → ◌≡◌ {A = ℕ} (if b then 1 else 0) 0 → b ≡ false
    unless b z' = ground arith

zero-once {ℓ} :
    {A : Type ℓ} (p : String × A → Bool) (k : String) (m : List (String × A))
    → ((v : A) → get k m ≡ some v → p (k, v) ≡ false)
    → once p k m ≡ 0
zero-once p k m none_passes = elim (Option-cases (get k m)) [
  | inl f ↦ rw (f, once) refl
  | inr (v, f) ↦ rw (f, once) (ground (arith, none_passes v f))
]

module _ (split : String → String → List String) (h : Heap) (expected : List (String × ℕ))
    (executed : List (String × Event)) where
  -- Every task that did not run is skipped, what ran is a task, and the dependents that a task and
  -- its event have among the tasks that ran are the same, each as often.
  abbrev pub IsFaithful : Type 0
  IsFaithful =
      ((k : String) (n : ℕ)
        → get k expected ≡ some n
        → has k executed ≡ false
        → IsSkipped h (ran split h expected executed) expected k)
      × ((k : String) (e : Event) → get k executed ≡ some e → has k expected ≡ true)
      × ((k : String) (n : ℕ) (e : Event)
          → get k expected ≡ some n
          → get k executed ≡ some e
          → (t : String)
          → occurrences t (expected_deps h (ran split h expected executed) n)
            ≡ occurrences t (actual_deps split (ran split h expected executed) e))

  -- A result with the lists that `run` gives is valid exactly when every task that did not run is
  -- skipped, what ran is a task, and each task that ran has in the flow and in its event the same
  -- dependents among those that ran, each as often.
  pub valid_iff :
      (r : ValidationResult) → IsVerdict split h expected executed r → (r.valid ≡ true) ↔ IsFaithful
  valid_iff r v =
      let honest = v.honest in
      (
        λ e. (
          λ k n here out.
              let empty : occurrences k r.missing_tasks ≡ 0 =
                names_nil r.missing_tasks k (ground arith) in
              let test =
                once-zero (is_missing (ran split h expected executed) v.skipped) k expected n
                  (sym (v.missing k) ∙ empty) here in
              (v.skipped_iff k).0 (ground arith),
          λ k x here.
              let empty : occurrences k r.unexpected_tasks ≡ 0 =
                names_nil r.unexpected_tasks k (ground arith) in
              let test =
                once-zero (is_unexpected expected) k executed x (sym (v.unexpected k) ∙ empty)
                  here in
              ground arith,
          λ k n x here there.
              let empty : number (of_task k) r.dependency_errors ≡ 0 =
                errors_nil r.dependency_errors k (ground arith) in
              let test =
                once-zero (differs split h (ran split h expected executed) expected) k executed x
                  (sym (v.errors k) ∙ empty) there in
              (string_slice_equal_iff _ _).0 (ground arith),
        ),
        λ faithful.
            let (skipped_all, defined, same) = faithful in
            let missing = nil_names r.missing_tasks (λ k.
              v.missing k
              ∙ zero-once (is_missing (ran split h expected executed) v.skipped) k expected
                  (λ n here. elim (Bool-cases (has k executed)) [
                    | inl in_it ↦ ground arith
                    | inr out ↦ ground (arith, (v.skipped_iff k).1 (skipped_all k n here out))
                  ])) in
            let unexpected = nil_names r.unexpected_tasks (λ k.
              v.unexpected k
              ∙ zero-once (is_unexpected expected) k executed
                  (λ x here. ground (arith, defined k x here))) in
            let errors = nil_errors r.dependency_errors (λ k.
              v.errors k
              ∙ zero-once (differs split h (ran split h expected executed) expected) k executed
                  (λ x there. elim (Option-cases (get k expected)) [
                    | inl f ↦ rw (f, differs) refl
                    | inr (n, f) ↦
                        rw (f, differs)
                          (ground (arith, (string_slice_equal_iff _ _).1 (same k n x f there)))
                  ])) in
            ground arith,
      )
