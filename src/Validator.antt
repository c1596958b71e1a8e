-- ===== src/Validator.antt =====
-- validator.go: a trace against the flow whose run it records. `skipped` is a map whose missing
-- keys read as false, a function. A loop over a map goes through its entries in an order that is a
-- parameter, and so is `strings.Split`.
pub mod Slices
pub mod Text
pub mod Skips
pub mod Rounds
pub mod Results
pub mod Verdict
pub mod Recorded
pub mod Valid
use Prim.Native.String
use text.Mathlib.Text.{◌==◌ as str_eq}
use go_taskflow.Base.{
  ℕ, zero, suc, ◌+◌, ◌-◌, String, List, [], ◌∷◌, ◌++◌, Bool, true, false, not, ◌&&◌, if◌then◌else◌,
  ◌==◌, length, Option, none, some, get, put, has, Ranges, select, map,
}
use go_taskflow.Memory.{Heap, is_condition}
use go_taskflow.Node
use go_taskflow.Graph.{walk}
use go_taskflow.Observer.{Event}

-- The first loop of `stringSliceEqual`: `count[s]++`. A map with no entry reads as 0.
unfoldable pub tally : (String → ℕ) → List String → String → ℕ
tally c [] = c
tally c (s ∷ ss) = tally (λ t. if str_eq s t then c t + 1 else c t) ss

-- The second loop: `count[s]--`, and false where the result is below 0. So a number in the map is
-- never below 0 when it is read.
unfoldable pub spend : (String → ℕ) → List String → Bool
spend c [] = true
spend c (s ∷ ss) =
    let rest = spend (λ t. if str_eq s t then c t - 1 else c t) ss in
    if c s == 0 then false else rest

-- `stringSliceEqual`
unfoldable pub string_slice_equal : List String → List String → Bool
unfolding tally spend
string_slice_equal a b = if length a == length b then spend (tally (λ _. 0) a) b else false

-- `dependencyError` and `validationResult`
pub record DependencyError : Type 0 where
  pub task : String
  pub expected : List String
  pub actual : List String

pub record ValidationResult : Type 0 where
  pub valid : Bool
  pub missing_tasks : List String
  pub unexpected_tasks : List String
  pub dependency_errors : List DependencyError
  pub skipped_branches : List String

abbrev pub passed : ValidationResult
passed = record {
  valid = true;
  missing_tasks = [];
  unexpected_tasks = [];
  dependency_errors = [];
  skipped_branches = [];
}

-- Step 1, the calls of `walk`, and step 2.
unfoldable pub expect : Heap → List ℕ → List (String × ℕ) → List (String × ℕ)
expect h [] m = m
expect h (n ∷ ns) m = expect h ns (put (h.node n).name n m)

unfoldable pub execute : List Event → List (String × Event) → List (String × Event)
execute [] m = m
execute (e ∷ es) m = execute es (put e.name e m)

abbrev pub mark : (String → Bool) → String → String → Bool
mark skipped name = λ k. if str_eq name k then true else skipped k

-- Step 3, the first loop. `ran` is the test whether `executed` has a key.
unfoldable pub skip_branches :
    Heap → (String → Bool) → List (String × ℕ) → (String → Bool) → String → Bool
skip_branches h ran [] skipped = skipped
skip_branches h ran ((name, n) ∷ l) skipped =
    skip_branches h ran l
      (if not (ran name) && Node.has_cond_predecessor h n then mark skipped name else skipped)

-- The innermost loop, up to its `break`.
unfoldable pub follows_skipped : Heap → (String → Bool) → List ℕ → Bool
follows_skipped h skipped [] = false
follows_skipped h skipped (d ∷ ds) =
    let rest = follows_skipped h skipped ds in
    if not (is_condition (h.node d).typ) && skipped (h.node d).name then true else rest

-- The loop over `expected` inside the loop on `changed`: what is skipped behind it, and `changed`.
unfoldable pub skip_round :
    Heap → (String → Bool) → List (String × ℕ) → (String → Bool) → Bool → (String → Bool) × Bool
unfolding follows_skipped
skip_round h ran [] skipped changed = (skipped, changed)
skip_round h ran ((name, n) ∷ l) skipped changed =
    let marks =
      not (if ran name then true else skipped name)
      && follows_skipped h skipped (h.node n).dependents in
    skip_round h ran l (if marks then mark skipped name else skipped)
      (if marks then true else changed)

module _ (nodes : Ranges ℕ) where
  -- The loop on `changed`, on fuel. Its round is the number of a loop over the map.
  unfoldable pub skip_loop :
      ℕ → Heap → (String → Bool) → List (String × ℕ) → ℕ → (String → Bool) → Option (String → Bool)
  unfolding skip_round
  skip_loop zero h ran expected i skipped = none
  skip_loop (suc fuel) h ran expected i skipped =
      let (skipped', changed) = skip_round h ran (nodes.range i expected) skipped false in
      elim changed [ true ↦ skip_loop fuel h ran expected (i + 1) skipped' | false ↦ some skipped' ]

-- The last loop of step 3.
unfoldable pub classify :
    (String → Bool) → (String → Bool) → List (String × ℕ) → ValidationResult → ValidationResult
classify ran skipped [] r = r
classify ran skipped ((name, n) ∷ l) r = classify ran skipped l (
    if ran name
    then r
    else if skipped name
    then record r { skipped_branches = r.skipped_branches ++ name ∷ [] }
    else record r { missing_tasks = r.missing_tasks ++ name ∷ []; valid = false })

-- Step 4.
unfoldable pub find_unexpected :
    List (String × ℕ) → List (String × Event) → ValidationResult → ValidationResult
find_unexpected expected [] r = r
find_unexpected expected ((name, e) ∷ l) r = find_unexpected expected l (
    if has name expected
    then r
    else record r { unexpected_tasks = r.unexpected_tasks ++ name ∷ []; valid = false })

-- `ev.Args["dependents"]`
abbrev pub raw_dependents : Event → String
raw_dependents e = elim (get "dependents" e.args) [ none ↦ "" | some s ↦ s ]

-- The two loops of step 5 over dependencies.
unfoldable pub expected_deps : Heap → (String → Bool) → ℕ → List String
expected_deps h ran n = select ran (map (λ d. (h.node d).name) (h.node n).dependents)

module _ (split : String → String → List String) where
  unfoldable pub actual_deps : (String → Bool) → Event → List String
  actual_deps ran e =
      if str_eq (raw_dependents e) "" then [] else select ran (split (raw_dependents e) ",")

  -- Step 5, one turn of the loop and the loop.
  unfoldable pub check_one :
      Heap
      → (String → Bool)
      → List (String × ℕ)
      → String
      → Event
      → ValidationResult
      → ValidationResult
  unfolding string_slice_equal expected_deps actual_deps
  check_one h ran expected name e r = elim (get name expected) [
    | none ↦ r
    | some n ↦
        let exp = expected_deps h ran n in
        let act = actual_deps ran e in
        if string_slice_equal exp act then r else record r {
          dependency_errors =
              r.dependency_errors ++ record { task = name; expected = exp; actual = act } ∷ [];
          valid = false;
        }
  ]

  unfoldable pub check_deps :
      Heap
      → (String → Bool)
      → List (String × ℕ)
      → List (String × Event)
      → ValidationResult
      → ValidationResult
  unfolding check_one
  check_deps h ran expected [] r = r
  check_deps h ran expected ((name, e) ∷ l) r =
      check_deps h ran expected l (check_one h ran expected name e r)

  module _ (nodes : Ranges ℕ) (events : Ranges Event) where
    -- Steps 3 to 5 on the two maps.
    unfoldable pub compare_maps :
        Heap → List (String × ℕ) → List (String × Event) → Option ValidationResult
    unfolding skip_branches skip_loop classify find_unexpected check_deps
    compare_maps h expected executed =
        let ran : String → Bool = λ name. has name executed in
        elim (skip_loop nodes (suc (length expected)) h ran expected 2
          (skip_branches h ran (nodes.range 0 expected) (λ _. false))) [
            | none ↦ none
            | some skipped ↦ some (
                check_deps h ran expected (events.range 1 executed) (
                  find_unexpected expected (events.range 0 executed)
                    (classify ran skipped (nodes.range 1 expected) passed)))
          ]

    -- `run`, which needs fuel for `walk`.
    unfoldable pub run : Heap → List Event → ℕ → Option ValidationResult
    unfolding expect execute compare_maps walk
    run h rec g = elim (walk h.fresh h g) [
      | none ↦ none
      | some l ↦ compare_maps h (expect h l []) (execute rec [])
    ]

    -- `validate`: no record is always valid.
    unfoldable pub validate : Heap → Option (List Event) → ℕ → Option ValidationResult
    unfolding run
    validate h none g = some passed
    validate h (some rec) g = run h rec g
