-- ===== src/Validator/Verdict.antt =====
-- The result of `run` in validator.go.
use go_taskflow.Base.{
  ℕ, ◌<◌, ◌≡◌, refl, ap, ◌∙◌, String, List, [], ◌∷◌, true, Bool, arith, ◌↔◌, number, has, once,
  HasKeys, put-HasKeys, once-range, Ranges, some,
}
use go_taskflow.Memory.{Heap}
use go_taskflow.Graph.{walk}
use go_taskflow.Flow.Nesting.{IsNested}
use go_taskflow.Flow.Walk.{walk_total}
use go_taskflow.Observer.{Event}
use go_taskflow.Validator.{
  ValidationResult, passed, expect, execute, classify, find_unexpected, check_deps, compare_maps,
  run,
}
use go_taskflow.Validator.Slices.{occurrences}
use go_taskflow.Validator.Skips.{IsSkipped}
use go_taskflow.Validator.Rounds.{skips_found}
use go_taskflow.Validator.Results.{
  of_task, IsHonest, is_missing, is_skipped, is_unexpected, differs, classify-lists,
  find_unexpected-lists, check_deps-lists, classify-IsHonest, find_unexpected-IsHonest,
  check_deps-IsHonest,
}

expect-HasKeys :
    (h : Heap) (l : List ℕ) (m : List (String × ℕ)) → HasKeys m → HasKeys (expect h l m)
unfolding expect
expect-HasKeys h [] m a = a
expect-HasKeys h (n ∷ l) m a = expect-HasKeys h l _ (put-HasKeys (h.node n).name n m a)

execute-HasKeys : (es : List Event) (m : List (String × Event)) → HasKeys m → HasKeys (execute es m)
unfolding execute
execute-HasKeys [] m a = a
execute-HasKeys (e ∷ es) m a = execute-HasKeys es _ (put-HasKeys e.name e m a)

module _ (split : String → String → List String) (h : Heap) (expected : List (String × ℕ))
    (executed : List (String × Event)) where
  abbrev pub ran : String → Bool
  ran = λ name. has name executed

  -- A result by what its lists hold: how often each name is in each list, where 1 stands for a name
  -- that is a key of the map and passes the test.
  pub record IsVerdict (r : ValidationResult) : Type 0 where
    pub skipped : String → Bool
    pub skipped_iff : (k : String) → (skipped k ≡ true) ↔ IsSkipped h ran expected k
    pub missing :
        (k : String) → occurrences k r.missing_tasks ≡ once (is_missing ran skipped) k expected
    pub branches :
        (k : String) → occurrences k r.skipped_branches ≡ once (is_skipped ran skipped) k expected
    pub unexpected :
        (k : String) → occurrences k r.unexpected_tasks ≡ once (is_unexpected expected) k executed
    pub errors :
        (k : String)
        → number (of_task k) r.dependency_errors ≡ once (differs split h ran expected) k executed
    pub honest : IsHonest r

  module _ (nodes : Ranges ℕ) (events : Ranges Event) where
    pub compare_maps-IsVerdict :
        HasKeys expected
        → HasKeys executed
        → (r : ValidationResult) × (compare_maps split nodes events h expected executed ≡ some r)
          × IsVerdict r
    unfolding compare_maps
    compare_maps-IsVerdict a b =
        let (skipped, runs, found) = skips_found h ran expected nodes in
        let r1 = classify ran skipped (nodes.range 1 expected) passed in
        let r2 = find_unexpected expected (events.range 0 executed) r1 in
        let r3 = check_deps split h ran expected (events.range 1 executed) r2 in
        (
          r3,
          rw (runs, compare_maps) refl,
          record {
            skipped = skipped;
            skipped_iff = found;
            missing = λ k.
                let (e3, m3, s3, u3) =
                  check_deps-lists k expected split h ran (events.range 1 executed) r2 in
                let (u2, m2, s2, e2) =
                  find_unexpected-lists k expected (events.range 0 executed) r1 in
                let (m1, s1, u1, e1) =
                  classify-lists k ran skipped (nodes.range 1 expected) passed in
                let all = once-range nodes 1 (is_missing ran skipped) k expected a in
                ap (occurrences k) (m3 ∙ m2) ∙ omega arith;
            branches = λ k.
                let (e3, m3, s3, u3) =
                  check_deps-lists k expected split h ran (events.range 1 executed) r2 in
                let (u2, m2, s2, e2) =
                  find_unexpected-lists k expected (events.range 0 executed) r1 in
                let (m1, s1, u1, e1) =
                  classify-lists k ran skipped (nodes.range 1 expected) passed in
                let all = once-range nodes 1 (is_skipped ran skipped) k expected a in
                ap (occurrences k) (s3 ∙ s2) ∙ omega arith;
            unexpected = λ k.
                let (e3, m3, s3, u3) =
                  check_deps-lists k expected split h ran (events.range 1 executed) r2 in
                let (u2, m2, s2, e2) =
                  find_unexpected-lists k expected (events.range 0 executed) r1 in
                let (m1, s1, u1, e1) =
                  classify-lists k ran skipped (nodes.range 1 expected) passed in
                let all = once-range events 0 (is_unexpected expected) k executed b in
                let before : occurrences k r1.unexpected_tasks ≡ 0 = ap (occurrences k) u1 in
                ap (occurrences k) u3 ∙ omega arith;
            errors = λ k.
                let (e3, m3, s3, u3) =
                  check_deps-lists k expected split h ran (events.range 1 executed) r2 in
                let (u2, m2, s2, e2) =
                  find_unexpected-lists k expected (events.range 0 executed) r1 in
                let (m1, s1, u1, e1) =
                  classify-lists k ran skipped (nodes.range 1 expected) passed in
                let all = once-range events 1 (differs split h ran expected) k executed b in
                let before : number (of_task k) r2.dependency_errors ≡ 0 =
                  ap (number (of_task k)) (e2 ∙ e1) in
                omega arith;
            honest = check_deps-IsHonest split h ran expected (events.range 1 executed) r2 (
                find_unexpected-IsHonest expected (events.range 0 executed) r1
                  (classify-IsHonest ran skipped (nodes.range 1 expected) passed refl));
          },
        )

-- `run` on a flow that a client has built ends with a result, whatever the trace is and in whatever
-- order its loops go through the maps. In its lists each name is once or not at all: missing is a
-- task that did not run and is not skipped, a skipped branch one that did not run and is skipped,
-- unexpected what ran and is no task, and a dependency error a task that ran with other dependents
-- than those of its event. Skipped are the tasks that did not run with a condition among their
-- dependents, and those that did not run with a skipped dependent that is no condition. `valid` says
-- that the three lists of failures are empty.
pub run_total :
    (split : String → String → List String) (nodes : Ranges ℕ) (events : Ranges Event) (h : Heap)
    (rec : List Event) (g : ℕ)
    → IsNested h
    → 0 < g
    → g < h.fresh
    → (l : List ℕ) × (r : ValidationResult) × (walk h.fresh h g ≡ some l)
      × (run split nodes events h rec g ≡ some r)
      × IsVerdict split h (expect h l []) (execute rec []) r
unfolding run
run_total split nodes events h rec g nested pos low =
    let (l, walks, visits) = walk_total h g nested pos low in
    let (r, runs, verdict) =
      compare_maps-IsVerdict split h (expect h l []) (execute rec []) nodes events
        (expect-HasKeys h l [] tt) (execute-HasKeys rec [] tt) in
    (l, r, walks, rw (walks, run) runs, verdict)
