-- ===== src/Tests/Validation.antt =====
-- The validator on the sample flow and a trace in which the branch `done` was not chosen.
use text.Mathlib.TextEquality.{eq_iff}
use go_taskflow.Base.{
  ℕ, ◌+◌, ◌≡◌, ◌↔◌, refl, suc, String, List, [], ◌∷◌, ◌++◌, true, false, Bool, some, arith,
  in_order, All, length, has,
}
use go_taskflow.Memory.{nil}
use go_taskflow.Graph
use go_taskflow.Node
use go_taskflow.Graph.{walk}
use go_taskflow.Flow.Nesting.{IsBuilt-IsNested}
use go_taskflow.Observer.{
  Event, Observer, new_observer, with_tracer, open_span, close_span, get_dependent_names,
  new_tracer,
}
use go_taskflow.Validator.{
  ValidationResult, passed, expect, execute, skip_branches, skip_loop, run, actual_deps,
  expected_deps,
}
use go_taskflow.Validator.Skips.{IsSkipped}
use go_taskflow.Validator.Rounds.{skips_found}
use go_taskflow.Validator.Verdict.{IsVerdict, run_total}
use go_taskflow.Validator.Valid.{IsFaithful, valid_iff}
use go_taskflow.Validator.Recorded.{recorded_deps, IsPlain}
use go_taskflow.Tests.Sample.{program, sample}
use go_taskflow.Tests.Building.{sample_grown, sample-IsBuilt}
use go_taskflow.Tests.Commas.{split_at_commas, comma_split, comma_split-Splits}

abbrev event : String → List (String × String) → Event
event name args = record {
  name = name;
  cat = "static";
  ph = "X";
  ts = 0;
  dur = 0;
  pid = 0;
  tid = 0;
  args = args;
}

abbrev trace : List Event
trace =
    event "load" []
    ∷ event "store" (("dependents", "load,again") ∷ [])
    ∷ event "again" (("dependents", "store") ∷ [])
    ∷ []

abbrev expected : List (String × ℕ)
expected = expect sample (2 ∷ 3 ∷ 4 ∷ 5 ∷ []) []

abbrev ran : String → Bool
ran name = has name (execute trace [])

unfoldable validation : Unit {0}
unfolding program Graph.walk run Node.has_cond_predecessor split_at_commas
validation = tt

-- The branch that was not chosen is skipped, and the trace is valid.
validated :
    run comma_split (in_order ℕ) (in_order Event) sample trace 1
    ≡ some (record passed { skipped_branches = "done" ∷ [] })
unfolding validation
validated = refl

skips_found_example :
    (skipped : String → Bool) × (skip_loop
        (in_order ℕ)
        (suc (length expected))
        sample
        ran
        expected
        2
        (skip_branches sample ran expected (λ _. false))
      ≡ some skipped)
    × ((k : String) → (skipped k ≡ true) ↔ IsSkipped sample ran expected k)
skips_found_example = skips_found sample ran expected (in_order ℕ)

run_total_example :
    (l : List ℕ) × (r : ValidationResult) × (walk sample.fresh sample 1 ≡ some l)
    × (run comma_split (in_order ℕ) (in_order Event) sample trace 1 ≡ some r)
    × IsVerdict comma_split sample (expect sample l []) (execute trace []) r
run_total_example =
    run_total comma_split (in_order ℕ) (in_order Event) sample trace 1
      (IsBuilt-IsNested sample sample-IsBuilt) (omega arith) sample_grown

abbrev verdict :
    (l : List ℕ) × (r : ValidationResult) × (walk sample.fresh sample 1 ≡ some l)
    × (run comma_split (in_order ℕ) (in_order Event) sample trace 1 ≡ some r)
    × IsVerdict comma_split sample (expect sample l []) (execute trace []) r
verdict =
    run_total comma_split (in_order ℕ) (in_order Event) sample trace 1
      (IsBuilt-IsNested sample sample-IsBuilt) (omega arith) sample_grown

valid_iff_example :
    (verdict.1.valid ≡ true)
    ↔ IsFaithful comma_split sample (expect sample verdict.0 []) (execute trace [])
valid_iff_example =
    valid_iff comma_split sample (expect sample verdict.0 []) (execute trace []) verdict.1 verdict.4

abbrev opened : Observer
opened = (open_span (with_tracer new_observer (new_tracer 0)) sample 3 nil 1000).1

opened-eq :
    (opened.tracer ≡ some (new_tracer 0))
    × ((opened.span 1).dependents ≡ get_dependent_names sample 3)
unfolding program open_span with_tracer
opened-eq = (refl, refl)

plain : All IsPlain (get_dependent_names sample 3)
unfolding program get_dependent_names
plain = (
  (refl, λ e. absurd (ground (arith, eq_iff "load" ""))),
  ((refl, λ e. absurd (ground (arith, eq_iff "again" ""))), tt),
)

recorded_deps_example :
    (e : Event) × ((close_span opened 1 true 2000).tracer
      ≡ some (record (new_tracer 0) {
        events = (new_tracer 0).events ++ e ∷ [];
        tid_gen = (new_tracer 0).tid_gen + 1;
      }))
    × (actual_deps comma_split ran e ≡ expected_deps sample ran 3)
recorded_deps_example =
    recorded_deps comma_split comma_split-Splits ran sample 3 opened 1 true 2000 (new_tracer 0)
      (omega arith) opened-eq.0 opened-eq.1 plain
