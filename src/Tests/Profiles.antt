-- ===== src/Tests/Profiles.antt =====
-- The profile of one task that ran in a subflow's span.
use go_taskflow.Base.{
  ℕ, ◌≡◌, ◌<◌, refl, String, List, [], ◌∷◌, Bool, true, false, Option, none, some, arith,
}
use go_taskflow.Observer.{
  Attr, Observer, open_span, close_span, find_span, set_span, set_cost, profile_span, trace_span,
  add_span, new_observer,
}
use go_taskflow.Observer.Profile.{profile, option_profiler}
use go_taskflow.Observer.Stacks.{
  IsObserved, begins, opens, closes, IsDrawn, write_lines, profile-write_lines,
}
use go_taskflow.Tests.Sample.{program, with_store}
use go_taskflow.Tests.Durations.{whole}

abbrev decimal : ℕ → String
decimal n = "7"

-- A writer that keeps the lines, and fails from the second one on.
abbrev keep : String → List String → List String × Bool
keep s [] = (s ∷ [], false)
keep s (x ∷ xs) = (x ∷ xs, true)

abbrev idle : Observer
idle = option_profiler (record new_observer { tracer = none })

-- One line for all that the observer computes with.
unfoldable run_observer : Unit {0}
unfolding program option_profiler open_span close_span set_cost profile_span trace_span add_span
    find_span set_span
run_observer = tt

-- `load` is opened, and `store` within it; `store` is closed, and then `load`.
abbrev both_open : Observer
both_open = (open_span (open_span idle with_store 2 0 10).1 with_store 3 1 20).1

abbrev at_end : Observer
at_end = close_span (close_span both_open 2 true 5000) 1 true 9000

idle-fresh : 0 < idle.fresh
unfolding run_observer
idle-fresh = omega arith

one_open : 1 < (open_span idle with_store 2 0 10).1.fresh
unfolding run_observer
one_open = omega arith

two_open : 2 < both_open.fresh
unfolding run_observer
two_open = omega arith

one_closed : 1 < (close_span both_open 2 true 5000).fresh
unfolding run_observer
one_closed = omega arith

at_end-IsObserved : IsObserved at_end
at_end-IsObserved =
    closes 1 true 9000
      (closes 2 true 5000
        (opens with_store 3 1 20 (opens with_store 2 0 10 (begins none) idle-fresh) one_open)
        two_open)
      one_closed

abbrev kept : Option (List (Attr × ℕ)) → List (Attr × ℕ)
kept none = []
kept (some m) = m

at_end-profiler : at_end.profiler ≡ some (kept at_end.profiler)
unfolding run_observer
at_end-profiler = refl

profile-write_lines_example :
    (ls : List String) × IsDrawn whole decimal at_end.span (kept at_end.profiler) ls
    × (profile whole decimal keep (λ m. m) at_end []
        ≡ some (write_lines whole decimal at_end.span keep ls []))
profile-write_lines_example =
    profile-write_lines whole decimal keep (λ m. m) at_end (kept at_end.profiler) []
      (λ P l all. all) at_end-IsObserved at_end-profiler
