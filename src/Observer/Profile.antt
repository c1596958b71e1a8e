-- ===== src/Observer/Profile.antt =====
-- profiler.go: the text of a profile (`String`, `draw`), `Profile` and `Trace` of
-- executor.go, and options.go. `decimal` is
-- `%d`, and a writer is a state with what a write leaves, and whether it fails.
use Prim.Native.String
use go_taskflow.Base.{
  ℕ, zero, suc, ◌/◌, String, List, [], ◌∷◌, Bool, true, false, if◌then◌else◌, ◌==◌, Option, none,
  some,
}
use go_taskflow.Memory.{NodeType, nil}
use go_taskflow.Duration.{WholeParts, normalize_duration}
use go_taskflow.Observer.{
  Attr, Span, Event, Observer, type_name, same_type, with_profiler, with_tracer, new_profiler,
  new_tracer,
}

-- The options `WithProfiler` and `WithTracer`, which reads the clock.
unfoldable pub option_profiler : Observer → Observer
unfolding with_profiler
option_profiler o = with_profiler o new_profiler

unfoldable pub option_tracer : ℕ → Observer → Observer
unfolding with_tracer
option_tracer now o = with_tracer o (new_tracer now)

-- `Trace`, and `draw` of tracer.go. `encode` is the JSON encoder of the standard library on a
-- writer. Without a tracer it writes nothing and returns no error.
unfoldable pub trace : {W : Type 0} → (List Event → W → W × Bool) → Observer → W → W × Bool
trace encode o w = elim o.tracer [ none ↦ (w, false) | some t ↦ encode t.events w ]

module _ (whole : WholeParts) (decimal : ℕ → String) where
  -- `String`
  unfoldable pub span_text : Span → String
  span_text s = String.◌++◌ (type_name s.extra.typ) (
      String.◌++◌ ","
        (String.◌++◌ s.extra.name (String.◌++◌ ",cost " (normalize_duration whole decimal s.cost))))

  -- The loop of `draw` that goes up from `cur`, on fuel.
  unfoldable pub path_loop : ℕ → (ℕ → Span) → ℕ → String → Option String
  path_loop zero spans cur path = none
  path_loop (suc n) spans cur path =
      let up = (spans cur).parent in
      let longer =
        path_loop n spans up (String.◌++◌ (span_text (spans up)) (String.◌++◌ ";" path)) in
      if up == nil then some path else longer

  -- `msg`
  unfoldable pub profile_line : Span → String → String
  profile_line s path =
      String.◌++◌ path (String.◌++◌ " " (String.◌++◌ (decimal (s.cost / 1000)) "\n"))

  module _ {W : Type 0} (write : String → W → W × Bool) where
    -- `draw`, for the entries of the map in the order of its loop: what is written, and whether a
    -- write failed, which ends the loop.
    unfoldable pub draw : ℕ → (ℕ → Span) → List (Attr × ℕ) → W → Option (W × Bool)
    unfolding path_loop span_text profile_line
    draw fuel spans [] w = some (w, false)
    draw fuel spans ((k, s) ∷ m) w =
        if same_type (spans s).extra.typ NodeType.subflow
        then draw fuel spans m w
        else elim (path_loop fuel spans s (span_text (spans s))) [
          | none ↦ none
          | some path ↦
              let (w', failed) = write (profile_line (spans s) path) w in
              let rest = draw fuel spans m w' in if failed then some (w', true) else rest
        ]

    -- `Profile`, where `order` is the order of the loop over the map. Without a profiler it writes
    -- nothing and returns no error.
    unfoldable pub profile : (List (Attr × ℕ) → List (Attr × ℕ)) → Observer → W → Option (W × Bool)
    unfolding draw
    profile order o w = elim o.profiler [
      | none ↦ some (w, false)
      | some m ↦ draw o.fresh o.span (order m) w
    ]
