-- ===== src/Observer/Durations.antt =====
-- `closeSpan` of profiler.go: what the profiler and the tracer record of one execution.
use go_taskflow.Base.{
  ℕ, ◌+◌, ◌-◌, ◌/◌, ◌≡◌, ◌≢◌, refl, List, [], ◌∷◌, ◌++◌, Bool, true, false, arith, Option, none,
  some, ap, ◌∙◌,
}
use mathlib.Core.Path.{ap₂}
use go_taskflow.Memory.{nil}
use go_taskflow.Observer.{
  Attr, Span, Event, Tracer, Observer, find_span, add_span, add_event, event_args, set_cost,
  profile_span, trace_span, close_span, type_name,
}

-- The cost that the profiler has for earlier executions of the task, if it records this one.
abbrev pub earlier_cost : (ℕ → Span) → Option (List (Attr × ℕ)) → Attr → Bool → ℕ
earlier_cost spans none k ok = 0
earlier_cost spans (some m) k false = 0
earlier_cost spans (some m) k true = elim (find_span k m) [ none ↦ 0 | some p ↦ (spans p).cost ]

profile_span-cost :
    (o : Observer) (s : ℕ) (ok : Bool)
    → ((profile_span o s ok).span s).cost
      ≡ (o.span s).cost + earlier_cost o.span o.profiler (o.span s).extra ok
unfolding profile_span add_span
profile_span-cost o s ok = ground arith

profile_span-rest :
    (o : Observer) (s : ℕ) (ok : Bool)
    → (((profile_span o s ok).span s).extra ≡ (o.span s).extra)
      × (((profile_span o s ok).span s).begin ≡ (o.span s).begin)
      × ((profile_span o s ok).tracer ≡ o.tracer)
unfolding profile_span add_span
profile_span-rest o s ok = ground arith

set_cost-at :
    (o : Observer) (s now : ℕ)
    → (((set_cost o s now).span s).cost ≡ now - (o.span s).begin)
      × (((set_cost o s now).span s).extra ≡ (o.span s).extra)
      × (((set_cost o s now).span s).begin ≡ (o.span s).begin)
      × ((set_cost o s now).tracer ≡ o.tracer)
      × ((set_cost o s now).profiler ≡ o.profiler)
unfolding set_cost
set_cost-at o s now = ground arith

-- With a tracer, closing a span appends one event, with the next thread number, the name and the
-- type of the task, and the start of the span in whole microseconds after that of the tracer. Its
-- duration is that of this execution and, where a profiler is on and the task did not panic, of
-- all earlier ones that the profiler has for the same type and name.
pub close_span-dur :
    (o : Observer) (s : ℕ) (ok : Bool) (now : ℕ) (t : Tracer)
    → s ≢ nil
    → o.tracer ≡ some t
    → (e : Event) × ((close_span o s ok now).tracer
        ≡ some (record t { events = t.events ++ e ∷ []; tid_gen = t.tid_gen + 1 }))
      × (e.name ≡ (o.span s).extra.name)
      × (e.cat ≡ type_name (o.span s).extra.typ)
      × (e.tid ≡ t.tid_gen + 1)
      × (e.ts ≡ ((o.span s).begin - t.start) / 1000)
      × (e.dur
          ≡ (now
              - (o.span s).begin
              + earlier_cost (set_cost o s now).span o.profiler (o.span s).extra ok)
            / 1000)
unfolding close_span trace_span add_event
close_span-dur o s ok now t real on =
    let begun = set_cost o s now in
    let spans = (profile_span begun s ok).span in
    let (at_cost, at_extra, at_begin, at_tracer, at_profiler) = set_cost-at o s now in
    let (keeps_extra, keeps_begin, keeps_tracer) = profile_span-rest begun s ok in
    let extra = keeps_extra ∙ at_extra in
    (
      record {
        name = (spans s).extra.name;
        cat = type_name (spans s).extra.typ;
        ph = "X";
        ts = ((spans s).begin - t.start) / 1000;
        dur = (spans s).cost / 1000;
        pid = 0;
        tid = t.tid_gen + 1;
        args = event_args spans (spans s);
      },
      ground arith,
      ap (λ (a : Attr). a.name) extra,
      ap (λ (a : Attr). type_name a.typ) extra,
      refl,
      ap (λ (b : ℕ). (b - t.start) / 1000) (keeps_begin ∙ at_begin),
      ap (λ (n : ℕ). n / 1000)
          (cc (
            profile_span-cost begun s ok,
            at_cost,
            ap₂ (λ p k. earlier_cost begun.span p k ok) at_profiler at_extra,
          )),
    )
