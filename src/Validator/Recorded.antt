-- ===== src/Validator/Recorded.antt =====
-- The dependents that a tracer writes into an event, read back by `run` in validator.go.
use mathlib.Core.Path.{subst}
use Prim.Native.String
use Prim.Native.Char.{code}
use text.Mathlib.Text.{◌==◌ as str_eq}
use text.Mathlib.TextEquality.{eq_iff}
use text.Mathlib.TextLemmas.{append-ne-nil_of_right_ne-nil}
use go_taskflow.Base.{
  ℕ, ◌+◌, ◌-◌, ◌/◌, ◌≡◌, ◌≢◌, refl, ap, sym, ◌∙◌, String, List, [], ◌∷◌, ◌++◌, true, false, Bool,
  Bool-cases, inl, inr, arith, ◌==◌, if◌then◌else◌, some, All, select,
}
use go_taskflow.Memory.{Heap, nil}
use go_taskflow.Observer.{
  Span, Event, Tracer, Observer, get_dependent_names, join, event_args, add_event, set_cost,
  profile_span, trace_span, close_span, add_span, type_name,
}
use go_taskflow.Validator.{raw_dependents, actual_deps, expected_deps}

abbrev pub lacks_comma : String → Bool
lacks_comma String.[] = true
lacks_comma (String.◌∷◌ c s) = if code c == 44 then false else lacks_comma s

-- What the validator relies on of `strings.Split` with a comma: a text without one is the only
-- part, and a part ends at the first comma.
pub record Splits (split : String → String → List String) : Type 0 where
  pub split-part : (s : String) → lacks_comma s ≡ true → split s "," ≡ s ∷ []
  pub split-comma :
      (a b : String)
      → lacks_comma a ≡ true
      → split (String.◌++◌ a (String.◌++◌ "," b)) "," ≡ a ∷ split b ","

-- A name that the text of an event can hold.
abbrev pub IsPlain : String → Type 0
IsPlain s = (lacks_comma s ≡ true) × (s ≢ "")

split-join :
    (split : String → String → List String)
    → Splits split
    → (d : String) (ds : List String) → All IsPlain (d ∷ ds)
    → split (join (d ∷ ds)) "," ≡ d ∷ ds
unfolding join
split-join split laws d [] plain = laws.split-part d plain.0.0
split-join split laws d (e ∷ ds) plain =
    laws.split-comma d (join (e ∷ ds)) plain.0.0
    ∙ ap (λ l. d ∷ l) (split-join split laws e ds plain.1)

join-ne-nil : (d : String) (ds : List String) → All IsPlain (d ∷ ds) → join (d ∷ ds) ≢ ""
unfolding join
join-ne-nil d [] plain = plain.0.1
join-ne-nil d (e ∷ ds) plain =
    append-ne-nil_of_right_ne-nil d (append-ne-nil_of_right_ne-nil "," (join-ne-nil e ds plain.1))

abbrev text_of : List String → String
text_of [] = ""
text_of (d ∷ ds) = join (d ∷ ds)

-- The text that an event has for its dependents.
raw_dependents-event_args :
    (spans : ℕ → Span) (sp : Span) (e : Event) (ds : List String)
    → e.args ≡ event_args spans sp
    → sp.dependents ≡ ds
    → raw_dependents e ≡ text_of ds
unfolding event_args
raw_dependents-event_args spans sp e [] made eq = elim (Bool-cases (sp.parent == nil)) [
  | inl root ↦ rw (made, root, eq, raw_dependents, event_args) refl
  | inr below ↦ rw (made, below, eq, raw_dependents, event_args) refl
]
raw_dependents-event_args spans sp e (d ∷ ds) made eq = elim (Bool-cases (sp.parent == nil)) [
  | inl root ↦ rw (made, root, eq, raw_dependents, event_args) refl
  | inr below ↦ rw (made, below, eq, raw_dependents, event_args) refl
]

is_not_empty : (s : String) → s ≢ "" → str_eq s "" ≡ false
is_not_empty s real = elim (Bool-cases (str_eq s "")) [
  | inl e ↦ absurd (real ((eq_iff s "").0 e))
  | inr e ↦ e
]

module _ (split : String → String → List String) (laws : Splits split) (ran : String → Bool) where
  -- The dependents of an event with the arguments that the tracer makes of a span.
  actual_deps-event_args :
      (spans : ℕ → Span) (sp : Span) (e : Event)
      → e.args ≡ event_args spans sp
      → All IsPlain sp.dependents
      → actual_deps split ran e ≡ select ran sp.dependents
  unfolding actual_deps event_args
  actual_deps-event_args spans sp e made plain = go sp.dependents refl plain
    where
      go :
          (ds : List String)
          → sp.dependents ≡ ds
          → All IsPlain ds
          → actual_deps split ran e ≡ select ran ds
      go [] eq p =
          let raw = raw_dependents-event_args spans sp e [] made eq in rw (raw, actual_deps) refl
      go (d ∷ ds) eq p =
          let raw = raw_dependents-event_args spans sp e (d ∷ ds) made eq in
          let real = is_not_empty (join (d ∷ ds)) (join-ne-nil d ds p) in
          rw (raw, real, split-join split laws d ds p, actual_deps) refl

profile_span-dependents :
    (o : Observer) (s : ℕ) (ok : Bool)
    → (((profile_span o s ok).span s).dependents ≡ (o.span s).dependents)
      × ((profile_span o s ok).tracer ≡ o.tracer)
unfolding profile_span add_span
profile_span-dependents o s ok = ground arith

set_cost-dependents :
    (o : Observer) (s now : ℕ)
    → (((set_cost o s now).span s).dependents ≡ (o.span s).dependents)
      × ((set_cost o s now).tracer ≡ o.tracer)
unfolding set_cost
set_cost-dependents o s now = ground arith

-- The last event is that of a span whose dependents are still the same.
close_span-last :
    (o : Observer) (s : ℕ) (ok : Bool) (now : ℕ) (t : Tracer)
    → s ≢ nil
    → o.tracer ≡ some t
    → (spans : ℕ → Span) × (e : Event) × ((close_span o s ok now).tracer
        ≡ some (record t { events = t.events ++ e ∷ []; tid_gen = t.tid_gen + 1 }))
      × (e.args ≡ event_args spans (spans s))
      × ((spans s).dependents ≡ (o.span s).dependents)
unfolding close_span trace_span add_event
close_span-last o s ok now t real on =
    let begun = set_cost o s now in
    let spans = (profile_span begun s ok).span in
    let (at_deps, at_tracer) = set_cost-dependents o s now in
    let (keeps_deps, keeps_tracer) = profile_span-dependents begun s ok in
    (
      spans,
      record {
        name = (spans s).extra.name;
        cat = type_name (spans s).extra.typ;
        ph = "X";
        ts = ((spans s).begin - t.start) / 1000;
        dur = (spans s).cost / 1000;
        pid = 0;
        tid = t.tid_gen + 1;
        args = event_args spans (spans s);
      },
      ground arith,
      refl,
      keeps_deps ∙ at_deps,
    )

-- With a tracer, where a span that was opened for a node is closed, the event that it leaves has,
-- as the validator reads it, those dependents of the node that ran, in order: what the validator
-- expects. The names of the dependents are not empty and have no comma. `strings.Split` gives a
-- text without a comma as the only part, and ends a part at the first comma.
pub recorded_deps :
    (split : String → String → List String) (laws : Splits split) (ran : String → Bool) (h : Heap)
    (n : ℕ) (o : Observer) (s : ℕ) (ok : Bool) (now : ℕ) (t : Tracer)
    → s ≢ nil
    → o.tracer ≡ some t
    → (o.span s).dependents ≡ get_dependent_names h n
    → All IsPlain (get_dependent_names h n)
    → (e : Event) × ((close_span o s ok now).tracer
        ≡ some (record t { events = t.events ++ e ∷ []; tid_gen = t.tid_gen + 1 }))
      × (actual_deps split ran e ≡ expected_deps h ran n)
unfolding expected_deps get_dependent_names
recorded_deps split laws ran h n o s ok now t real on opened plain =
    let (spans, e, closes, args, deps) = close_span-last o s ok now t real on in
    let names = deps ∙ opened in
    (
      e,
      closes,
      actual_deps-event_args split laws ran spans (spans s) e args
            (subst (All IsPlain) (sym names) plain)
          ∙ ap (select ran) names,
    )
