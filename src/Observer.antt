-- ===== src/Observer.antt =====
-- profiler.go and tracer.go: the observer of an executor. A span is an object with an address, since
-- its cost changes while other spans point at it; nil is address 0. A time and a duration are
-- nanoseconds on the monotonic clock, and `now` is what the call of `time.Now` or `time.Since` reads.
pub mod Durations
pub mod Profile
pub mod Stacks
use Prim.Native.String
use text.Mathlib.Text.{◌==◌ as str_eq}
use go_taskflow.Base.{
  ℕ, ◌+◌, ◌-◌, ◌/◌, String, List, [], ◌∷◌, ◌++◌, Bool, true, false, ◌&&◌, if◌then◌else◌, ◌==◌,
  Option, none, some, update, map,
}
use go_taskflow.Memory.{NodeType, Heap, nil}

-- `attr`
pub record Attr : Type 0 where
  pub typ : NodeType
  pub name : String

-- `span`
pub record Span : Type 0 where
  pub extra : Attr
  pub begin : ℕ
  pub cost : ℕ
  pub parent : ℕ
  pub dependents : List String

-- `chromeTraceEvent`
pub record Event : Type 0 where
  pub name : String
  pub cat : String
  pub ph : String
  pub ts : ℕ
  pub dur : ℕ
  pub pid : ℕ
  pub tid : ℕ
  pub args : List (String × String)

-- `tracer`
pub record Tracer : Type 0 where
  pub events : List Event
  pub start : ℕ
  pub tid_gen : ℕ

-- `observer` with the spans that it has opened. A profiler is its map from attributes to spans.
pub record Observer : Type 0 where
  pub span : ℕ → Span
  pub fresh : ℕ
  pub profiler : Option (List (Attr × ℕ))
  pub tracer : Option Tracer

abbrev pub blank_span : Span
blank_span = record {
  extra = record { typ = NodeType.static; name = "" };
  begin = 0;
  cost = 0;
  parent = 0;
  dependents = [];
}

-- `newObserver`
abbrev pub new_observer : Observer
new_observer = record { span = λ _. blank_span; fresh = 1; profiler = none; tracer = none }

-- `newProfiler` and `newTracer`
abbrev pub new_profiler : List (Attr × ℕ)
new_profiler = []

abbrev pub new_tracer : ℕ → Tracer
new_tracer now = record { events = []; start = now; tid_gen = 0 }

-- `withProfiler` and `withTracer`
unfoldable pub with_profiler : Observer → List (Attr × ℕ) → Observer
with_profiler o p = record o { profiler = some p }

unfoldable pub with_tracer : Observer → Tracer → Observer
with_tracer o t = record o { tracer = some t }

-- `getDependentNames`
unfoldable pub get_dependent_names : Heap → ℕ → List String
get_dependent_names h a = map (λ d. (h.node d).name) (h.node a).dependents

abbrev pub is_none : {A : Type 0} → Option A → Bool
is_none none = true
is_none (some a) = false

-- `openSpan`: the address of the span, or nil where nothing observes.
unfoldable pub open_span : Observer → Heap → ℕ → ℕ → ℕ → ℕ × Observer
unfolding get_dependent_names
open_span o h a parent now = if is_none o.profiler && is_none o.tracer then (nil, o) else (
  o.fresh,
  record o {
    span = update o.span o.fresh (record {
      extra = record { typ = (h.node a).typ; name = (h.node a).name };
      begin = now;
      cost = 0;
      parent = parent;
      dependents = get_dependent_names h a;
    });
    fresh = o.fresh + 1;
  },
)

abbrev pub same_type : NodeType → NodeType → Bool
same_type NodeType.static NodeType.static = true
same_type NodeType.subflow NodeType.subflow = true
same_type NodeType.condition NodeType.condition = true
same_type _ _ = false

abbrev pub same_attr : Attr → Attr → Bool
same_attr a b = same_type a.typ b.typ && str_eq a.name b.name

-- The map of a profiler: `m[k]` with its test, and `m[k] = v`.
unfoldable pub find_span : Attr → List (Attr × ℕ) → Option ℕ
find_span k [] = none
find_span k ((j, v) ∷ m) = if same_attr j k then some v else find_span k m

unfoldable pub set_span : Attr → ℕ → List (Attr × ℕ) → List (Attr × ℕ)
set_span k v [] = (k, v) ∷ []
set_span k v ((j, w) ∷ m) = if same_attr j k then (k, v) ∷ m else (j, w) ∷ set_span k v m

-- `AddSpan`: the spans and the map afterwards.
unfoldable pub add_span : (ℕ → Span) → List (Attr × ℕ) → ℕ → (ℕ → Span) × List (Attr × ℕ)
unfolding find_span set_span
add_span spans m s = elim (find_span (spans s).extra m) [
  | none ↦ (spans, set_span (spans s).extra s m)
  | some t ↦ (
    update spans s (record (spans s) { cost = (spans s).cost + (spans t).cost }),
    set_span (spans s).extra s m,
  )
]

-- The values of the constants of `nodeType`.
abbrev pub type_name : NodeType → String
type_name NodeType.subflow = "subflow"
type_name NodeType.static = "static"
type_name NodeType.condition = "condition"

-- The comma-separated string of `AddEvent`.
unfoldable pub join : List String → String
join [] = ""
join (d ∷ []) = d
join (d ∷ e ∷ ds) = String.◌++◌ d (String.◌++◌ "," (join (e ∷ ds)))

-- The arguments of an event, the parent first.
unfoldable pub event_args : (ℕ → Span) → Span → List (String × String)
unfolding join
event_args spans s =
    (if s.parent == nil then [] else ("parent", (spans s.parent).extra.name) ∷ [])
    ++ elim s.dependents [ [] ↦ [] | d ∷ ds ↦ ("dependents", join (d ∷ ds)) ∷ [] ]

-- `AddEvent`. Microseconds are whole; `Sub` cannot be negative on the monotonic clock.
unfoldable pub add_event : (ℕ → Span) → Tracer → ℕ → Tracer
unfolding event_args
add_event spans t s = record t {
  events =
      t.events
      ++ record {
        name = (spans s).extra.name;
        cat = type_name (spans s).extra.typ;
        ph = "X";
        ts = ((spans s).begin - t.start) / 1000;
        dur = (spans s).cost / 1000;
        pid = 0;
        tid = t.tid_gen + 1;
        args = event_args spans (spans s);
      }
        ∷ [];
  tid_gen = t.tid_gen + 1;
}

-- `closeSpan`, in its three parts: the cost, the profiler if the task did not panic, the tracer.
unfoldable pub set_cost : Observer → ℕ → ℕ → Observer
set_cost o s now = record o {
  span = update o.span s (record (o.span s) { cost = now - (o.span s).begin });
}

unfoldable pub profile_span : Observer → ℕ → Bool → Observer
unfolding add_span
profile_span o s ok = elim o.profiler [
  | none ↦ o
  | some m ↦
      if ok
      then record o { span = (add_span o.span m s).0; profiler = some (add_span o.span m s).1 }
      else o
]

unfoldable pub trace_span : Observer → ℕ → Observer
unfolding add_event
trace_span o s = elim o.tracer [
  | none ↦ o
  | some t ↦ record o { tracer = some (add_event o.span t s) }
]

unfoldable pub close_span : Observer → ℕ → Bool → ℕ → Observer
close_span o s ok now = if s == nil then o else trace_span (profile_span (set_cost o s now) s ok) s

-- `snapshot`
unfoldable pub snapshot : Tracer → List Event
snapshot t = t.events
