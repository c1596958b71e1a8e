-- ===== src/Tests/Steps.antt =====
-- One step of the executor, and the close of a span, on the sample.
use go_taskflow.Base.{
  ℕ, List, ◌+◌, ◌/◌, ◌-◌, ◌≡◌, refl, [], ◌∷◌, ◌++◌, true, false, if◌then◌else◌, arith, incr32, some,
  count, contains, select,
}
use go_taskflow.Memory.{Heap, NodeState, nil}
use go_taskflow.Observer.{
  Observer, Tracer, Event, new_observer, new_tracer, new_profiler, open_span, trace_span,
  profile_span, add_span, find_span, set_span, add_event, close_span, set_cost, type_name,
  with_tracer, with_profiler,
}
use go_taskflow.Observer.Durations.{close_span-dur, earlier_cost}
use go_taskflow.Queue.{Queue, list_queue}
use go_taskflow.Sort.{by_insertion, IsAscending}
use go_taskflow.Executor.Goroutine.{
  release, choosing, closing, scheduling, scanning, Thread, at, recovering,
}
use go_taskflow.Executor.Act.{Core}
use go_taskflow.Executor.Handlers.{set_state}
use go_taskflow.Executor.Scan.{is_ready, scanning-scheduling}
use go_taskflow.Executor.Alone.{solo}
use go_taskflow.Node
use go_taskflow.Executor.Choice.{after_choice, choice_out_of_range, choosing-closing}
use go_taskflow.Tests.Whole.{quiet}
use go_taskflow.Tests.Sample.{program, sample}

abbrev queue : Queue ℕ
queue = list_queue ℕ

abbrev core : Core queue by_insertion
core = record { heap = sample; wq = []; wg = 0; obs = new_observer; mu = false }

-- The goroutine of `again` behind its function.
abbrev asked : Thread
asked = record { node = 4; parent = nil; span = nil; pc = choosing 2 }

-- The goroutine of `again` before the loop of `sche_successors`.
abbrev looks : Thread
looks = record { node = 4; parent = nil; span = nil; pc = scanning (3 ∷ 5 ∷ []) [] }

scanning-scheduling_example :
    (l : List ℕ) × (h : Heap) × (solo queue by_insertion 4 quiet core
        (at looks (scanning (3 ∷ 5 ∷ []) []))
      ≡ some (record core { heap = Node.setup h 4 }, at looks (scheduling l release)))
    × IsAscending (λ a. (sample.node a).priority) l
    × ((b : ℕ)
        → (count b l ≡ count b (select (is_ready sample.node) (3 ∷ 5 ∷ [])))
          × (h.node b ≡ (
              if contains b (select (is_ready sample.node) (3 ∷ 5 ∷ []))
              then record (sample.node b) { state = NodeState.waiting }
              else sample.node b)))
    × (h.graph ≡ sample.graph)
scanning-scheduling_example =
    scanning-scheduling queue by_insertion quiet looks core (3 ∷ 5 ∷ []) (refl, (refl, tt))

choice_out_of_range_example :
    let (c', t') = after_choice queue by_insertion core asked (3 ∷ 5 ∷ []) 2 in
    (t' ≡ at asked recovering)
    × (c'.heap ≡ set_state sample 4 NodeState.finished)
    × (c'.wg ≡ 0)
    × (c'.wq ≡ [])
choice_out_of_range_example =
    choice_out_of_range queue by_insertion core asked (3 ∷ 5 ∷ []) 2 (omega arith)

choosing-closing_example :
    (d : Core queue by_insertion) × (solo queue by_insertion 4 quiet core (at asked (choosing 1))
      ≡ some (d, at asked (closing true)))
    × (d.wq ≡ 5 ∷ [])
    × (d.wg ≡ 1)
    × ((d.heap.graph 1).join_counter ≡ incr32 (sample.graph 1).join_counter)
    × (d.heap.node ≡ (set_state sample 4 NodeState.finished).node)
unfolding program
choosing-closing_example =
    choosing-closing queue by_insertion quiet core asked (3 ∷ 5 ∷ []) 1 (refl, refl) refl
      (omega arith) (omega arith)

-- `load` runs twice, with a profiler and a tracer: 3 microseconds, then 4.
abbrev observed : Observer
observed = with_tracer (with_profiler new_observer new_profiler) (new_tracer 0)

abbrev opened : Observer
opened = (open_span observed sample 2 nil 1000).1

abbrev closed_once : Observer
closed_once = close_span opened 1 true 4000

abbrev opened_again : Observer
opened_again = (open_span closed_once sample 2 nil 5000).1

abbrev first_event : Event
first_event = record {
  name = "load";
  cat = "static";
  ph = "X";
  ts = 1;
  dur = 3;
  pid = 0;
  tid = 1;
  args = [];
}

abbrev traced_once : Tracer
traced_once = record { events = first_event ∷ []; start = 0; tid_gen = 1 }

traced_once-eq : opened_again.tracer ≡ some traced_once
unfolding program open_span close_span profile_span set_cost trace_span add_event with_tracer
    with_profiler
traced_once-eq = refl

close_span-dur_example :
    (e : Event) × ((close_span opened_again 2 true 9000).tracer
      ≡ some (record traced_once {
        events = traced_once.events ++ e ∷ [];
        tid_gen = traced_once.tid_gen + 1;
      }))
    × (e.name ≡ (opened_again.span 2).extra.name)
    × (e.cat ≡ type_name (opened_again.span 2).extra.typ)
    × (e.tid ≡ traced_once.tid_gen + 1)
    × (e.ts ≡ ((opened_again.span 2).begin - traced_once.start) / 1000)
    × (e.dur
        ≡ (9000
            - (opened_again.span 2).begin
            + earlier_cost
                (set_cost opened_again 2 9000).span
                opened_again.profiler
                (opened_again.span 2).extra
                true)
          / 1000)
close_span-dur_example =
    close_span-dur opened_again 2 true 9000 traced_once (omega arith) traced_once-eq

-- The earlier cost is 3 microseconds.
earlier_cost_example :
    earlier_cost
      (set_cost opened_again 2 9000).span
      opened_again.profiler
      (opened_again.span 2).extra
      true
    ≡ 3000
unfolding program open_span close_span profile_span set_cost add_span find_span set_span with_tracer
    with_profiler trace_span
earlier_cost_example = refl
