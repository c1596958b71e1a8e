-- ===== src/Observer/Stacks.antt =====
-- What a profile writes: for each task a line with the spans that it ran in, the outermost first.
use mathlib.Core.Path.{subst}
use go_taskflow.Base.{
  ℕ, zero, suc, ◌<◌, ◌≡◌, ◌≢◌, refl, sym, ap, ◌∙◌, String, List, [], ◌∷◌, ◌++◌, Bool, true, false,
  if◌then◌else◌, ◌==◌, Option, none, some, arith, All, Bool-cases, if_both, ◌≤◌, ◌+◌, ◌&&◌, inl,
  inr,
}
use Prim.Native.String
use go_taskflow.Memory.{NodeType, Heap, nil}
use go_taskflow.Duration.{WholeParts}
use go_taskflow.Observer.{
  Attr, Span, Observer, Tracer, same_type, same_attr, is_none, open_span, set_span, find_span,
  add_span, set_cost, profile_span, trace_span, close_span, new_observer,
}
use go_taskflow.Observer.Profile.{
  span_text, path_loop, profile_line, draw, profile, option_profiler,
}

-- The spans around span `s`, the outermost first.
pub data Around (spans : ℕ → Span) : ℕ → List ℕ → Type 0 where
  outermost : (s : ℕ) → (spans s).parent ≡ nil → Around spans s []
  within :
      (s : ℕ) (l : List ℕ)
      → (spans s).parent ≢ nil
      → Around spans (spans s).parent l
      → Around spans s (l ++ (spans s).parent ∷ [])

-- Spans are older than those that were opened within them, and what the profiler has was opened.
pub record IsGrown (o : Observer) : Type 0 where
  pub older : (s : ℕ) → 0 < s → s < o.fresh → (o.span s).parent < s
  pub stored :
      (m : List (Attr × ℕ))
      → o.profiler ≡ some m
      → All (λ (e : Attr × ℕ). (0 < e.1) × (e.1 < o.fresh)) m

module _ (whole : WholeParts) (decimal : ℕ → String) (spans : ℕ → Span) where
  -- The texts of the spans, each with a semicolon, before a path.
  abbrev pub stack_text : List ℕ → String → String
  stack_text [] path = path
  stack_text (a ∷ l) path =
      String.◌++◌ (span_text whole decimal (spans a)) (String.◌++◌ ";" (stack_text l path))

  stack_text-append :
      (l m : List ℕ) (path : String) → stack_text (l ++ m) path ≡ stack_text l (stack_text m path)
  stack_text-append [] m path = refl
  stack_text-append (a ∷ l) m path =
      ap (λ t. String.◌++◌ (span_text whole decimal (spans a)) (String.◌++◌ ";" t))
        (stack_text-append l m path)

  path_loop-stack_text :
      (n s : ℕ) (path : String)
      → ((r : ℕ) → 0 < r → r < n → (spans r).parent < r)
      → 0 < s
      → s < n
      → (l : List ℕ) × Around spans s l
        × (path_loop whole decimal n spans s path ≡ some (stack_text l path))
  unfolding path_loop
  path_loop-stack_text zero s path older some_span low = absurd (omega arith)
  path_loop-stack_text (suc n) s path older some_span low =
      let up : ℕ = (spans s).parent in
      elim (Bool-cases (up == nil)) [
        | inl top ↦ ([], outermost s (ground arith), rw top refl)
        | inr inside ↦
            let real : up ≢ nil = λ e. absurd (ground arith) in
            let text : String = span_text whole decimal (spans up) in
            let below : up < s = older s some_span low in
            let (l, around, goes) =
              path_loop-stack_text n up (String.◌++◌ text (String.◌++◌ ";" path))
                (λ r a b. older r a (omega arith)) (ground arith) (omega arith) in
            (
              l ++ up ∷ [],
              within s l real around,
              rw inside (goes ∙ ap some (sym (stack_text-append l (up ∷ []) path))),
            )
      ]

  -- The line of a task.
  abbrev pub task_line : ℕ → List ℕ → String
  task_line s l =
      profile_line whole decimal (spans s) (stack_text l (span_text whole decimal (spans s)))

  -- The lines of the entries: none for a subflow, and for a task or a condition its path with its
  -- cost in microseconds.
  pub data IsDrawn : List (Attr × ℕ) → List String → Type 0 where
    nothing : IsDrawn [] []
    skips :
        {m : List (Attr × ℕ)} {ls : List String} (k : Attr) (s : ℕ)
        → same_type (spans s).extra.typ NodeType.subflow ≡ true
        → IsDrawn m ls
        → IsDrawn ((k, s) ∷ m) ls
    draws :
        {m : List (Attr × ℕ)} {ls : List String} (k : Attr) (s : ℕ) (l : List ℕ)
        → same_type (spans s).extra.typ NodeType.subflow ≡ false
        → Around spans s l
        → IsDrawn m ls
        → IsDrawn ((k, s) ∷ m) (task_line s l ∷ ls)

  module _ {W : Type 0} (write : String → W → W × Bool) where
    -- Writes until one fails.
    abbrev pub write_lines : List String → W → W × Bool
    write_lines [] w = (w, false)
    write_lines (x ∷ xs) w =
        let (w', failed) = write x w in
        let rest = write_lines xs w' in if failed then (w', true) else rest

    if_some :
        (x y : W × Bool) (b : Bool) → (if b then some x else some y) ≡ some (if b then x else y)
    if_some x y true = refl
    if_some x y false = refl

    draw-write_lines :
        (n : ℕ) (m : List (Attr × ℕ)) (w : W)
        → ((r : ℕ) → 0 < r → r < n → (spans r).parent < r)
        → All (λ (e : Attr × ℕ). (0 < e.1) × (e.1 < n)) m
        → (ls : List String) × IsDrawn m ls
          × (draw whole decimal write n spans m w ≡ some (write_lines ls w))
    unfolding draw
    draw-write_lines n [] w older stored = ([], nothing, refl)
    draw-write_lines n ((k, s) ∷ m) w older stored =
        elim (Bool-cases (same_type (spans s).extra.typ NodeType.subflow)) [
          | inl sub ↦
              let (ls, drawn, goes) = draw-write_lines n m w older stored.1 in
              (ls, skips k s sub drawn, rw sub goes)
          | inr task ↦
              let (l, around, found) =
                path_loop-stack_text n s (span_text whole decimal (spans s)) older stored.0.0
                  stored.0.1 in
              let (ls, drawn, goes) =
                draw-write_lines n m (write (task_line s l) w).0 older stored.1 in
              (
                task_line s l ∷ ls,
                draws k s l task around drawn,
                rw (task, found, goes) (if_some _ _ (write (task_line s l) w).1),
              )
        ]

set_span-All :
    (P : Attr × ℕ → Type 0) (k : Attr) (s : ℕ) (m : List (Attr × ℕ))
    → P (k, s)
    → All P m
    → All P (set_span k s m)
unfolding set_span
set_span-All P k s [] p all = (p, tt)
set_span-All P k s ((j, v) ∷ m) p all =
    if_both (All P) (same_attr j k) (p, all.1) (all.0, set_span-All P k s m p all.1)

All-IsInside :
    (n k : ℕ) (m : List (Attr × ℕ))
    → n ≤ k
    → All (λ (e : Attr × ℕ). (0 < e.1) × (e.1 < n)) m
    → All (λ (e : Attr × ℕ). (0 < e.1) × (e.1 < k)) m
All-IsInside n k [] le all = tt
All-IsInside n k (e ∷ m) le all = ((all.0.0, omega (arith, all.0.1)), All-IsInside n k m le all.1)

-- `openSpan` within a span that was opened before keeps this.
open_span-IsGrown :
    (o : Observer) (h : Heap) (a parent now : ℕ)
    → IsGrown o
    → parent < o.fresh
    → IsGrown (open_span o h a parent now).1
unfolding open_span
open_span-IsGrown o h a parent now grown low =
    if_both (λ (r : ℕ × Observer). IsGrown r.1) (is_none o.profiler && is_none o.tracer) grown
      (record {
        older = λ s p q. ground (arith, grown.older s);
        stored = λ m e. All-IsInside o.fresh (o.fresh + 1) m (omega arith) (grown.stored m e);
      })

set_cost-IsGrown : (o : Observer) (s now : ℕ) → IsGrown o → IsGrown (set_cost o s now)
unfolding set_cost
set_cost-IsGrown o s now grown = record {
  older = λ r p q. ground (arith, grown.older r);
  stored = grown.stored;
}

trace_span-IsGrown : (o : Observer) (s : ℕ) → IsGrown o → IsGrown (trace_span o s)
unfolding trace_span
trace_span-IsGrown o s grown = split o.tracer refl
  where
    split : (t : Option Tracer) → o.tracer ≡ t → IsGrown (trace_span o s)
    split none e = rw (e, trace_span) grown
    split (some t) e = rw (e, trace_span) (record { older = grown.older; stored = grown.stored })

add_span-parent :
    (spans : ℕ → Span) (m : List (Attr × ℕ)) (s r : ℕ)
    → ((add_span spans m s).0 r).parent ≡ (spans r).parent
unfolding add_span
add_span-parent spans m s r = ground arith

add_span-All :
    (P : Attr × ℕ → Type 0) (spans : ℕ → Span) (m : List (Attr × ℕ)) (s : ℕ)
    → P ((spans s).extra, s)
    → All P m
    → All P (add_span spans m s).1
unfolding add_span
add_span-All P spans m s p all = split (find_span (spans s).extra m) refl
  where
    split : (t : Option ℕ) → find_span (spans s).extra m ≡ t → All P (add_span spans m s).1
    split none e = rw (e, add_span) (set_span-All P (spans s).extra s m p all)
    split (some t) e = rw (e, add_span) (set_span-All P (spans s).extra s m p all)

profile_span-IsGrown :
    (o : Observer) (s : ℕ) (ok : Bool)
    → IsGrown o
    → 0 < s
    → s < o.fresh
    → IsGrown (profile_span o s ok)
unfolding profile_span
profile_span-IsGrown o s ok grown real low = split o.profiler refl
  where
    split : (t : Option (List (Attr × ℕ))) → o.profiler ≡ t → IsGrown (profile_span o s ok)
    split none e = rw (e, profile_span) grown
    split (some m) e =
        rw (e, profile_span)
          (if_both IsGrown ok
            (record {
              older = λ r p q. ground (arith, grown.older r, add_span-parent o.span m s r);
              stored = λ l f.
                  let same : (add_span o.span m s).1 ≡ l = cc in
                  subst (All (λ (e : Attr × ℕ). (0 < e.1) × (e.1 < o.fresh))) same
                    (add_span-All _ o.span m s (real, low) (grown.stored m e));
            })
            grown)

-- And so does `closeSpan` of a span that was opened.
close_span-IsGrown :
    (o : Observer) (s : ℕ) (ok : Bool) (now : ℕ)
    → IsGrown o
    → s < o.fresh
    → IsGrown (close_span o s ok now)
unfolding close_span set_cost
close_span-IsGrown o s ok now grown low = elim (Bool-cases (s == nil)) [
  | inl absent ↦ rw absent grown
  | inr real ↦ rw real (
      trace_span-IsGrown (profile_span (set_cost o s now) s ok) s (
        profile_span-IsGrown (set_cost o s now) s ok (set_cost-IsGrown o s now grown) (ground arith)
          low))
]

-- An observer with a profiler, behind calls of `openSpan`, within nil or a span that was opened
-- before, and of `closeSpan`, for such a span.
pub data IsObserved : Observer → Type 0 where
  begins : (t : Option Tracer) → IsObserved (option_profiler (record new_observer { tracer = t }))
  opens :
      {o : Observer} (h : Heap) (a parent now : ℕ)
      → IsObserved o
      → parent < o.fresh
      → IsObserved (open_span o h a parent now).1
  closes :
      {o : Observer} (s : ℕ) (ok : Bool) (now : ℕ)
      → IsObserved o
      → s < o.fresh
      → IsObserved (close_span o s ok now)

begins-IsGrown :
    (t : Option Tracer) → IsGrown (option_profiler (record new_observer { tracer = t }))
unfolding option_profiler
begins-IsGrown t = record {
  older = λ s p q. absurd (omega arith);
  stored = λ m e.
      let same : ◌≡◌ {A = List (Attr × ℕ)} [] m = cc in
      subst (All (λ (e : Attr × ℕ). (0 < e.1) × (e.1 < 1))) same tt;
}

IsObserved-IsGrown : (o : Observer) → IsObserved o → IsGrown o
IsObserved-IsGrown _ (begins t) = begins-IsGrown t
IsObserved-IsGrown _ (opens {o = o} h a parent now r low) =
    open_span-IsGrown o h a parent now (IsObserved-IsGrown o r) low
IsObserved-IsGrown _ (closes {o = o} s ok now r low) =
    close_span-IsGrown o s ok now (IsObserved-IsGrown o r) low

module _ (whole : WholeParts) (decimal : ℕ → String) {W : Type 0}
    (write : String → W → W × Bool) where
  -- With a profiler, at any time between calls of `openSpan` and `closeSpan`, `Profile` ends. It writes
  -- for each entry that is no subflow, in the order of the loop over the map, one line: the texts of
  -- the spans around it, the outermost first, and its own, with a semicolon between, then its cost
  -- in whole microseconds. It stops at the first write that fails, and returns an error exactly then.
  -- The loop goes through entries of the map.
  pub profile-write_lines :
      (order : List (Attr × ℕ) → List (Attr × ℕ)) (o : Observer) (m : List (Attr × ℕ)) (w : W)
      → ((P : Attr × ℕ → Type 0) (l : List (Attr × ℕ)) → All P l → All P (order l))
      → IsObserved o
      → o.profiler ≡ some m
      → (ls : List String) × IsDrawn whole decimal o.span (order m) ls
        × (profile whole decimal write order o w
            ≡ some (write_lines whole decimal o.span write ls w))
  unfolding profile
  profile-write_lines order o m w ranges observed e =
      let grown = IsObserved-IsGrown o observed in
      rw e (
        draw-write_lines whole decimal o.span write o.fresh (order m) w grown.older
          (ranges _ m (grown.stored m e)))
