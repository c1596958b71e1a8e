-- ===== src/Executor/Watching.antt =====
-- Runs in which the caller of `Run` sleeps in the loop of `invokeGraph` until somebody signals the
-- `scheCond` of its graph, and what holds while it sleeps.
use mathlib.Core.Path.{subst}
use go_taskflow.Base.{
  ℕ, ◌≤◌, ◌<◌, ◌^◌, ◌≡◌, ◌≢◌, refl, sym, ap, ◌∙◌, List, [], ◌∷◌, ◌++◌, Bool, true, false, not, ◌&&◌,
  Bool-cases, inl, inr, if◌then◌else◌, ◌==◌, arith, some, All, All-split, total, total-append,
  total_around,
}
use go_taskflow.Memory.{Heap, nil}
use go_taskflow.Queue.{Queue}
use go_taskflow.Sort.{Sort}
use go_taskflow.Executor.{System, turn}
use go_taskflow.Executor.Goroutine.{Pc, setting_up, looping, scheduling, Thread, Input}
use go_taskflow.Executor.Act.{Core, act, Ensures, may_go_on}
use go_taskflow.Executor.Weights.{in_graph, held}
use go_taskflow.Executor.Homes.{IsAtHome, IsClosed}
use go_taskflow.Executor.Within.{Within, stay, go, IsSound, calls}
use go_taskflow.Executor.Outside.{IsAtHome-in_graph, IsAtHome-IsMember}
use go_taskflow.Executor.Callers.{act-calls}
use go_taskflow.Executor.Progress.{IsRunnable, Within-IsSound}
use go_taskflow.Executor.Sound.{Step-IsSound}
use go_taskflow.Executor.Holders.{holds_graph, signals, act-Keeps, act-SameTest}

-- A goroutine of the caller that does not stand in the loop of `invokeGraph`.
abbrev pub is_looping : Pc → Bool
is_looping (looping k pg) = true
is_looping _ = false

abbrev pub strays : Thread → ℕ
strays t = if t.node == nil then (if is_looping t.pc then 0 else 1) else 0

pub looping_cases : (pc : Pc) → is_looping pc ≡ true → (k : ℕ) × (pg : ℕ) × (pc ≡ looping k pg)
looping_cases (looping k pg) e = (k, pg, refl)
looping_cases (scheduling rest k) e = absurd cc
looping_cases _ e = absurd cc

pub strays-le-calls : (l : List Thread) → total strays l ≤ total calls l
strays-le-calls [] = omega arith
strays-le-calls (t ∷ l) = ground (arith, strays-le-calls l)

module _ (𝓠 : Queue ℕ) (𝓢 : Sort) where
  -- A system, and whether the caller of `Run` waits on the `scheCond` of its graph.
  pub record Watched : Type 0 where
    pub system : System 𝓠 𝓢
    pub asleep : Bool

  -- A goroutine takes a step, which may wake the caller; the caller takes none while it waits. Or
  -- the caller finds in its loop that it may not go on, and waits.
  pub data Moves (g : ℕ) (w w' : Watched) : Type 0 where
    runs :
        (i : Input) (t : Thread) (before after new : List Thread) (c : Core 𝓠 𝓢)
        → w.system.threads ≡ before ++ t ∷ after
        → act 𝓠 𝓢 i w.system.core t t.pc ≡ some (c, new)
        → (w.asleep ≡ true → t.node ≢ nil)
        → w' ≡ record {
          system = record { core = c; threads = before ++ (new ++ after) };
          asleep = w.asleep && not (signals 𝓠 𝓢 g w.system.core t t.pc);
        }
        → Moves g w w'
    sleeps :
        (t : Thread) (before after : List Thread) (pg : ℕ)
        → w.system.threads ≡ before ++ t ∷ after
        → t.pc ≡ looping g pg
        → w.system.core.mu ≡ false
        → may_go_on 𝓠 𝓢 w.system.core g ≡ false
        → w' ≡ record w { asleep = true }
        → Moves g w w'

  -- The states that such moves reach while the counter of `wg` stays within its 32 bits.
  pub data Reaches (g : ℕ) (s : System 𝓠 𝓢) : Watched → Type 0 where
    awake : Reaches g s record { system = s; asleep = false }
    move :
        {w w' : Watched} → Reaches g s w → w.system.core.wg < 2 ^ 32 → Moves g w w' → Reaches g s w'

  pub Reaches-Within :
      {g : ℕ} {s : System 𝓠 𝓢} {w : Watched} → Reaches g s w → Within 𝓠 𝓢 s w.system
  Reaches-Within awake = stay
  Reaches-Within {s = s} (move r low (runs i t before after new c e ok free same)) =
      subst (λ x. Within 𝓠 𝓢 s x.system) (sym same)
        (go (Reaches-Within r) low (turn i t before after new c e ok refl))
  Reaches-Within {s = s} (move r low (sleeps t before after pg e at free quiet same)) =
      subst (λ x. Within 𝓠 𝓢 s x.system) (sym same) (Reaches-Within r)

  -- A run in which the caller never waits.
  pub Within-Reaches :
      {g : ℕ} {s u : System 𝓠 𝓢}
      → Within 𝓠 𝓢 s u
      → Reaches g s record { system = u; asleep = false }
  Within-Reaches stay = awake
  Within-Reaches (go {u = u} w low (turn i t before after new c e ok same)) =
      move (Within-Reaches w) low (
        runs i t before after new c e ok (λ z. absurd cc)
          (ap (λ x. record { system = x; asleep = false }) same))

  -- While the caller waits, it stands in its loop, and where it could go on again a goroutine that
  -- will signal is left.
  pub record IsWatched (h : Heap) (g : ℕ) (s : System 𝓠 𝓢) : Type 0 where
    pub sound : IsSound 𝓠 𝓢 h g s
    pub waits : total strays s.threads ≡ 0
    pub held_up : may_go_on 𝓠 𝓢 s.core g ≡ true → 1 ≤ total holds_graph s.threads

  kept-held :
      (h : Heap) (g : ℕ) (i : Input) (s : System 𝓠 𝓢) (t : Thread) (before after new : List Thread)
      (c : Core 𝓠 𝓢)
      → IsWatched h g s
      → s.threads ≡ before ++ t ∷ after
      → act 𝓠 𝓢 i s.core t t.pc ≡ some (c, new)
      → (s.core.heap.node t.node).g ≡ g
      → in_graph t.pc ≡ false
      → signals 𝓠 𝓢 g s.core t t.pc ≡ false
      → may_go_on 𝓠 𝓢 c g ≡ true
      → 1 ≤ total holds_graph (before ++ (new ++ after))
  kept-held h g i s t before after new c a at ok home out quiet goes =
      let flat = a.sound.accounted.flat in
      let sum = total_around holds_graph before new after in
      elim (Bool-cases (held t.pc)) [
        | inl holds ↦
            let kept : 1 ≤ total holds_graph new =
              subst (Ensures 𝓠 𝓢 (λ d new. 1 ≤ total holds_graph new)) ok
                (act-Keeps 𝓠 𝓢 g i s.core t t.pc flat home out holds quiet) in
            omega arith
        | inr done ↦
            let same : may_go_on 𝓠 𝓢 c g ≡ may_go_on 𝓠 𝓢 s.core g =
              subst (Ensures 𝓠 𝓢 (λ d new. may_go_on 𝓠 𝓢 d g ≡ may_go_on 𝓠 𝓢 s.core g)) ok
                (act-SameTest 𝓠 𝓢 g i s.core t t.pc out done) in
            let old = a.held_up (sym same ∙ goes) in
            let was = ap (total holds_graph) at ∙ total-append holds_graph before (t ∷ after) in
            let none_here : holds_graph t ≡ 0 = ap (λ b. if b then 1 else 0) done in omega arith
      ]

  runs-IsWatched :
      (h : Heap) (g : ℕ) (i : Input) (s : System 𝓠 𝓢) (t : Thread) (before after new : List Thread)
      (c : Core 𝓠 𝓢)
      → IsClosed h g
      → s.core.wg < 2 ^ 32
      → IsWatched h g s
      → s.threads ≡ before ++ t ∷ after
      → act 𝓠 𝓢 i s.core t t.pc ≡ some (c, new)
      → t.node ≢ nil
      → signals 𝓠 𝓢 g s.core t t.pc ≡ false
      → IsWatched h g record { core = c; threads = before ++ (new ++ after) }
  runs-IsWatched h g i s t before after new c closed low a at ok real quiet =
      let (h0, h1, h2) =
        All-split (λ r. IsAtHome h g r.node r.pc) before t after
          (subst (All (λ r. IsAtHome h g r.node r.pc)) at a.sound.at_home) in
      let shape = a.sound.shape.node t.node in
      let member = IsAtHome-IsMember h g t.node t.pc h1 real in
      let home : (s.core.heap.node t.node).g ≡ g = ground (arith, member.1) in
      record {
        sound = Step-IsSound 𝓠 𝓢 h g closed (turn i t before after new c at ok refl) low a.sound;
        waits =
            let same : total calls new ≡ calls t =
              subst (Ensures 𝓠 𝓢 (λ d new. total calls new ≡ calls t)) ok
                (act-calls 𝓠 𝓢 h g i s.core t t.pc h1 a.sound.queued) in
            let was = ap (total strays) at ∙ total-append strays before (t ∷ after) in
            let none : calls t ≡ 0 = ground arith in
            omega (arith, a.waits, total_around strays before new after, strays-le-calls new);
        held_up =
            kept-held h g i s t before after new c a at ok home
              (IsAtHome-in_graph h g t.node t.pc h1 real) quiet;
      }

  sleeps-IsWatched :
      (h : Heap) (g : ℕ) (s : System 𝓠 𝓢) (t : Thread) (before after : List Thread) (pg : ℕ)
      → IsSound 𝓠 𝓢 h g s
      → s.threads ≡ before ++ t ∷ after
      → t.pc ≡ looping g pg
      → may_go_on 𝓠 𝓢 s.core g ≡ false
      → IsWatched h g s
  sleeps-IsWatched h g s t before after pg a at looped quiet =
      let (h0, h1, h2) =
        All-split (λ r. IsAtHome h g r.node r.pc) before t after
          (subst (All (λ r. IsAtHome h g r.node r.pc)) at a.at_home) in
      let (root, same) = subst (IsAtHome h g t.node) looped h1 in
      record {
        sound = a;
        waits =
            let one : calls t ≡ 1 = ground arith in
            let here : strays t ≡ 0 =
              ap (λ p. if t.node == nil then (if is_looping p then 0 else 1) else 0) looped
              ∙ ground arith in
            let few = strays-le-calls before in
            let few' = strays-le-calls after in
            omega (
              arith,
              a.one_caller,
              ap (total strays) at,
              ap (total calls) at,
              total-append strays before (t ∷ after),
              total-append calls before (t ∷ after),
            );
        held_up = λ goes. absurd cc;
      }

  not_at_start :
      {s u : System 𝓠 𝓢} (a : IsRunnable 𝓠 𝓢 s) (t : Thread) (before after : List Thread) (k pg : ℕ)
      → u ≡ s
      → u.threads ≡ before ++ t ∷ after
      → t.pc ≡ looping k pg
      → ⊥
  not_at_start {s} {u} a t before after k pg start at looped =
      let first : List Thread =
        record { node = nil; parent = nil; span = nil; pc = setting_up a.starting.graph nil }
        ∷ [] in
      let at_first : first ≡ before ++ t ∷ after =
        sym a.starting.caller ∙ sym (ap (λ (x : System 𝓠 𝓢). x.threads) start) ∙ at in
      let (e0, e1, e2) =
        All-split (λ r. is_looping r.pc ≡ false) before t after
          (subst (All (λ r. is_looping r.pc ≡ false)) at_first (refl, tt)) in
      let looks : is_looping t.pc ≡ true = ap is_looping looped in absurd cc

  pub Reaches-IsWatched :
      {s : System 𝓠 𝓢} (a : IsRunnable 𝓠 𝓢 s) {w : Watched}
      → Reaches a.starting.graph s w
      → w.asleep ≡ true
      → IsWatched s.core.heap a.starting.graph w.system
  Reaches-IsWatched a awake e = absurd cc
  Reaches-IsWatched {s} a (move {w = w} r low (runs i t before after new c at ok free same)) e =
      let still : (w.asleep && not (signals 𝓠 𝓢 a.starting.graph w.system.core t t.pc)) ≡ true =
        sym (ap (λ x. x.asleep) same) ∙ e in
      let slept : w.asleep ≡ true = ground arith in
      subst (λ x. IsWatched s.core.heap a.starting.graph x.system) (sym same)
        (runs-IsWatched s.core.heap a.starting.graph i w.system t before after new c a.closed low
          (Reaches-IsWatched a r slept) at ok (free slept) (ground arith))
  Reaches-IsWatched {s} a (move {w = w} r low (sleeps t before after pg at looped free quiet same))
        e =
      elim (Within-IsSound 𝓠 𝓢 a (Reaches-Within r)) [
        | inl start ↦ absurd (not_at_start a t before after a.starting.graph pg start at looped)
        | inr sound ↦
            subst (λ x. IsWatched s.core.heap a.starting.graph x.system) (sym same)
              (sleeps-IsWatched s.core.heap a.starting.graph w.system t before after pg sound at
                looped quiet)
      ]
