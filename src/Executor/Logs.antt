-- ===== src/Executor/Logs.antt =====
-- Runs with a log: which goroutines of nodes were started, and whose functions were called.
use go_taskflow.Base.{
  ℕ, suc, ◌≤◌, ◌<◌, ◌^◌, ◌≡◌, List, [], ◌∷◌, ◌++◌, true, false, count, contains, length,
}
use go_taskflow.Memory.{Heap}
use go_taskflow.Memory.Writes.{CountersFit}
use go_taskflow.Queue.{Queue}
use go_taskflow.Sort.{Sort}
use go_taskflow.Executor.{System, Step, turn}
use go_taskflow.Executor.Within.{Within, stay, go}
use go_taskflow.Executor.Ledger.{started}
use go_taskflow.Executor.Static.{IsStatic}
use go_taskflow.Executor.Replies.{called}

-- The nodes and edges of a flow of static tasks: they mirror each other, those of the graph stay in
-- it, and the counters are bit patterns of an int32 that the dependents do not overflow.
pub record IsTaskFlow (h : Heap) (g : ℕ) : Type 0 where
  pub static : IsStatic h
  pub mirror :
      (a b : ℕ)
      → contains b (h.graph g).nodes ≡ true
      → count b (h.node a).successors ≡ count a (h.node b).dependents
  pub inside :
      (a b : ℕ)
      → contains a (h.graph g).nodes ≡ true
      → contains b (h.graph g).nodes ≡ false
      → count b (h.node a).successors ≡ 0
  pub above :
      (a b : ℕ)
      → contains a (h.graph g).nodes ≡ false
      → contains b (h.graph g).nodes ≡ true
      → count a (h.node b).dependents ≡ 0
  pub few : (b : ℕ) → length (h.node b).dependents < 2 ^ 32
  pub fits : CountersFit h

-- The calls, the last one first: each after the calls of all the dependents of its node.
abbrev pub IsOrdered : Heap → List ℕ → Type 0
IsOrdered h [] = Unit
IsOrdered h (b ∷ calls) =
    ((d : ℕ) → 1 ≤ count d (h.node b).dependents → 1 ≤ count d calls) × IsOrdered h calls

module _ (𝓠 : Queue ℕ) (𝓢 : Sort) where
  abbrev pub starts : {u v : System 𝓠 𝓢} → Step 𝓠 𝓢 u v → List ℕ
  starts (turn i t before after new d at acts goes) = started new

  abbrev pub calls : {u v : System 𝓠 𝓢} → Step 𝓠 𝓢 u v → List ℕ
  calls (turn i t before after new d at acts goes) = called t.node t.pc

  -- A run within the bounds of `wg`, with the nodes whose goroutines it started and the nodes whose
  -- functions it called, each time the last one first.
  pub data Logged (s : System 𝓠 𝓢) : List ℕ → List ℕ → System 𝓠 𝓢 → Type 0 where
    blank : Logged s [] [] s
    note :
        {begun done : List ℕ} {u v : System 𝓠 𝓢}
        → Logged s begun done u
        → u.core.wg < 2 ^ 32
        → (st : Step 𝓠 𝓢 u v) → Logged s (starts st ++ begun) (calls st ++ done) v

  pub Logged-Within :
      {s : System 𝓠 𝓢} {begun done : List ℕ} {u : System 𝓠 𝓢}
      → Logged s begun done u
      → Within 𝓠 𝓢 s u
  Logged-Within blank = stay
  Logged-Within (note l low st) = go (Logged-Within l) low st

  abbrev pub steps : {s u : System 𝓠 𝓢} {begun done : List ℕ} → Logged s begun done u → ℕ
  steps blank = 0
  steps (note l low st) = suc (steps l)
