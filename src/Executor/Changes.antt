-- ===== src/Executor/Changes.antt =====
-- How a step of a flow of static tasks may change the ledger of a task.
use go_taskflow.Base.{
  ℕ, ◌+◌, ◌≤◌, ◌<◌, ◌^◌, ◌≡◌, List, [], ◌∷◌, Bool, true, false, ◌&&◌, if◌then◌else◌, ◌==◌, count,
  int32, decr32, arith,
}
use go_taskflow.Memory.{Heap}
use go_taskflow.Executor.Ledger.{Ledger, needs, plus}

-- How a step changes the ledger of node `b`, where `canceled` is that of the graph before the step,
-- and the list holds the node whose goroutine the step starts.
pub data Move (h : Heap) (g b : ℕ) (canceled : Bool) (l m : Ledger) : List ℕ → Type 0 where
  rests :
      m.counter ≡ l.counter
      → m.idle ≡ l.idle
      → m.out ≡ l.out
      → m.due ≡ l.due
      → m.ahead ≡ l.ahead
      → m.unready ≡ l.unready
      → Move h g b canceled l m []
  -- The goroutine of `b` changes the state of `b` before `node.setup()`.
  marks :
      m.counter ≡ l.counter
      → m.out ≡ l.out
      → m.due ≡ l.due
      → m.ahead ≡ l.ahead
      → m.unready ≡ l.unready
      → needs h b g ≤ l.unready
      → m.idle ≡ false
      → Move h g b canceled l m []
  drops :
      m.counter ≡ decr32 l.counter
      → m.idle ≡ l.idle
      → m.out ≡ l.out
      → m.due + 1 ≡ l.due
      → m.ahead ≡ l.ahead
      → m.unready ≡ l.unready
      → 1 ≤ l.ahead
      → Move h g b canceled l m []
  -- `sche_successors` looks at `b` and leaves it.
  passes :
      m.counter ≡ l.counter
      → m.idle ≡ l.idle
      → m.out ≡ l.out
      → m.due ≡ l.due
      → m.ahead + 1 ≡ l.ahead
      → m.unready ≡ l.unready
      → (l.counter == 0) && l.idle ≡ false
      → Move h g b canceled l m []
  -- `sche_successors` takes `b` as a candidate.
  claims :
      l.counter ≡ 0
      → l.idle ≡ true
      → m.counter ≡ l.counter
      → m.idle ≡ false
      → m.out ≡ l.out + 1
      → m.due ≡ l.due
      → m.ahead + 1 ≡ l.ahead
      → m.unready ≡ l.unready
      → Move h g b canceled l m []
  resets :
      (1 ≤ needs h b g → m.counter ≡ int32 (l.counter + needs h b g))
      → m.counter < 2 ^ 32
      → m.idle ≡ true
      → m.out ≡ l.out
      → m.due ≡ l.due
      → m.ahead ≡ l.ahead
      → m.unready + needs h b g ≡ l.unready
      → Move h g b canceled l m []
  -- A canceled graph schedules no node.
  loses :
      canceled ≡ true
      → m.counter ≡ l.counter
      → m.idle ≡ l.idle
      → m.out ≤ l.out
      → m.due ≡ l.due
      → m.ahead ≡ l.ahead
      → m.unready ≡ l.unready
      → Move h g b canceled l m []
  begins :
      (a : ℕ)
      → m.counter ≡ l.counter
      → m.idle ≡ l.idle
      → m.out + (if a == b then 1 else 0) ≡ l.out
      → m.due ≡ l.due + count b (h.node a).successors
      → m.ahead ≡ l.ahead + count b (h.node a).successors
      → m.unready ≡ l.unready + (if a == b then needs h b g else 0)
      → Move h g b canceled l m (a ∷ [])

module _ (h : Heap) (g b : ℕ) (canceled : Bool) (l m : Ledger) (o d a u : ℕ) where
  pub Move-plus :
      (new : List ℕ)
      → Move h g b canceled l m new
      → Move h g b canceled (plus l o d a u) (plus m o d a u) new
  Move-plus _ (rests c i e f p q) =
      rests c i (omega arith) (omega arith) (omega arith) (omega arith)
  Move-plus _ (marks c e f p q n i) =
      marks c (omega arith) (omega arith) (omega arith) (omega arith) (omega arith) i
  Move-plus _ (drops c i e f p q n) =
      drops c i (omega arith) (omega arith) (omega arith) (omega arith) (omega arith)
  Move-plus _ (passes c i e f p q n) =
      passes c i (omega arith) (omega arith) (omega arith) (omega arith) n
  Move-plus _ (claims z y c i e f p q) =
      claims z y c i (omega arith) (omega arith) (omega arith) (omega arith)
  Move-plus _ (resets c low i e f p q) =
      resets c low i (omega arith) (omega arith) (omega arith) (omega arith)
  Move-plus _ (loses y c i e f p q) =
      loses y c i (omega arith) (omega arith) (omega arith) (omega arith)
  Move-plus _ (begins x c i e f p q) =
      begins x c i (omega arith) (omega arith) (omega arith) (omega arith)
