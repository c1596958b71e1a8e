-- ===== src/Executor/Ledger.antt =====
-- executor.go in a flow of static tasks: what one node `b` has to do with a state, as numbers, and
-- how a step may change them.
use go_taskflow.Base.{
  ℕ, ◌+◌, ◌≡◌, refl, List, [], ◌∷◌, ◌++◌, Bool, true, false, if◌then◌else◌, ◌==◌, total, count,
  arith, total_around, contains, length,
}
use go_taskflow.Memory.{Heap, is_idle}
use go_taskflow.Queue.{Queue}
use go_taskflow.Sort.{Sort}
use go_taskflow.Executor.Goroutine.{
  settle, Pc, opening, checking, marking, handling, finishing, choosing, recovering, closing,
  setting_up, scheduling, putting, dropping, scanning, resetting, restoring, Thread,
}
use go_taskflow.Executor.Act.{Core}

-- The points that a goroutine of a static task, or the caller of `Run` behind the setup, stands at.
abbrev pub is_plain : Pc → Bool
is_plain (choosing choice) = false
is_plain (setting_up k pg) = false
is_plain (scheduling rest settle) = false
is_plain (putting n rest settle) = false
is_plain restoring = false
is_plain _ = true

-- Before the loop of `drop`.
abbrev pub is_early : Pc → Bool
is_early opening = true
is_early checking = true
is_early marking = true
is_early handling = true
is_early finishing = true
is_early recovering = true
is_early (closing ok) = true
is_early _ = false

-- How often a goroutine still has to take one from the counter of `b`, and to look at `b` in
-- `sche_successors`, and how often it holds `b` to be put into the queue.
module _ (h : Heap) (b : ℕ) where
  abbrev pub owes_at : ℕ → Pc → ℕ
  owes_at a (dropping rest) = count b rest
  owes_at a pc = if is_early pc then count b (h.node a).successors else 0

  abbrev pub scans_at : ℕ → Pc → ℕ
  scans_at a (dropping rest) = count b (h.node a).successors
  scans_at a (scanning rest cand) = count b rest
  scans_at a pc = if is_early pc then count b (h.node a).successors else 0

  abbrev pub holds_at : Pc → ℕ
  holds_at (scheduling rest k) = count b rest
  holds_at (putting n rest k) = count b (n ∷ rest)
  holds_at (scanning rest cand) = count b cand
  holds_at (resetting cand) = count b cand
  holds_at _ = 0

  -- Before `node.setup()`, which adds to the counter again.
  abbrev pub before_setup : Pc → Bool
  before_setup (dropping rest) = true
  before_setup (scanning rest cand) = true
  before_setup (resetting cand) = true
  before_setup pc = is_early pc

  abbrev pub owes : Thread → ℕ
  owes t = owes_at t.node t.pc

  abbrev pub scans : Thread → ℕ
  scans t = scans_at t.node t.pc

  abbrev pub holds : Thread → ℕ
  holds t = holds_at t.pc

  -- The dependents that a task of graph `g` waits for.
  abbrev pub needs : ℕ → ℕ
  needs g = if contains b (h.graph g).nodes then length (h.node b).dependents else 0

  abbrev pub unset : ℕ → Thread → ℕ
  unset g t = if t.node == b then if before_setup t.pc then needs g else 0 else 0

-- The counter and the state of `b`, how often it is in the queue or held for it, and what the
-- goroutines still have to do.
pub record Ledger : Type 0 where
  pub counter : ℕ
  pub idle : Bool
  pub out : ℕ
  pub due : ℕ
  pub ahead : ℕ
  pub unready : ℕ

module _ (𝓠 : Queue ℕ) (𝓢 : Sort) (h : Heap) (g b : ℕ) where
  abbrev pub ledger : Core 𝓠 𝓢 → List Thread → Ledger
  ledger c ts = record {
    counter = (c.heap.node b).join_counter;
    idle = is_idle (c.heap.node b).state;
    out = count b (𝓠.contents c.wq) + total (holds h b) ts;
    due = total (owes h b) ts;
    ahead = total (scans h b) ts;
    unready = total (unset h b g) ts;
  }

-- The goroutine that a step starts stands behind the one that took the step.
abbrev pub started : List Thread → List ℕ
started (t ∷ r ∷ ts) = r.node ∷ []
started _ = []

-- What other goroutines hold and have to do is added on both sides.
abbrev pub plus : Ledger → ℕ → ℕ → ℕ → ℕ → Ledger
plus l out due ahead unready = record l {
  out = l.out + out;
  due = l.due + due;
  ahead = l.ahead + ahead;
  unready = l.unready + unready;
}

module _ (𝓠 : Queue ℕ) (𝓢 : Sort) (h : Heap) (g b : ℕ) where
  pub ledger-plus :
      (c : Core 𝓠 𝓢) (before new after : List Thread)
      → ledger 𝓠 𝓢 h g b c (before ++ (new ++ after))
        ≡ plus
            (ledger 𝓠 𝓢 h g b c new)
            (total (holds h b) before + total (holds h b) after)
            (total (owes h b) before + total (owes h b) after)
            (total (scans h b) before + total (scans h b) after)
            (total (unset h b g) before + total (unset h b g) after)
  ledger-plus c before new after =
      let out : count b (𝓠.contents c.wq) + total (holds h b) (before ++ (new ++ after))
          ≡ count b (𝓠.contents c.wq)
            + total (holds h b) new
            + (total (holds h b) before + total (holds h b) after) =
        omega (arith, total_around (holds h b) before new after) in
      rw
        (
          out,
          total_around (owes h b) before new after,
          total_around (scans h b) before new after,
          total_around (unset h b g) before new after,
        )
        refl
