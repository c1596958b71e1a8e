-- ===== src/Executor/Awake.antt =====
-- What the ledger of a task says while the graph is not canceled: the task is not lost, since who
-- takes the last count from its counter will look at it.
use go_taskflow.Base.{ℕ, ◌+◌, ◌≤◌, ◌≡◌, List, ◌++◌, Bool, true, false, arith, count}
use go_taskflow.Memory.{Heap}
use go_taskflow.Executor.Ledger.{Ledger, needs}
use go_taskflow.Executor.Changes.{Move, rests, marks, drops, passes, claims, resets, loses, begins}
use go_taskflow.Executor.Books.{is_listed, IsBalanced}

module _ (h : Heap) (g b : ℕ) where
  pub record IsAwake (l : Ledger) (begun : List ℕ) : Type 0 where
    -- A task that nobody took is idle.
    pub rested : 1 ≤ needs h b g → count b begun + l.out ≡ 0 → l.idle ≡ true
    -- And if its counter is zero, somebody will look at it.
    pub watched : 1 ≤ needs h b g → count b begun + l.out ≡ 0 → l.counter ≡ 0 → 1 ≤ l.ahead
    -- An entry was taken at the start.
    pub entered : is_listed h g b ≡ true → needs h b g ≡ 0 → 1 ≤ count b begun + l.out

  module _ (canceled : Bool) (l m : Ledger) (begun : List ℕ) (live : canceled ≡ false)
      (keeps : IsBalanced h g b l begun) (awake : IsAwake l begun) where
    pub Move-IsAwake : (new : List ℕ) → Move h g b canceled l m new → IsAwake m (new ++ begun)
    Move-IsAwake _ (rests c i o d a u) = record {
      rested = λ n f. ground (arith, awake.rested n);
      watched = λ n f z. ground (arith, awake.watched n);
      entered = λ n f. ground (arith, awake.entered n f);
    }
    Move-IsAwake _ (marks c o d a u n i) = record {
      rested = λ k f. absurd (ground (arith, keeps.unready));
      watched = λ k f z. ground (arith, awake.watched k);
      entered = λ k f. ground (arith, awake.entered k f);
    }
    Move-IsAwake _ (drops c i o d a u n) = record {
      rested = λ k f. ground (arith, awake.rested k);
      watched = λ k f z. omega arith;
      entered = λ k f. ground (arith, awake.entered k f);
    }
    Move-IsAwake _ (passes c i o d a u n) = record {
      rested = λ k f. ground (arith, awake.rested k);
      watched =
          λ k f z. let idle : l.idle ≡ true = awake.rested k (omega arith) in absurd (ground arith);
      entered = λ k f. ground (arith, awake.entered k f);
    }
    Move-IsAwake _ (claims z y c i o d a u) = record {
      rested = λ k f. absurd (omega arith);
      watched = λ k f z'. absurd (omega arith);
      entered = λ k f. ground (arith, awake.entered k f);
    }
    Move-IsAwake _ (resets c low i o d a u) = record {
      rested = λ k f. i;
      watched = λ k f z. absurd (ground (arith, keeps.unready));
      entered = λ k f. ground (arith, awake.entered k f);
    }
    Move-IsAwake _ (loses y c i o d a u) = absurd (cc)
    Move-IsAwake _ (begins x c i o d a u) = record {
      rested = λ k f. ground (arith, awake.rested k);
      watched = λ k f z. ground (arith, awake.watched k);
      entered = λ k f. ground (arith, awake.entered k f);
    }
