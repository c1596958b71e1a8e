-- ===== src/Executor/Books.antt =====
-- The books on one task: in a flow of static tasks, what its counter and its state say on who has
-- run, and that every change of the ledger keeps it so.
use go_taskflow.Base.{
  ℕ, ◌+◌, ◌≤◌, ◌<◌, ◌^◌, ◌≡◌, List, ◌++◌, Bool, true, if◌then◌else◌, ◌==◌, arith, total, Bool-cases,
  inl, inr, count, contains, int32,
}
use go_taskflow.Memory.{Heap}
use go_taskflow.Executor.Ledger.{Ledger, needs}
use go_taskflow.Executor.Changes.{Move, rests, marks, drops, passes, claims, resets, loses, begins}

module _ (h : Heap) (g b : ℕ) where
  -- How often the tasks whose goroutines were started take from the counter of `b`, all in all.
  abbrev pub given : List ℕ → ℕ
  given begun = total (λ a. count b (h.node a).successors) begun

  abbrev pub is_listed : Bool
  is_listed = contains b (h.graph g).nodes

  -- The node is started, queued or held at most once, all together, and never if it is not of the
  -- graph.
  abbrev pub IsSingle : Ledger → List ℕ → Type 0
  IsSingle l begun = count b begun + l.out ≤ (if is_listed then 1 else 0)

  -- What `node.setup()` has added or will add to the counter again.
  abbrev pub again : List ℕ → ℕ
  again begun = if count b begun == 0 then 0 else needs h b g

  pub record IsBalanced (l : Ledger) (begun : List ℕ) : Type 0 where
    pub single : IsSingle l begun
    pub enough : given begun ≤ needs h b g
    pub due : l.due ≤ given begun
    pub ahead : l.ahead ≤ given begun
    pub unready : l.unready ≤ again begun
    pub fits : l.counter < 2 ^ 32
    -- The counter is what `setup` put there, less what the dependents took so far.
    pub books :
        1 ≤ needs h b g
        → int32 (l.counter + given begun + l.unready) ≡ int32 (needs h b g + again begun + l.due)
    -- It is scheduled only when all dependents have run and have taken theirs.
    pub paid : 1 ≤ count b begun + l.out → (given begun ≡ needs h b g) × (l.due ≡ 0)
    pub idle : 1 ≤ needs h b g → l.idle ≡ true → (l.out ≡ 0) × (l.unready ≡ 0)

  module _ (canceled : Bool) (l m : Ledger) (begun : List ℕ) (few : needs h b g < 2 ^ 32)
      (keeps : IsBalanced l begun) where
    needs_some : 1 ≤ l.ahead → 1 ≤ needs h b g
    needs_some n = omega (arith, keeps.enough, keeps.ahead)

    needs-is_listed : 1 ≤ needs h b g → is_listed ≡ true
    needs-is_listed n = ground arith

    -- An idle task with its counter at zero waits for nobody and was not scheduled before.
    ripe :
        1 ≤ needs h b g
        → l.counter ≡ 0
        → l.idle ≡ true
        → (count b begun + l.out ≡ 0) × (given begun ≡ needs h b g) × (l.due ≡ 0)
    ripe n z y =
        let (out, unready) = keeps.idle n y in
        let books = keeps.books n in
        let enough = keeps.enough in
        let due = keeps.due in
        elim (Bool-cases (count b begun == 0)) [
          | inl none_yet ↦ (ground arith, ground arith, ground arith)
          | inr some_yet ↦ let p = keeps.paid (ground arith) in absurd (ground arith)
        ]

    pub Move-IsSingle : (new : List ℕ) → Move h g b canceled l m new → IsSingle m (new ++ begun)
    Move-IsSingle _ (rests c i o d a u) = ground (arith, keeps.single)
    Move-IsSingle _ (marks c o d a u n i) = ground (arith, keeps.single)
    Move-IsSingle _ (drops c i o d a u n) = ground (arith, keeps.single)
    Move-IsSingle _ (passes c i o d a u n) = ground (arith, keeps.single)
    Move-IsSingle _ (claims z e c i o d a u) =
        let n = needs_some (omega arith) in ground (arith, ripe n z e, needs-is_listed n)
    Move-IsSingle _ (resets c low i o d a u) = ground (arith, keeps.single)
    Move-IsSingle _ (loses e c i o d a u) = ground (arith, keeps.single)
    Move-IsSingle _ (begins x c i o d a u) = ground (arith, keeps.single)

    pub Move-IsBalanced :
        (new : List ℕ)
        → given (new ++ begun) ≤ needs h b g
        → Move h g b canceled l m new
        → IsBalanced m (new ++ begun)
    Move-IsBalanced _ e (rests c i o d a u) = record {
      single = ground (arith, keeps.single);
      enough = e;
      due = ground (arith, keeps.due);
      ahead = ground (arith, keeps.ahead);
      unready = ground (arith, keeps.unready);
      fits = ground (arith, keeps.fits);
      books = λ n. ground (arith, keeps.books n);
      paid = λ n.
          let n' : 1 ≤ count b begun + l.out = omega arith in
          let p = keeps.paid n' in (p.0, omega arith);
      idle = λ n y.
          let y' : l.idle ≡ true = cc in let p = keeps.idle n y' in (omega arith, omega arith);
    }
    Move-IsBalanced _ e (marks c o d a u n i) = record {
      single = ground (arith, keeps.single);
      enough = e;
      due = ground (arith, keeps.due);
      ahead = ground (arith, keeps.ahead);
      unready = ground (arith, keeps.unready);
      fits = ground (arith, keeps.fits);
      books = λ k. ground (arith, keeps.books k);
      paid = λ k. let p = keeps.paid (omega arith) in (p.0, omega arith);
      idle = λ k y. absurd (cc);
    }
    Move-IsBalanced _ e (drops c i o d a u n) = record {
      single = ground (arith, keeps.single);
      enough = e;
      due = ground (arith, keeps.due);
      ahead = ground (arith, keeps.ahead);
      unready = ground (arith, keeps.unready);
      fits = ground arith;
      books = λ k. ground (arith, keeps.books k);
      paid = λ k. let p = keeps.paid (omega arith) in (p.0, omega arith);
      idle = λ k y. let p = keeps.idle k (cc) in (omega arith, omega arith);
    }
    Move-IsBalanced _ e (passes c i o d a u n) = record {
      single = ground (arith, keeps.single);
      enough = e;
      due = ground (arith, keeps.due);
      ahead = ground (arith, keeps.ahead);
      unready = ground (arith, keeps.unready);
      fits = ground (arith, keeps.fits);
      books = λ k. ground (arith, keeps.books k);
      paid = λ k. let p = keeps.paid (omega arith) in (p.0, omega arith);
      idle = λ k y. let p = keeps.idle k (cc) in (omega arith, omega arith);
    }
    Move-IsBalanced _ e (claims z y c i o d a u) =
        let r = λ (k : 1 ≤ needs h b g). ripe k z y in
        let n = needs_some (omega arith) in
        record {
          single = Move-IsSingle _ (claims z y c i o d a u);
          enough = e;
          due = ground (arith, keeps.due);
          ahead = ground (arith, keeps.ahead);
          unready = ground (arith, keeps.unready);
          fits = ground (arith, keeps.fits);
          books = λ k. ground (arith, keeps.books k);
          paid = λ k. let p = r n in (p.1, omega arith);
          idle = λ k y'. absurd (cc);
        }
    Move-IsBalanced _ e (resets c low i o d a u) = record {
      single = ground (arith, keeps.single);
      enough = e;
      due = ground (arith, keeps.due);
      ahead = ground (arith, keeps.ahead);
      unready = ground (arith, keeps.unready);
      fits = low;
      books = λ k. let c' = c k in ground (arith, keeps.books k);
      paid = λ k. let p = keeps.paid (omega arith) in (p.0, omega arith);
      idle = λ k y. ground (arith, keeps.unready, keeps.single);
    }
    Move-IsBalanced _ e (loses y c i o d a u) = record {
      single = ground (arith, keeps.single);
      enough = e;
      due = ground (arith, keeps.due);
      ahead = ground (arith, keeps.ahead);
      unready = ground (arith, keeps.unready);
      fits = ground (arith, keeps.fits);
      books = λ k. ground (arith, keeps.books k);
      paid = λ k. let p = keeps.paid (omega arith) in (p.0, omega arith);
      idle = λ k y'. let p = keeps.idle k (cc) in (omega arith, omega arith);
    }
    Move-IsBalanced _ e (begins x c i o d a u) = elim (Bool-cases (x == b)) [
      | inl same ↦
          let single = keeps.single in
          let first : count b begun ≡ 0 = ground arith in
          let was = keeps.paid (ground arith) in
          let unready = keeps.unready in
          let free : l.unready ≡ 0 = ground arith in
          let books = keeps.books in
          record {
            single = ground arith;
            enough = e;
            due = ground arith;
            ahead = ground (arith, keeps.ahead);
            unready = ground arith;
            fits = ground (arith, keeps.fits);
            books = λ k. ground (arith, keeps.books k);
            paid = λ k. (ground arith, ground arith);
            idle = λ k y. let p = keeps.idle k (cc) in absurd (ground arith);
          }
      | inr other ↦ record {
        single = ground (arith, keeps.single);
        enough = e;
        due = ground (arith, keeps.due);
        ahead = ground (arith, keeps.ahead);
        unready = ground (arith, keeps.unready);
        fits = ground (arith, keeps.fits);
        books = λ k. ground (arith, keeps.books k);
        paid = λ k. let p = keeps.paid (ground arith) in (ground arith, ground arith);
        idle = λ k y. let p = keeps.idle k (cc) in (ground arith, ground arith);
      }
    ]
