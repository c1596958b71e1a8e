-- ===== src/Copool/Workers.antt =====
-- What every run of a pool keeps.
use mathlib.Core.Path.{subst}
use mathlib.Core.List.{append_assoc, append-nil}
use go_taskflow.Base.{
  ℕ, ◌+◌, ◌<◌, ◌≤◌, ◌≡◌, ◌≢◌, refl, sym, ap, ◌∙◌, List, [], ◌∷◌, ◌++◌, Bool, true, false, not, ◌&&◌,
  ◌||◌, if◌then◌else◌, ◌==◌, ltb, int32, arith, Bool-cases, inl, inr, total, total-append, length,
  length-append,
}
use go_taskflow.Queue.{Queue}
use go_taskflow.Copool.{
  Role, entering, queueing, fetching, running, Copool, Pool, PoolRun, idle, called, acted, pool_act,
  queue_task, fetch_task, run_task, puts, takes,
}

-- A worker is in its loop.
abbrev pub works : Role → ℕ
works fetching = 1
works (running f) = 1
works _ = 0

-- A task that `corun` counts and that is not in the queue.
abbrev pub runs : Role → ℕ
runs (queueing f) = 1
runs (running f) = 1
runs _ = 0

module _ (𝓠 : Queue ℕ) where
  -- One worker may always be there.
  abbrev pub room : Copool 𝓠 → ℕ
  room p = if p.cap == 0 then 1 else p.cap

  pub record IsStaffed (put taken : List ℕ) (s : Pool 𝓠) : Type 0 where
    pub workers : s.copool.exited ≡ false → s.copool.coworker ≡ total works s.roles
    pub bounded : s.copool.coworker ≤ room s.copool
    pub staffed : s.copool.exited ≡ false → 𝓠.contents s.copool.task_q ≢ [] → 0 < s.copool.coworker
    pub counted :
        s.copool.exited ≡ false
        → s.copool.corun ≡ int32 (length (𝓠.contents s.copool.task_q) + total runs s.roles)
    pub in_turn : put ≡ taken ++ 𝓠.contents s.copool.task_q

  -- What a step of a goroutine keeps, where the others count `others` workers and `n` tasks.
  abbrev Kept : Copool 𝓠 → Role → ℕ → ℕ → Copool 𝓠 × List Role → Type 0
  Kept p r others n (p', new) =
      (p'.exited ≡ false → p'.coworker ≡ total works new + others)
      × (p'.coworker ≤ room p')
      × (p'.exited ≡ false → 𝓠.contents p'.task_q ≢ [] → 0 < p'.coworker)
      × (p'.exited ≡ false
          → p'.corun ≡ int32 (length (𝓠.contents p'.task_q) + (total runs new + n)))
      × (𝓠.contents p.task_q ++ puts 𝓠 r ≡ takes 𝓠 new ++ 𝓠.contents p'.task_q)

  module _ (p : Copool 𝓠) (others n : ℕ) (low : p.coworker ≤ room p) where
    queue_task-Kept :
        (f : ℕ)
        → p.coworker ≡ others
        → p.corun ≡ int32 (length (𝓠.contents p.task_q) + (1 + n))
        → Kept p (queueing f) others n (queue_task 𝓠 p f)
    unfolding queue_task
    queue_task-Kept f e c =
        let put = 𝓠.contents-put f p.task_q in
        let longer = ap length put ∙ length-append (𝓠.contents p.task_q) (f ∷ []) in
        let size = 𝓠.len-eq (𝓠.put f p.task_q) in
        elim (Bool-cases
          (p.coworker == 0 || (not (𝓠.len (𝓠.put f p.task_q) == 0) && ltb p.coworker p.cap))) [
            | inl b ↦
                rw (b, queue_task)
                  (λ x. omega arith, ground arith, λ x y. omega arith, λ x. omega arith, sym put)
            | inr b ↦
                rw (b, queue_task)
                  (λ x. omega arith, ground arith, λ x y. ground arith, λ x. omega arith, sym put)
          ]

    fetch_task-Kept :
        p.coworker ≡ 1 + others
        → p.corun ≡ int32 (length (𝓠.contents p.task_q) + n)
        → Kept p fetching others n (fetch_task 𝓠 p)
    unfolding fetch_task
    fetch_task-Kept e c = go (𝓠.contents p.task_q) refl
      where
        go : (l : List ℕ) → 𝓠.contents p.task_q ≡ l → Kept p fetching others n (fetch_task 𝓠 p)
        go [] q =
            let empty : 𝓠.len p.task_q ≡ 0 = 𝓠.len-eq p.task_q ∙ ap length q in
            let test : (𝓠.len p.task_q == 0) ≡ true = ground arith in
            rw (test, fetch_task)
              (
                λ x. omega arith,
                ground arith,
                λ x y. absurd (y q),
                λ x. omega arith,
                append-nil (𝓠.contents p.task_q),
              )
        go (f ∷ l) q =
            let some_left : 𝓠.len p.task_q ≡ length (f ∷ l) = 𝓠.len-eq p.task_q ∙ ap length q in
            let test : (𝓠.len p.task_q == 0) ≡ false = ground arith in
            let (r, pops, rest) = 𝓠.pop-cons p.task_q f l q in
            rw (test, pops, fetch_task)
              (
                λ x. omega arith,
                low,
                λ x y. omega arith,
                λ x. let fewer = ap length rest in omega (arith, ap length q),
                append-nil (𝓠.contents p.task_q) ∙ q ∙ ap (λ m. f ∷ m) (sym rest),
              )

    run_task-Kept :
        (panics : Bool) (f : ℕ)
        → p.coworker ≡ 1 + others
        → p.corun ≡ int32 (length (𝓠.contents p.task_q) + (1 + n))
        → Kept p (running f) others n (run_task 𝓠 panics p)
    unfolding run_task
    run_task-Kept panics f e c = elim (Bool-cases (panics && not p.handles)) [
      | inl b ↦
          rw (b, run_task)
            (
              λ x. absurd (ground arith),
              low,
              λ x y. absurd (ground arith),
              λ x. absurd (ground arith),
              append-nil (𝓠.contents p.task_q),
            )
      | inr b ↦
          rw (b, run_task)
            (
              λ x. omega arith,
              low,
              λ x y. omega arith,
              λ x. omega arith,
              append-nil (𝓠.contents p.task_q),
            )
    ]

    pool_act-Kept :
        (panics : Bool) (r : Role)
        → p.coworker ≡ works r + others
        → p.corun ≡ int32 (length (𝓠.contents p.task_q) + (runs r + n))
        → (𝓠.contents p.task_q ≢ [] → 0 < p.coworker)
        → Kept p r others n (pool_act 𝓠 panics p r)
    unfolding pool_act
    pool_act-Kept panics (entering f) e c staffed = (
      λ x. omega arith,
      low,
      λ x y. staffed y,
      λ x. omega arith,
      append-nil (𝓠.contents p.task_q),
    )
    pool_act-Kept panics (queueing f) e c staffed = queue_task-Kept f (omega arith) c
    pool_act-Kept panics fetching e c staffed = fetch_task-Kept e (omega arith)
    pool_act-Kept panics (running f) e c staffed = run_task-Kept panics f e c

  -- A step keeps the bound of a worker, whatever it leaves of the rest.
  acted-IsStaffed :
      (panics : Bool) (r : Role) (before after : List Role) (put taken : List ℕ) (u : Pool 𝓠)
      → u.copool.exited ≡ false
      → u.roles ≡ before ++ r ∷ after
      → IsStaffed put taken u
      → let (p, new) = pool_act 𝓠 panics u.copool r in
        IsStaffed
          (put ++ puts 𝓠 r)
          (taken ++ takes 𝓠 new)
          (record { copool = p; roles = before ++ (new ++ after) })
  acted-IsStaffed panics r before after put taken u live at a =
      let (p, new) = pool_act 𝓠 panics u.copool r in
      let old_works = ap (total works) at ∙ total-append works before (r ∷ after) in
      let old_runs = ap (total runs) at ∙ total-append runs before (r ∷ after) in
      let now_works = total-append works before (new ++ after) in
      let now_runs = total-append runs before (new ++ after) in
      let new_works = total-append works new after in
      let new_runs = total-append runs new after in
      let workers = a.workers live in
      let counted = a.counted live in
      let (w, b, s, c, t) =
        pool_act-Kept u.copool (total works before + total works after)
          (total runs before + total runs after) a.bounded panics r (omega arith) (omega arith)
          (a.staffed live) in
      record {
        workers = λ x. let kept = w x in omega arith;
        bounded = b;
        staffed = s;
        counted = λ x. let kept = c x in omega arith;
        in_turn =
            ap (λ l. l ++ puts 𝓠 r) a.in_turn
            ∙ append_assoc taken (𝓠.contents u.copool.task_q) (puts 𝓠 r)
            ∙ ap (λ l. taken ++ l) t
            ∙ sym (append_assoc taken (takes 𝓠 new) (𝓠.contents p.task_q));
      }

  called-IsStaffed :
      (f : ℕ) (put taken : List ℕ) (u : Pool 𝓠)
      → IsStaffed put taken u
      → IsStaffed put taken (record u { roles = entering f ∷ u.roles })
  called-IsStaffed f put taken u a = record {
    workers = λ x. let e = a.workers x in omega arith;
    bounded = a.bounded;
    staffed = a.staffed;
    counted = λ x. let e = a.counted x in omega arith;
    in_turn = a.in_turn;
  }

  -- A pool that nobody has called yet.
  abbrev pub fresh : Copool 𝓠 → Pool 𝓠
  fresh p = record { copool = p; roles = [] }

  pub PoolRun-IsStaffed :
      (p : Copool 𝓠) {put taken : List ℕ} {s : Pool 𝓠}
      → p.coworker ≡ 0
      → p.corun ≡ 0
      → 𝓠.contents p.task_q ≡ []
      → PoolRun 𝓠 (fresh p) put taken s
      → IsStaffed put taken s
  PoolRun-IsStaffed p w c q idle = record {
    workers = λ x. w;
    bounded = ground arith;
    staffed = λ x full. absurd (full q);
    counted = λ x. let none_queued = ap length q in omega arith;
    in_turn = sym q;
  }
  PoolRun-IsStaffed p w c q (called f {put} {taken} {u} r) =
      called-IsStaffed f put taken u (PoolRun-IsStaffed p w c q r)
  PoolRun-IsStaffed p w c q (acted panics r before after {put} {taken} {u} {v} run live at goes) =
      subst (IsStaffed (put ++ puts 𝓠 r) (taken ++ takes 𝓠 (pool_act 𝓠 panics u.copool r).1))
        (sym goes)
        (acted-IsStaffed panics r before after put taken u live at (PoolRun-IsStaffed p w c q run))
