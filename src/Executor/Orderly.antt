-- ===== src/Executor/Orderly.antt =====
-- What every step of a flow of static tasks keeps of its log: no task is started or called twice,
-- and none before its dependents.
use go_taskflow.Base.{
  ℕ, ◌+◌, ◌≤◌, ◌≡◌, refl, List, [], ◌∷◌, ◌++◌, Bool, true, false, if◌then◌else◌, arith, total,
  count, length, shared, shared-le-length, count-shared, All, Bool-cases, inl, inr, ltb,
}
use go_taskflow.Memory.{Heap}
use go_taskflow.Queue.{Queue}
use go_taskflow.Sort.{Sort}
use go_taskflow.Executor.{System}
use go_taskflow.Executor.Goroutine.{Pc, opening, checking, marking, handling, Thread}
use go_taskflow.Executor.Ledger.{owes_at, ledger, needs, owes}
use go_taskflow.Executor.Books.{given, is_listed, IsBalanced}
use go_taskflow.Executor.Awake.{IsAwake}
use go_taskflow.Executor.Tidy.{IsTidy}
use go_taskflow.Executor.Replies.{
  called, before_reply, in_call, expects, engaged, Serve, calm, skip, enter, reply, admit,
}
use go_taskflow.Executor.Logs.{IsTaskFlow, IsOrdered}

-- The calls of the function of `b`, those that are still to come, and the goroutines of `b` started
-- so far. A canceled graph skips calls.
pub record IsServed (b : ℕ) (canceled : Bool) (n : ℕ) (begun done : List ℕ) : Type 0 where
  pub at_most : count b done + n ≤ count b begun
  pub exactly : canceled ≡ false → count b done + n ≡ count b begun

pub Serve-IsServed :
    (b : ℕ) (canceled canceled' : Bool) (n k n' k' : ℕ) (begun done : List ℕ)
    → (canceled ≡ true → canceled' ≡ true)
    → IsServed b canceled n begun done
    → (new replies : List ℕ) → Serve b canceled n k n' k' new replies
    → IsServed b canceled' n' (new ++ begun) (replies ++ done)
Serve-IsServed b c c' n k n' k' begun done on s _ _ (calm e f) = record {
  at_most = ground (arith, s.at_most);
  exactly = λ l. ground (arith, s.exactly);
}
Serve-IsServed b c c' n k n' k' begun done on s _ _ (skip y e f) = record {
  at_most = ground (arith, s.at_most);
  exactly = λ l. absurd (ground arith);
}
Serve-IsServed b c c' n k n' k' begun done on s _ _ (enter y e f p) = record {
  at_most = ground (arith, s.at_most);
  exactly = λ l. ground (arith, s.exactly);
}
Serve-IsServed b c c' n k n' k' begun done on s _ _ (reply a e f) = record {
  at_most = ground (arith, s.at_most);
  exactly = λ l. ground (arith, s.exactly);
}
Serve-IsServed b c c' n k n' k' begun done on s _ _ (admit a e f) = record {
  at_most = ground (arith, s.at_most);
  exactly = λ l. ground (arith, s.exactly);
}

module _ (h : Heap) (g : ℕ) (flow : IsTaskFlow h g) where
  pub needs-eq : (b : ℕ) → is_listed h g b ≡ true → needs h b g ≡ length (h.node b).dependents
  needs-eq b e = ground arith

  -- Tasks of the graph, each started at most once, give each task at most what it needs.
  pub given-shared :
      (b : ℕ) (begun : List ℕ)
      → is_listed h g b ≡ true
      → given h g b begun ≡ shared begun (h.node b).dependents
  given-shared b [] e = refl
  given-shared b (a ∷ begun) e = omega (arith, given-shared b begun e, flow.mirror a b e)

  given_outside :
      (b : ℕ) (begun : List ℕ)
      → is_listed h g b ≡ false
      → ((a : ℕ) → count a begun ≤ (if is_listed h g a then 1 else 0))
      → given h g b begun ≡ 0
  given_outside b [] e once = refl
  given_outside b (a ∷ begun) e once =
      let mine : is_listed h g a ≡ true = ground (arith, once a) in
      omega (arith, flow.inside a b mine e, given_outside b begun e (λ x. ground (arith, once x)))

  pub given-le-needs :
      (b : ℕ) (begun : List ℕ)
      → ((a : ℕ) → count a begun ≤ (if is_listed h g a then 1 else 0))
      → given h g b begun ≤ needs h b g
  given-le-needs b begun once = elim (Bool-cases (is_listed h g b)) [
    | inl e ↦ ground (
      arith,
      given-shared b begun e,
      shared-le-length begun (λ a. ground (arith, once a)) (h.node b).dependents,
      needs-eq b e,
    )
    | inr e ↦ omega (arith, given_outside b begun e once)
  ]

  -- Where a task got all that it needs, all its dependents were started.
  pub all_begun :
      (b : ℕ) (begun : List ℕ)
      → ((a : ℕ) → count a begun ≤ (if is_listed h g a then 1 else 0))
      → is_listed h g b ≡ true
      → given h g b begun ≡ needs h b g
      → (d : ℕ) → 1 ≤ count d (h.node b).dependents
      → 1 ≤ count d begun
  all_begun b begun once e full =
      count-shared begun (λ a. ground (arith, once a)) (h.node b).dependents
        (ground (arith, given-shared b begun e, needs-eq b e))

before_reply-owes_at :
    (h : Heap) (b a : ℕ) (pc : Pc)
    → before_reply pc ≡ true
    → owes_at h b a pc ≡ count b (h.node a).successors
before_reply-owes_at h b a opening e = refl
before_reply-owes_at h b a checking e = refl
before_reply-owes_at h b a marking e = refl
before_reply-owes_at h b a handling e = refl
before_reply-owes_at h b a _ e = absurd cc

-- A goroutine before the end of its call still owes to its successors.
pub expects-owes :
    (h : Heap) (b d : ℕ) (ts : List Thread)
    → 1 ≤ count b (h.node d).successors
    → 1 ≤ total (expects d) ts
    → 1 ≤ total (owes h b) ts
expects-owes h b d [] edge n = absurd (omega arith)
expects-owes h b d (t ∷ ts) edge n =
    ground (arith, before_reply-owes_at h b t.node t.pc, expects-owes h b d ts edge)

-- A step at `handling` finds the dependents called, and adds its call to the log.
pub called-IsOrdered :
    (h : Heap) (a : ℕ) (pc : Pc) (done : List ℕ)
    → (in_call pc ≡ true → (d : ℕ) → 1 ≤ count d (h.node a).dependents → 1 ≤ count d done)
    → IsOrdered h done
    → IsOrdered h (called a pc ++ done)
called-IsOrdered h a handling done f o = (f refl, o)
called-IsOrdered h a _ done f o = o

module _ (𝓠 : Queue ℕ) (𝓢 : Sort) (h : Heap) (g : ℕ) (flow : IsTaskFlow h g) where
  pub record IsOrderly (begun done : List ℕ) (u : System 𝓠 𝓢) : Type 0 where
    pub tidy : All (λ t. IsTidy 𝓠 𝓢 h g t.node t.pc) u.threads
    pub balanced : (b : ℕ) → IsBalanced h g b (ledger 𝓠 𝓢 h g b u.core u.threads) begun
    pub served :
        (b : ℕ) → IsServed b (u.core.heap.graph g).canceled (total (expects b) u.threads) begun done
    pub awake :
        (u.core.heap.graph g).canceled ≡ false
        → (b : ℕ) → IsAwake h g b (ledger 𝓠 𝓢 h g b u.core u.threads) begun
    -- Behind the test of `canceled`, the functions of all dependents were called.
    pub ready :
        (b : ℕ)
        → 1 ≤ total (engaged b) u.threads
        → (d : ℕ) → 1 ≤ count d (h.node b).dependents
        → 1 ≤ count d done
    pub ordered : IsOrdered h done

  -- A task that may enter its call has dependents that were all called.
  pub may_enter :
      {begun done : List ℕ} {u : System 𝓠 𝓢}
      → IsOrderly begun done u
      → (u.core.heap.graph g).canceled ≡ false
      → (b : ℕ) → 1 ≤ total (expects b) u.threads
      → (d : ℕ) → 1 ≤ count d (h.node b).dependents
      → 1 ≤ count d done
  may_enter {begun} {done} {u} o live b n d dep =
      let balanced = o.balanced b in
      let started_once : 1 ≤ count b begun = omega (arith, (o.served b).at_most) in
      let once = λ (a : ℕ). (o.balanced a).single in
      let paid = balanced.paid (omega arith) in
      let mine : is_listed h g b ≡ true = ground (arith, balanced.single) in
      let d_begun : 1 ≤ count d begun =
        all_begun h g flow b begun (λ a. omega (arith, once a)) mine paid.0 d dep in
      let exact = (o.served d).exactly live in
      elim (Bool-cases (ltb 0 (total (expects d) u.threads))) [
        | inl some_left ↦ absurd (
            let late : 1 ≤ total (owes h b) u.threads =
              expects-owes h b d u.threads (omega (arith, flow.mirror d b mine)) (ground arith) in
            omega arith)
        | inr none_left ↦ ground arith
      ]
