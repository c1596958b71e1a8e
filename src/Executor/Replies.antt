-- ===== src/Executor/Replies.antt =====
-- executor.go in a flow of static tasks: the calls of the client's functions. A step at `handling`
-- is the call of the function of the node, from its begin to its return.
use go_taskflow.Base.{
  ℕ, ◌+◌, ◌≤◌, ◌≡◌, refl, List, [], ◌∷◌, Bool, true, false, if◌then◌else◌, ◌==◌, arith, if_both,
  Option, none, some, total, Bool-cases, inl, inr,
}
use go_taskflow.Memory.{Heap, Ptr}
use go_taskflow.Queue.{Queue}
use go_taskflow.Sort.{Sort}
use go_taskflow.Executor.Goroutine.{
  After, release, settle, watch, Pc, opening, checking, marking, handling, finishing, choosing,
  recovering, closing, setting_up, scheduling, putting, looping, deciding, leaving, dropping,
  scanning, resetting, dereffing, restoring, ending, ended, overdrawn, crashed, Thread, at, Input,
  Reply,
}
use go_taskflow.Executor.Handlers.{
  handle, recover, after_close, after_drop, after_deref, resume, nil_panic, is_canceled,
}
use go_taskflow.Executor.Act.{
  Core, act, Ensures, schedule_one, invoke_node, leave, may_go_on, is_over,
}
use go_taskflow.Executor.Shape.{SameShape}
use go_taskflow.Executor.Homes.{IsAtHome}
use go_taskflow.Executor.Ledger.{is_plain, started}
use go_taskflow.Executor.Static.{IsStatic, ptr_eq, own}

-- Before the end of the call, and behind the test of `canceled`.
abbrev pub before_reply : Pc → Bool
before_reply opening = true
before_reply checking = true
before_reply marking = true
before_reply handling = true
before_reply _ = false

abbrev pub in_call : Pc → Bool
in_call marking = true
in_call handling = true
in_call _ = false

module _ (b : ℕ) where
  abbrev pub expects : Thread → ℕ
  expects t = if t.node == b then if before_reply t.pc then 1 else 0 else 0

  abbrev pub engaged : Thread → ℕ
  engaged t = if t.node == b then if in_call t.pc then 1 else 0 else 0

-- The node whose function a step at a point calls.
abbrev pub called : ℕ → Pc → List ℕ
called a handling = a ∷ []
called a _ = []

-- How a step changes the numbers of goroutines of `b` that are before the end of its call, `n`, and
-- behind the test, `k`. The lists hold the node whose goroutine the step starts, and the one whose
-- function it calls.
pub data Serve (b : ℕ) (canceled : Bool) (n k n' k' : ℕ) : List ℕ → List ℕ → Type 0 where
  calm : n' ≡ n → k' ≡ k → Serve b canceled n k n' k' [] []
  skip : canceled ≡ true → n' + 1 ≡ n → k' ≡ k → Serve b canceled n k n' k' [] []
  enter : canceled ≡ false → n' ≡ n → k' ≡ k + 1 → 1 ≤ n → Serve b canceled n k n' k' [] []
  reply :
      (a : ℕ)
      → n' + (if a == b then 1 else 0) ≡ n
      → k' + (if a == b then 1 else 0) ≡ k
      → Serve b canceled n k n' k' [] (a ∷ [])
  admit :
      (a : ℕ) → n' ≡ n + (if a == b then 1 else 0) → k' ≡ k → Serve b canceled n k n' k' (a ∷ []) []

module _ (𝓠 : Queue ℕ) (𝓢 : Sort) (h : Heap) (g b : ℕ) where
  abbrev pub Serves : Core 𝓠 𝓢 → Thread → Pc → Core 𝓠 𝓢 → List Thread → Type 0
  Serves c t pc d new =
      Serve b (c.heap.graph g).canceled (total (expects b) (at t pc ∷ []))
        (total (engaged b) (at t pc ∷ [])) (total (expects b) new) (total (engaged b) new)
        (started new) (called t.node pc)

  checking-Serves :
      (c : Core 𝓠 𝓢) (t : Thread)
      → (c.heap.node t.node).g ≡ g
      → Serves c t checking c
          (at t (if is_canceled c.heap t.node then closing true else marking) ∷ [])
  checking-Serves c t home = elim (Bool-cases (is_canceled c.heap t.node)) [
    | inl gone ↦ elim (Bool-cases (t.node == b)) [
      | inl own ↦ skip (ground arith) (ground arith) (ground arith)
      | inr other ↦ calm (ground arith) (ground arith)
    ]
    | inr live ↦ elim (Bool-cases (t.node == b)) [
      | inl own ↦ enter (ground arith) (ground arith) (ground arith) (ground arith)
      | inr other ↦ calm (ground arith) (ground arith)
    ]
  ]

  reply-Serves :
      (c : Core 𝓠 𝓢) (t : Thread) (i : Input) (r : Reply)
      → let (h', pc) = handle c.heap t.node Ptr.static (record i { reply = r }) in
        Serves c t handling (record c { heap = h' }) (at t pc ∷ [])
  unfolding handle
  reply-Serves c t i Reply.returned = reply t.node (ground arith) (ground arith)
  reply-Serves c t i (Reply.chose k) = reply t.node (ground arith) (ground arith)
  reply-Serves c t i Reply.panicked = reply t.node (ground arith) (ground arith)

  schedule_one-Serves :
      (c : Core 𝓠 𝓢) (t : Thread) (n : ℕ) (rest : List ℕ) (k : After)
      → let (d, r) = schedule_one 𝓠 𝓢 c t n rest k in
        Serves c t (scheduling (n ∷ rest) k) d (r ∷ [])
  unfolding schedule_one resume nil_panic
  schedule_one-Serves c t n rest release = calm (ground arith) (ground arith)
  schedule_one-Serves c t n rest settle = calm (ground arith) (ground arith)
  schedule_one-Serves c t n rest (watch k pg) = calm (ground arith) (ground arith)

  invoke_node-Serves :
      (c : Core 𝓠 𝓢) (t : Thread) (k pg : ℕ)
      → let (d, new) = invoke_node 𝓠 𝓢 c t k pg in Serves c t (deciding k pg) d new
  unfolding invoke_node
  invoke_node-Serves c t k pg = split (𝓠.pop c.wq) refl
    where
      split :
          (o : Option (ℕ × 𝓠.Carrier))
          → 𝓠.pop c.wq ≡ o
          → let (d, new) = invoke_node 𝓠 𝓢 c t k pg in Serves c t (deciding k pg) d new
      split none e = rw (e, invoke_node) (calm (ground arith) (ground arith))
      split (some (n, q)) e = rw (e, invoke_node) (admit n (ground arith) (ground arith))

  pub act-Serves :
      (i : Input) (c : Core 𝓠 𝓢) (t : Thread) (pc : Pc)
      → SameShape h c.heap
      → IsStatic h
      → IsAtHome h g t.node pc
      → is_plain pc ≡ true
      → Ensures 𝓠 𝓢 (Serves c t pc) (act 𝓠 𝓢 i c t pc)
  unfolding act after_close after_drop recover after_deref resume leave
  act-Serves i c t opening same st home plain = calm refl refl
  act-Serves i c t checking same st home plain =
      checking-Serves c t (own h c.heap same st g t.node home.1)
  act-Serves i c t marking same st home plain = calm refl refl
  act-Serves i c t handling same st home plain =
      rw (ptr_eq h c.heap same st t.node) (reply-Serves c t i i.reply)
  act-Serves i c t finishing same st home plain = calm refl refl
  act-Serves i c t (choosing choice) same st home plain = absurd cc
  act-Serves i c t recovering same st home plain = calm refl refl
  act-Serves i c t (closing ok) same st home plain =
      rw (ptr_eq h c.heap same st t.node) (calm refl refl)
  act-Serves i c t (setting_up k pg) same st home plain = absurd cc
  act-Serves i c t (scheduling [] release) same st home plain = calm refl refl
  act-Serves i c t (scheduling [] settle) same st home plain = absurd cc
  act-Serves i c t (scheduling [] (watch k pg)) same st home plain = calm refl refl
  act-Serves i c t (scheduling (n ∷ rest) k) same st home plain = schedule_one-Serves c t n rest k
  act-Serves i c t (putting n rest k) same st home plain =
      if_both (Ensures 𝓠 𝓢 (Serves c t (putting n rest k))) c.mu tt (calm refl refl)
  act-Serves i c t (looping k pg) same st home plain =
      if_both (Ensures 𝓠 𝓢 (Serves c t (looping k pg))) c.mu tt
        (if_both (Ensures 𝓠 𝓢 (Serves c t (looping k pg))) (may_go_on 𝓠 𝓢 c k) (calm refl refl) tt)
  act-Serves i c t (deciding k pg) same st home plain =
      if_both (Ensures 𝓠 𝓢 (Serves c t (deciding k pg))) (is_over 𝓠 𝓢 c.heap k) (calm refl refl)
        (invoke_node-Serves c t k pg)
  act-Serves i c t (leaving k pg) same st home plain = calm (ground arith) (ground arith)
  act-Serves i c t (dropping []) same st home plain =
      rw (ptr_eq h c.heap same st t.node) (calm refl refl)
  act-Serves i c t (dropping (s ∷ rest)) same st home plain = calm refl refl
  act-Serves i c t (scanning [] cand) same st home plain = calm refl refl
  act-Serves i c t (scanning (n ∷ rest) cand) same st home plain = calm refl refl
  act-Serves i c t (resetting cand) same st home plain = calm refl refl
  act-Serves i c t dereffing same st home plain =
      rw (ptr_eq h c.heap same st t.node) (calm refl refl)
  act-Serves i c t restoring same st home plain = absurd cc
  act-Serves i c t ending same st home plain =
      if_both (Ensures 𝓠 𝓢 (Serves c t ending)) (c.wg == 0) (calm refl refl)
        (calm (ground arith) (ground arith))
  act-Serves i c t overdrawn same st home plain = tt
  act-Serves i c t ended same st home plain = tt
  act-Serves i c t (crashed k) same st home plain = tt
