-- ===== src/Executor/Tidy.antt =====
-- Where the goroutines of static tasks stand: at the points of a static task, with no more to drop
-- than the node has successors.
use go_taskflow.Base.{
  ℕ, ◌≤◌, ◌≡◌, refl, List, [], ◌∷◌, true, false, arith, if_both, Option, none, some, All, ◌==◌,
}
use go_taskflow.Memory.{Heap, Ptr, nil}
use go_taskflow.Queue.{Queue}
use go_taskflow.Sort.{Sort}
use go_taskflow.Executor.Goroutine.{
  After, release, settle, watch, Pc, opening, checking, marking, handling, finishing, choosing,
  recovering, closing, setting_up, scheduling, putting, looping, deciding, leaving, dropping,
  scanning, resetting, dereffing, restoring, ending, ended, overdrawn, crashed, Thread, at, Input,
  Reply,
}
use go_taskflow.Executor.Handlers.{
  handle, recover, after_close, after_drop, after_deref, resume, nil_panic, is_canceled,
}
use go_taskflow.Executor.Act.{
  Core, act, Ensures, schedule_one, invoke_node, leave, may_go_on, is_over,
}
use go_taskflow.Executor.Shape.{SameShape}
use go_taskflow.Executor.Homes.{IsAtHome}
use go_taskflow.Executor.Ledger.{is_plain, owes_at, scans_at}
use go_taskflow.Executor.Static.{IsStatic, succ_eq, ptr_eq}

plain_put :
    (n : ℕ) (rest : List ℕ) (k : After)
    → is_plain (putting n rest k) ≡ true
    → is_plain (scheduling rest k) ≡ true
plain_put n rest release e = refl
plain_put n rest settle e = e
plain_put n rest (watch k pg) e = refl

module _ (𝓠 : Queue ℕ) (𝓢 : Sort) (h : Heap) (g : ℕ) where
  pub record IsTidy (a : ℕ) (pc : Pc) : Type 0 where
    pub plain : is_plain pc ≡ true
    pub drops : (b : ℕ) → owes_at h b a pc ≤ scans_at h b a pc

  abbrev pub Tidies : Core 𝓠 𝓢 → List Thread → Type 0
  Tidies d new = All (λ t. IsTidy t.node t.pc) new

  even :
      (a : ℕ) (pc : Pc)
      → is_plain pc ≡ true
      → ((b : ℕ) → owes_at h b a pc ≡ scans_at h b a pc)
      → IsTidy a pc
  even a pc p e = record { plain = p; drops = λ b. omega (arith, e b) }

  schedule_one-IsTidy :
      (c : Core 𝓠 𝓢) (t : Thread) (n : ℕ) (rest : List ℕ) (k : After)
      → is_plain (scheduling (n ∷ rest) k) ≡ true
      → let (d, r) = schedule_one 𝓠 𝓢 c t n rest k in IsTidy r.node r.pc
  unfolding schedule_one resume nil_panic
  schedule_one-IsTidy c t n rest release p =
      if_both (λ (x : Core 𝓠 𝓢 × Thread). IsTidy x.1.node x.1.pc) (n == nil)
        (even t.node (crashed release) refl (λ b. refl))
        (if_both (λ (x : Core 𝓠 𝓢 × Thread). IsTidy x.1.node x.1.pc) (is_canceled c.heap n)
          (even t.node dereffing refl (λ b. refl))
          (even t.node (putting n rest release) refl (λ b. refl)))
  schedule_one-IsTidy c t n rest settle p = absurd cc
  schedule_one-IsTidy c t n rest (watch k pg) p =
      if_both (λ (x : Core 𝓠 𝓢 × Thread). IsTidy x.1.node x.1.pc) (n == nil)
        (even t.node (crashed (watch k pg)) refl (λ b. refl))
        (if_both (λ (x : Core 𝓠 𝓢 × Thread). IsTidy x.1.node x.1.pc) (is_canceled c.heap n)
          (even t.node (looping k pg) refl (λ b. refl))
          (even t.node (putting n rest (watch k pg)) refl (λ b. refl)))

  invoke_node-IsTidy :
      (c : Core 𝓠 𝓢) (t : Thread) (k pg : ℕ)
      → let (d, new) = invoke_node 𝓠 𝓢 c t k pg in Tidies d new
  unfolding invoke_node
  invoke_node-IsTidy c t k pg = split (𝓠.pop c.wq) refl
    where
      split :
          (o : Option (ℕ × 𝓠.Carrier))
          → 𝓠.pop c.wq ≡ o
          → let (d, new) = invoke_node 𝓠 𝓢 c t k pg in Tidies d new
      split none e = rw (e, invoke_node) (even t.node (crashed (watch k pg)) refl (λ b. refl), tt)
      split (some (n, q)) e =
          rw (e, invoke_node)
            (even t.node (looping k pg) refl (λ b. refl), (even n opening refl (λ b. refl), tt))

  handle-IsTidy :
      (c : Core 𝓠 𝓢) (t : Thread) (i : Input) (r : Reply)
      → let (h', pc) = handle c.heap t.node Ptr.static (record i { reply = r }) in IsTidy t.node pc
  unfolding handle
  handle-IsTidy c t i Reply.returned = even t.node finishing refl (λ b. refl)
  handle-IsTidy c t i (Reply.chose k) = even t.node finishing refl (λ b. refl)
  handle-IsTidy c t i Reply.panicked = even t.node recovering refl (λ b. refl)

  pub act-IsTidy :
      (i : Input) (c : Core 𝓠 𝓢) (t : Thread) (pc : Pc)
      → SameShape h c.heap
      → IsStatic h
      → IsAtHome h g t.node pc
      → IsTidy t.node pc
      → Ensures 𝓠 𝓢 Tidies (act 𝓠 𝓢 i c t pc)
  unfolding act handle after_close after_drop recover after_deref resume leave invoke_node
  act-IsTidy i c t opening same st home tidy = (even t.node checking refl (λ b. refl), tt)
  act-IsTidy i c t checking same st home tidy =
      if_both (λ x. Tidies c (at t x ∷ [])) (is_canceled c.heap t.node)
        (even t.node (closing true) refl (λ b. refl), tt) (even t.node marking refl (λ b. refl), tt)
  act-IsTidy i c t marking same st home tidy = (even t.node handling refl (λ b. refl), tt)
  act-IsTidy i c t handling same st home tidy =
      rw (ptr_eq h c.heap same st t.node) (handle-IsTidy c t i i.reply, tt)
  act-IsTidy i c t finishing same st home tidy = (even t.node (closing true) refl (λ b. refl), tt)
  act-IsTidy i c t (choosing choice) same st home tidy = absurd (cc (tidy.plain))
  act-IsTidy i c t recovering same st home tidy = (even t.node (closing false) refl (λ b. refl), tt)
  act-IsTidy i c t (closing ok) same st home tidy =
      rw (ptr_eq h c.heap same st t.node, succ_eq h c.heap same st t.node)
        (even t.node (dropping (h.node t.node).successors) refl (λ b. refl), tt)
  act-IsTidy i c t (setting_up k pg) same st home tidy = absurd (cc (tidy.plain))
  act-IsTidy i c t (scheduling [] release) same st home tidy =
      (even t.node dereffing refl (λ b. refl), tt)
  act-IsTidy i c t (scheduling [] settle) same st home tidy = absurd (cc (tidy.plain))
  act-IsTidy i c t (scheduling [] (watch k pg)) same st home tidy =
      (even t.node (looping k pg) refl (λ b. refl), tt)
  act-IsTidy i c t (scheduling (n ∷ rest) k) same st home tidy =
      (schedule_one-IsTidy c t n rest k tidy.plain, tt)
  act-IsTidy i c t (putting n rest k) same st home tidy =
      if_both (Ensures 𝓠 𝓢 Tidies) c.mu tt
        (even t.node (scheduling rest k) (plain_put n rest k tidy.plain) (λ b. refl), tt)
  act-IsTidy i c t (looping k pg) same st home tidy = if_both (Ensures 𝓠 𝓢 Tidies) c.mu tt (
      if_both (Ensures 𝓠 𝓢 Tidies) (may_go_on 𝓠 𝓢 c k)
        (even t.node (deciding k pg) refl (λ b. refl), tt) tt)
  act-IsTidy i c t (deciding k pg) same st home tidy =
      if_both (Ensures 𝓠 𝓢 Tidies) (is_over 𝓠 𝓢 c.heap k)
        (even t.node (leaving k pg) refl (λ b. refl), tt) (invoke_node-IsTidy c t k pg)
  act-IsTidy i c t (leaving k pg) same st home tidy =
      rw home.0 (even nil ended refl (λ b. refl), tt)
  act-IsTidy i c t (dropping []) same st home tidy =
      rw (ptr_eq h c.heap same st t.node) (record { plain = refl; drops = λ b. omega arith }, tt)
  act-IsTidy i c t (dropping (s ∷ rest)) same st home tidy =
      (record { plain = refl; drops = λ b. omega (arith, tidy.drops b) }, tt)
  act-IsTidy i c t (scanning [] cand) same st home tidy =
      (even t.node (resetting cand) refl (λ b. refl), tt)
  act-IsTidy i c t (scanning (n ∷ rest) cand) same st home tidy =
      (record { plain = refl; drops = λ b. omega arith }, tt)
  act-IsTidy i c t (resetting cand) same st home tidy =
      (even t.node (scheduling _ release) refl (λ b. refl), tt)
  act-IsTidy i c t dereffing same st home tidy =
      rw (ptr_eq h c.heap same st t.node) (even t.node ending refl (λ b. refl), tt)
  act-IsTidy i c t restoring same st home tidy = absurd (cc (tidy.plain))
  act-IsTidy i c t ending same st home tidy =
      if_both (Ensures 𝓠 𝓢 Tidies) (c.wg == 0) (even t.node overdrawn refl (λ b. refl), tt) tt
  act-IsTidy i c t overdrawn same st home tidy = tt
  act-IsTidy i c t ended same st home tidy = tt
  act-IsTidy i c t (crashed k) same st home tidy = tt
