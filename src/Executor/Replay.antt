-- ===== src/Executor/Replay.antt =====
-- Runs by a given schedule, with their log.
use mathlib.Core.Path.{subst}
use mathlib.Core.List.{append_assoc}
use go_taskflow.Base.{
  ℕ, zero, suc, ◌≡◌, ◌<◌, refl, sym, ap, ◌∙◌, List, [], ◌∷◌, ◌++◌, ◌&&◌, false, not, Option, none,
  some, ltb, ◌^◌, if◌then◌else◌, Bool-cases, inl, inr, arith,
}
use go_taskflow.Queue.{Queue}
use go_taskflow.Sort.{Sort}
use go_taskflow.Executor.{System, Step, turn}
use go_taskflow.Executor.Goroutine.{Thread, Input}
use go_taskflow.Executor.Act.{Core, act}
use go_taskflow.Executor.Ledger.{started}
use go_taskflow.Executor.Replies.{called}
use go_taskflow.Executor.Logs.{starts, calls, Logged, note}
use go_taskflow.Executor.Careful.{panics, is_careful, IsCareful}

module _ (𝓠 : Queue ℕ) (𝓢 : Sort) where
  -- A system with its log.
  abbrev pub Noted : Type 0
  Noted = System 𝓠 𝓢 × List ℕ × List ℕ

  -- Goroutine `k` behind `before` takes a step, which is logged.
  unfoldable pub note_at :
      Input → Core 𝓠 𝓢 → ℕ → List Thread → List Thread → List ℕ → List ℕ → Option Noted
  note_at i c k before [] begun done = none
  note_at i c zero before (t ∷ after) begun done = elim (act 𝓠 𝓢 i c t t.pc) [
    | none ↦ none
    | some (d, new) ↦ some (
      record { core = d; threads = before ++ (new ++ after) },
      started new ++ begun,
      called t.node t.pc ++ done,
    )
  ]
  note_at i c (suc k) before (t ∷ after) begun done =
      note_at i c k (before ++ t ∷ []) after begun done

  -- The counter of `wg` must fit its 32 bits before each step, and no function panics.
  unfoldable pub replay : List (ℕ × Input) → Noted → Option Noted
  unfolding note_at
  replay [] s = some s
  replay ((k, i) ∷ turns) (s, begun, done) = elim (note_at i s.core k [] s.threads begun done) [
    | none ↦ none
    | some u ↦ if ltb s.core.wg (2 ^ 32) && not (panics i.reply) then replay turns u else none
  ]

  -- A step, and what it adds to the log.
  record IsNoted (s : System 𝓠 𝓢) (i : Input) (begun done : List ℕ) (u : Noted) : Type 0 where
    step : Step 𝓠 𝓢 s u.0
    begins : u.1 ≡ starts 𝓠 𝓢 step ++ begun
    replies : u.2 ≡ calls 𝓠 𝓢 step ++ done
    careful : is_careful 𝓠 𝓢 step ≡ not (panics i.reply)

  abbrev noted :
      List Thread
      → Thread
      → List Thread
      → List ℕ
      → List ℕ
      → Option (Core 𝓠 𝓢 × List Thread)
      → Option Noted
  noted before t after begun done r = elim r [
    | none ↦ none
    | some (d, new) ↦ some (
      record { core = d; threads = before ++ (new ++ after) },
      started new ++ begun,
      called t.node t.pc ++ done,
    )
  ]

  noted-IsNoted :
      (i : Input) (s : System 𝓠 𝓢) (before : List Thread) (t : Thread) (after : List Thread)
      (begun done : List ℕ) (u : Noted) (r : Option (Core 𝓠 𝓢 × List Thread))
      → s.threads ≡ before ++ t ∷ after
      → act 𝓠 𝓢 i s.core t t.pc ≡ r
      → noted before t after begun done r ≡ some u
      → IsNoted s i begun done u
  noted-IsNoted i s before t after begun done u none at acts e = absurd cc
  noted-IsNoted i s before t after begun done (u, b, c) (some (d, new)) at acts e = record {
    step = turn i t before after new d at acts cc;
    begins = cc;
    replies = cc;
    careful = refl;
  }

  note_at-IsNoted :
      (i : Input) (s : System 𝓠 𝓢) (k : ℕ) (before after : List Thread) (begun done : List ℕ)
      (u : Noted)
      → s.threads ≡ before ++ after
      → note_at i s.core k before after begun done ≡ some u
      → IsNoted s i begun done u
  unfolding note_at
  note_at-IsNoted i s k before [] begun done u at e = absurd cc
  note_at-IsNoted i s zero before (t ∷ after) begun done u at e =
      noted-IsNoted i s before t after begun done u (act 𝓠 𝓢 i s.core t t.pc) at refl e
  note_at-IsNoted i s (suc k) before (t ∷ after) begun done u at e =
      note_at-IsNoted i s k (before ++ t ∷ []) after begun done u
        (at ∙ sym (append_assoc before (t ∷ []) after)) e

  -- A logged run in which no function panics.
  abbrev pub CarefulRun : System 𝓠 𝓢 → Noted → Type 0
  CarefulRun s (u, begun, done) = (l : Logged 𝓠 𝓢 s begun done u) × IsCareful 𝓠 𝓢 l

  careful-note :
      (s u : System 𝓠 𝓢) (i : Input) (begun done : List ℕ) (v : Noted)
      → CarefulRun s (u, begun, done)
      → u.core.wg < 2 ^ 32
      → panics i.reply ≡ false
      → IsNoted u i begun done v
      → CarefulRun s v
  careful-note s u i begun done (v, b, d) (l, c) low calm n =
      let e1 = n.begins in
      let e2 = n.replies in rw (e1, e2) (note l low n.step, (c, n.careful ∙ ap not calm))

  -- What a schedule replays is such a run.
  pub replay-CarefulRun :
      (turns : List (ℕ × Input)) (s : System 𝓠 𝓢) (u v : Noted)
      → CarefulRun s u
      → replay turns u ≡ some v
      → CarefulRun s v
  unfolding replay
  replay-CarefulRun [] s u v r e = let same : u ≡ v = cc in subst (CarefulRun s) same r
  replay-CarefulRun ((k, i) ∷ turns) s (u, begun, done) v r e =
      on (note_at i u.core k [] u.threads begun done) refl e
        (λ w goes run. replay-CarefulRun turns s w v run goes)
    where
      on :
          (o : Option Noted)
          → note_at i u.core k [] u.threads begun done ≡ o
          → (elim o [
            | none ↦ none
            | some w ↦
                if ltb u.core.wg (2 ^ 32) && not (panics i.reply) then replay turns w else none
          ])
            ≡ some v
          → ((w : Noted) → replay turns w ≡ some v → CarefulRun s w → CarefulRun s v)
          → CarefulRun s v
      on none at goes rest = absurd cc
      on (some w) at goes rest =
          elim (Bool-cases (ltb u.core.wg (2 ^ 32) && not (panics i.reply))) [
            | inl fine ↦ rest w (rw fine at goes) (
                careful-note s u i begun done w r (ground arith) (ground arith)
                  (note_at-IsNoted i u k [] u.threads begun done w refl at))
            | inr bad ↦
                absurd (let no : ◌≡◌ {A = Option Noted} none (some v) = rw bad at goes in cc no)
          ]
