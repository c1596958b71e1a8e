-- ===== src/Validator/Skips.antt =====
-- Which tasks `run` of validator.go takes for skipped: one pass over a map.
use text.Mathlib.Text.{◌==◌ as str_eq}
use text.Mathlib.TextEquality.{eq_iff}
use text.Mathlib.TextPositions.{eq_refl}
use mathlib.Core.Path.{subst}
use go_taskflow.Base.{
  ℕ, ◌≡◌, ◌≢◌, refl, ap, sym, ◌∙◌, String, List, [], ◌∷◌, true, false, Bool, Bool-cases, inl, inr,
  ◌⊎◌, if◌then◌else◌, arith, not, ◌&&◌, ◌==◌, ==_iff, ==_self, number, str_eq-cases, contains,
}
use go_taskflow.Memory.{Heap, is_condition}
use go_taskflow.Node
use go_taskflow.Validator.{mark, skip_branches, follows_skipped, skip_round}

-- The map has node `n` for name `k`.
abbrev pub is_entry : String → ℕ → String × ℕ → Bool
is_entry k n (j, a) = str_eq j k && (a == n)

abbrev pub Has : String → ℕ → List (String × ℕ) → Type 0
Has k n l = number (is_entry k n) l ≢ 0

pub Has-head : (k : String) (n : ℕ) (l : List (String × ℕ)) → Has k n ((k, n) ∷ l)
Has-head k n l e = absurd (ground (arith, eq_refl k))

Has-tail :
    (k : String) (n : ℕ) (x : String × ℕ) (l : List (String × ℕ)) → Has k n l → Has k n (x ∷ l)
Has-tail k n x l a e = a (omega arith)

-- An entry is the first one or a later one.
Has-cases :
    (k : String) (n : ℕ) (j : String) (a : ℕ) (l : List (String × ℕ))
    → Has k n ((j, a) ∷ l)
    → ((j ≡ k) × (a ≡ n)) ⊎ Has k n l
Has-cases k n j a l e = elim (Bool-cases (is_entry k n (j, a))) [
  | inl same ↦ inl ((eq_iff j k).0 (ground arith), (==_iff a n).0 (ground arith))
  | inr other ↦ inr (λ z. e (ground arith))
]

-- A non-condition dependent that is skipped makes the test of the innermost loop true, and only that.
pub follows_skipped→found :
    (h : Heap) (skipped : String → Bool) (ds : List ℕ)
    → follows_skipped h skipped ds ≡ true
    → (d : ℕ) × (contains d ds ≡ true)
      × (is_condition (h.node d).typ ≡ false)
      × (skipped (h.node d).name ≡ true)
unfolding follows_skipped
follows_skipped→found h skipped [] e = absurd (ground arith)
follows_skipped→found h skipped (d ∷ ds) e =
    elim (Bool-cases (not (is_condition (h.node d).typ) && skipped (h.node d).name)) [
      | inl here ↦ (d, ground (arith, ==_self d), ground arith, ground arith)
      | inr other ↦
          let (c, member, plain, found) = follows_skipped→found h skipped ds (ground arith) in
          (c, ground arith, plain, found)
    ]

pub found→follows_skipped :
    (h : Heap) (skipped : String → Bool) (ds : List ℕ) (d : ℕ)
    → contains d ds ≡ true
    → is_condition (h.node d).typ ≡ false
    → skipped (h.node d).name ≡ true
    → follows_skipped h skipped ds ≡ true
unfolding follows_skipped
found→follows_skipped h skipped [] d member plain found = absurd (ground arith)
found→follows_skipped h skipped (c ∷ ds) d member plain found = elim (Bool-cases (c == d)) [
  | inl same ↦
      let at : (not (is_condition (h.node c).typ) && skipped (h.node c).name) ≡ true =
        subst (λ x. (not (is_condition (h.node x).typ) && skipped (h.node x).name) ≡ true)
          (sym ((==_iff c d).0 same)) (ground arith) in
      ground arith
  | inr other ↦ ground (arith, found→follows_skipped h skipped ds d (ground arith) plain found)
]

module _ (h : Heap) (ran : String → Bool) (m : List (String × ℕ)) where
  -- What the comments of the source call a skipped branch: a task that did not run, with a
  -- condition among its dependents, or with a dependent that is no condition and skipped itself.
  pub data IsSkipped : String → Type 0 where
    branch :
        (k : String) (n : ℕ)
        → ran k ≡ false
        → Has k n m
        → Node.has_cond_predecessor h n ≡ true
        → IsSkipped k
    follows :
        (k : String) (n d : ℕ)
        → ran k ≡ false
        → Has k n m
        → contains d (h.node n).dependents ≡ true
        → is_condition (h.node d).typ ≡ false
        → IsSkipped (h.node d).name
        → IsSkipped k

  -- What is marked is skipped.
  abbrev pub Sound : (String → Bool) → Type 0
  Sound skipped = (k : String) → skipped k ≡ true → IsSkipped k

  abbrev pub Part : List (String × ℕ) → Type 0
  Part l = (k : String) (n : ℕ) → Has k n l → Has k n m

  pub Part-tail : (x : String × ℕ) (l : List (String × ℕ)) → Part (x ∷ l) → Part l
  Part-tail x l p k n e = p k n (Has-tail k n x l e)

  mark-Sound :
      (skipped : String → Bool) (k : String) → Sound skipped → IsSkipped k → Sound (mark skipped k)
  mark-Sound skipped k s new j e = elim (str_eq-cases k j) [
    | inl same ↦ subst IsSkipped same new
    | inr other ↦ s j (ground arith)
  ]

  pub skip_branches-Sound :
      (l : List (String × ℕ)) (skipped : String → Bool)
      → Part l
      → Sound skipped
      → Sound (skip_branches h ran l skipped)
  unfolding skip_branches
  skip_branches-Sound [] skipped p s = s
  skip_branches-Sound ((k, n) ∷ l) skipped p s =
      skip_branches-Sound l _ (Part-tail (k, n) l p)
        (elim (Bool-cases (not (ran k) && Node.has_cond_predecessor h n)) [
          | inl e ↦ rw e (
              mark-Sound skipped k s
                (branch k n (ground arith) (p k n (Has-head k n l)) (ground arith)))
          | inr e ↦ rw e s
        ])

  abbrev pub marks : (String → Bool) → String → ℕ → Bool
  marks skipped k n =
      not (if ran k then true else skipped k) && follows_skipped h skipped (h.node n).dependents

  pub skip_round-Sound :
      (l : List (String × ℕ)) (skipped : String → Bool) (changed : Bool)
      → Part l
      → Sound skipped
      → Sound (skip_round h ran l skipped changed).0
  unfolding skip_round
  skip_round-Sound [] skipped changed p s = s
  skip_round-Sound ((k, n) ∷ l) skipped changed p s =
      skip_round-Sound l _ _ (Part-tail (k, n) l p) (elim (Bool-cases (marks skipped k n)) [
        | inl e ↦
            let (d, member, plain, found) =
              follows_skipped→found h skipped (h.node n).dependents (ground arith) in
            rw e (
              mark-Sound skipped k s (
                follows k n d (ground arith) (p k n (Has-head k n l)) member plain
                  (s (h.node d).name found)))
        | inr e ↦ rw e s
      ])

  -- Nothing that is marked is unmarked again.
  pub skip_branches-keeps :
      (l : List (String × ℕ)) (skipped : String → Bool) (k : String)
      → skipped k ≡ true
      → skip_branches h ran l skipped k ≡ true
  unfolding skip_branches
  skip_branches-keeps [] skipped k e = e
  skip_branches-keeps ((j, n) ∷ l) skipped k e = skip_branches-keeps l _ k (ground arith)

  pub skip_round-keeps :
      (l : List (String × ℕ)) (skipped : String → Bool) (changed : Bool) (k : String)
      → skipped k ≡ true
      → (skip_round h ran l skipped changed).0 k ≡ true
  unfolding skip_round
  skip_round-keeps [] skipped changed k e = e
  skip_round-keeps ((j, n) ∷ l) skipped changed k e = skip_round-keeps l _ _ k (ground arith)

  -- The first loop marks every entry that did not run and has a condition among its dependents.
  pub skip_branches-covers :
      (l : List (String × ℕ)) (skipped : String → Bool) (k : String) (n : ℕ)
      → Has k n l
      → ran k ≡ false
      → Node.has_cond_predecessor h n ≡ true
      → skip_branches h ran l skipped k ≡ true
  unfolding skip_branches
  skip_branches-covers [] skipped k n e out cond = absurd (e refl)
  skip_branches-covers ((j, a) ∷ l) skipped k n e out cond = elim (Has-cases k n j a l e) [
    | inl (same, here) ↦
        let ran_not : ran j ≡ false = subst (λ x. ran x ≡ false) (sym same) out in
        let cond_here : Node.has_cond_predecessor h a ≡ true =
          subst (λ x. Node.has_cond_predecessor h x ≡ true) (sym here) cond in
        skip_branches-keeps l _ k (ground (arith, ap (λ x. str_eq x k) same, eq_refl k))
    | inr later ↦ skip_branches-covers l _ k n later out cond
  ]

  -- A round that has set `changed` leaves it set.
  skip_round-changed :
      (l : List (String × ℕ)) (skipped : String → Bool) → (skip_round h ran l skipped true).1 ≡ true
  unfolding skip_round
  skip_round-changed [] skipped = refl
  skip_round-changed ((j, n) ∷ l) skipped = elim (Bool-cases (marks skipped j n)) [
    | inl e ↦ rw (e, skip_round) (skip_round-changed l (mark skipped j))
    | inr e ↦ rw (e, skip_round) (skip_round-changed l skipped)
  ]

  -- What a set of marks needs for a round to add none.
  abbrev pub Closed : (String → Bool) → List (String × ℕ) → Type 0
  Closed skipped l =
      (k : String) (n : ℕ)
      → Has k n l
      → ran k ≡ false
      → follows_skipped h skipped (h.node n).dependents ≡ true
      → skipped k ≡ true

  -- A round that does not set `changed` has marked nothing, and there was nothing to mark.
  pub skip_round-Closed :
      (l : List (String × ℕ)) (skipped : String → Bool)
      → (skip_round h ran l skipped false).1 ≡ false
      → ((skip_round h ran l skipped false).0 ≡ skipped) × Closed skipped l
  unfolding skip_round
  skip_round-Closed [] skipped e = (refl, λ k n a. absurd (a refl))
  skip_round-Closed ((j, a) ∷ l) skipped e = elim (Bool-cases (marks skipped j a)) [
    | inl marked ↦
        let left : (skip_round h ran l (mark skipped j) true).1 ≡ false =
          rw (marked, skip_round) at e in
        absurd (let no : true ≡ false = sym (skip_round-changed l (mark skipped j)) ∙ left in cc no)
    | inr not_marked ↦
        let left : (skip_round h ran l skipped false).1 ≡ false =
          rw (not_marked, skip_round) at e in
        let (same, closed) = skip_round-Closed l skipped left in
        (
          rw (not_marked, skip_round) same,
          λ k n here out deps. elim (Has-cases k n j a l here) [
            | inl (name, node) ↦
                let deps' : follows_skipped h skipped (h.node a).dependents ≡ true =
                  subst (λ x. follows_skipped h skipped (h.node x).dependents ≡ true) (sym node)
                    deps in
                let out' : ran j ≡ false = subst (λ x. ran x ≡ false) (sym name) out in
                subst (λ x. skipped x ≡ true) name (ground arith)
            | inr later ↦ closed k n later out deps
          ],
        )
  ]

  -- A set of marks that the first loop started and no round adds to has every skipped task.
  pub IsSkipped-marked :
      (skipped : String → Bool)
      → ((k : String) (n : ℕ)
          → Has k n m
          → ran k ≡ false
          → Node.has_cond_predecessor h n ≡ true
          → skipped k ≡ true)
      → Closed skipped m
      → (k : String) → IsSkipped k
      → skipped k ≡ true
  IsSkipped-marked skipped start closed k (branch k' n out here cond) = start k n here out cond
  IsSkipped-marked skipped start closed k (follows k' n d out here member plain found) =
      closed k n here out (
        found→follows_skipped h skipped (h.node n).dependents d member plain
          (IsSkipped-marked skipped start closed (h.node d).name found))
