-- ===== src/Tests/Commas.antt =====
-- A function that splits a text at its commas as `strings.Split` does.
use Prim.Native.String
use Prim.Native.Char.{Char, code}
use text.Mathlib.TextLemmas.{nil-append, cons-append}
use go_taskflow.Base.{
  ◌≡◌, refl, ap, ◌∙◌, String, List, [], ◌∷◌, true, ◌==◌, if◌then◌else◌, Bool-cases, inl, inr, arith,
}
use go_taskflow.Validator.Recorded.{lacks_comma, Splits}

abbrev onto : Char → List String → List String
onto c [] = []
onto c (s ∷ l) = String.◌∷◌ c s ∷ l

unfoldable pub split_at_commas : String → List String
split_at_commas String.[] = "" ∷ []
split_at_commas (String.◌∷◌ c s) =
    let rest = split_at_commas s in if code c == 44 then "" ∷ rest else onto c rest

abbrev pub comma_split : String → String → List String
comma_split s sep = split_at_commas s

part : (s : String) → lacks_comma s ≡ true → split_at_commas s ≡ s ∷ []
unfolding split_at_commas
part String.[] free = refl
part (String.◌∷◌ c s) free = elim (Bool-cases (code c == 44)) [
  | inl e ↦ absurd (ground arith)
  | inr e ↦ rw (e, split_at_commas) (ap (onto c) (part s (ground arith)))
]

comma : (b : String) → split_at_commas (String.◌++◌ "," b) ≡ "" ∷ split_at_commas b
unfolding split_at_commas
comma b = ap split_at_commas (cons-append "," "" b ∙ ap (String.◌∷◌ ",") (nil-append b))

first :
    (a b : String)
    → lacks_comma a ≡ true
    → split_at_commas (String.◌++◌ a (String.◌++◌ "," b)) ≡ a ∷ split_at_commas b
unfolding split_at_commas
first String.[] b free = ap split_at_commas (nil-append (String.◌++◌ "," b)) ∙ comma b
first (String.◌∷◌ c s) b free = elim (Bool-cases (code c == 44)) [
  | inl e ↦ absurd (ground arith)
  | inr e ↦
      rw (cons-append c s (String.◌++◌ "," b), e, split_at_commas)
        (ap (onto c) (first s b (ground arith)))
]

pub comma_split-Splits : Splits comma_split
comma_split-Splits = record { split-part = part; split-comma = first }
