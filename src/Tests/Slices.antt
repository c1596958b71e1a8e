-- ===== src/Tests/Slices.antt =====
-- The comparison of two lists of names.
use go_taskflow.Base.{◌≡◌, ◌↔◌, refl, String, [], ◌∷◌, true, false}
use go_taskflow.Validator.{string_slice_equal}
use go_taskflow.Validator.Slices.{occurrences, string_slice_equal_iff}

string_slice_equal_iff_example :
    (string_slice_equal ("load" ∷ "store" ∷ []) ("store" ∷ "load" ∷ []) ≡ true)
    ↔ ((t : String) → occurrences t ("load" ∷ "store" ∷ []) ≡ occurrences t ("store" ∷ "load" ∷ []))
string_slice_equal_iff_example =
    string_slice_equal_iff ("load" ∷ "store" ∷ []) ("store" ∷ "load" ∷ [])

same_names : string_slice_equal ("load" ∷ "store" ∷ []) ("store" ∷ "load" ∷ []) ≡ true
unfolding string_slice_equal
same_names = refl

other_names : string_slice_equal ("load" ∷ "load" ∷ []) ("store" ∷ "load" ∷ []) ≡ false
unfolding string_slice_equal
other_names = refl
