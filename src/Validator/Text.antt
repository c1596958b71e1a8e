-- ===== src/Validator/Text.antt =====
-- The texts of a validation result in validator.go.
use Prim.Native.String
use go_taskflow.Base.{String, List, [], ◌∷◌, if◌then◌else◌}
use go_taskflow.Validator.{DependencyError, ValidationResult}

-- `String` of a `dependencyError` and of a `validationResult`, where `quoted` is `%q` of a string and
-- `shown` is `%v` of a slice.
module _ (quoted : String → String) (shown : List String → String) where
  unfoldable pub error_text : DependencyError → String
  error_text e = String.◌++◌ "task " (
      String.◌++◌ (quoted e.task) (
        String.◌++◌ ": expected deps "
          (String.◌++◌ (shown e.expected) (String.◌++◌ ", actual " (shown e.actual)))))

  unfoldable pub error_lines : List DependencyError → String
  unfolding error_text
  error_lines [] = ""
  error_lines (e ∷ es) =
      String.◌++◌ "  " (String.◌++◌ (error_text e) (String.◌++◌ "\n" (error_lines es)))

  abbrev line_of : String → List String → String
  line_of title [] = ""
  line_of title (s ∷ ss) = String.◌++◌ title (String.◌++◌ (shown (s ∷ ss)) "\n")

  unfoldable pub result_text : ValidationResult → String
  unfolding error_lines
  result_text r =
      if r.valid
      then "validation passed"
      else String.◌++◌ "validation failed:\n" (
          String.◌++◌ (line_of "  missing tasks: " r.missing_tasks) (
            String.◌++◌ (line_of "  unexpected tasks: " r.unexpected_tasks) (
              String.◌++◌ (error_lines r.dependency_errors)
                (line_of "  skipped branches (OK): " r.skipped_branches))))
