-- ===== src/Examples/Planned.antt =====
-- Packages and validation commands as a planner gives them.
use railwarden.Base.{
  String, Bool, true, false, [], ◌∷◌, ok, err, value_error, lookup, contains, ◌≡◌, refl,
}
use railwarden.Value.{
  Value, str, obj, arr, Items, nil, cons, Fields, field, end, Show, texts, get, to_str,
}
use railwarden.Validation.WorkerResult.{to_texts}
use railwarden.Validation.Shell.{split}
use railwarden.Validation.Commands.{command_dict, sanitize_planner_validation_commands}
use railwarden.Validation.Commands.Sanitized.{
  Lexed, Sanitized, sanitize_planner_validation_commands-Sanitized,
}
use railwarden.Validation.Freeze.{package_map, validate_packages_for_freeze}
use railwarden.Validation.Freeze.Disjoint.{owned_by, validate_packages_for_freeze-disjoint}

abbrev show : Show
show v = "1"

split_quoted : split " a 'b  c' \"d\\\"e\" f\\ g '' " ≡ ok ("a" ∷ "b  c" ∷ "d\"e" ∷ "f g" ∷ "" ∷ [])
unfolding split
split_quoted = refl

-- The second command repeats the first, and the third is cut before the separator.
abbrev suggested : Value
suggested = arr (
    cons (str "pytest -q") (
      cons (arr (texts ("pytest" ∷ "-q" ∷ [])))
        (cons (str "ruff check && rm x") (cons (str "$(date)") nil))))

sanitized_commands :
    sanitize_planner_validation_commands show suggested
    ≡ ok (
        command_dict show 1 ("pytest" ∷ "-q" ∷ [])
        ∷ command_dict show 2 ("ruff" ∷ "check" ∷ [])
        ∷ [])
unfolding sanitize_planner_validation_commands
sanitized_commands = refl

-- A quotation that is not closed raises a ValueError, which no handler catches.
unclosed :
    sanitize_planner_validation_commands show (arr (cons (str "echo it's") nil))
    ≡ err (value_error ("No closing quotation" ∷ []))
unfolding sanitize_planner_validation_commands
unclosed = refl

sanitize_planner_validation_commands-Sanitized_example :
    Lexed (Sanitized show) (sanitize_planner_validation_commands show suggested)
sanitize_planner_validation_commands-Sanitized_example =
    sanitize_planner_validation_commands-Sanitized show suggested

abbrev planned : String → String → Fields
planned id path = field "id" (str id) (
    field "owned_paths" (arr (cons (str path) nil))
      (field "context_refs" (arr (cons (str "context/A.md") nil)) end))

abbrev two_packages : Items
two_packages = cons (obj (planned "a" "src/a")) (cons (obj (planned "b" "src/b")) nil)

abbrev all_there : String → Bool
all_there path = true

validate_packages_for_freeze-disjoint_example :
    contains (owned_by show (planned "b" "src/b")) "src/a" ≡ false
unfolding validate_packages_for_freeze package_map lookup contains to_texts get to_str
validate_packages_for_freeze-disjoint_example =
    validate_packages_for_freeze-disjoint show all_there true two_packages "a" "b" "src/a"
      (planned "a" "src/a") (planned "b" "src/b") refl refl refl refl refl

-- A directory of one package may lie in that of another: only equal texts are refused.
nested_paths_pass :
    validate_packages_for_freeze show all_there true
      (cons (obj (planned "a" "src")) (cons (obj (planned "b" "src/b")) nil))
    ≡ ok tt
unfolding validate_packages_for_freeze contains
nested_paths_pass = refl
