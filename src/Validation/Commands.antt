-- ===== src/Validation/Commands.antt =====
-- validation/commands.py: the argument list of a validation command, as a configuration or a
-- planner gives it.
pub mod Sanitized
use Prim.Native.Char.{Char, code}
use text.Mathlib.Text.{find?}
use railwarden.Base.{
  ℕ, ◌+◌, String, ◌<>◌, ◌==◌, Bool, true, false, not, ◌&&◌, ◌||◌, Option, none, some, List, [], ◌∷◌,
  ◌++◌, length, Result, ok, err, Error, configuration, ◌>>=◌, ◌>>◌, raise_if, nat_eq, if◌then◌else◌,
}
use railwarden.Text.{strip, shorten, has_text}
use railwarden.Value.{
  Value, str, num, flag, null, obj, arr, Items, nil, cons, Fields, end, field, get, get_or, Show,
  to_str, texts,
}
use railwarden.Validation.Shell.{split}

-- `_SHELL_METACHAR.search(text)`
unfoldable pub has_metachar : String → Bool
has_metachar String.[] = false
has_metachar (String.◌∷◌ c text) =
    let later = has_metachar text in
    nat_eq (code c) 59
    || nat_eq (code c) 124
    || nat_eq (code c) 38
    || nat_eq (code c) 96
    || nat_eq (code c) 36
    || nat_eq (code c) 40
    || nat_eq (code c) 41
    || nat_eq (code c) 60
    || nat_eq (code c) 62
    || later

-- `_COMPOUND_SHELL_SEPARATORS`
abbrev compound_shell_separators : List String
compound_shell_separators = " && " ∷ " & " ∷ " | " ∷ ";" ∷ []

-- `if not argv: raise ...`
abbrev pub not_empty : String → List String → Result (List String)
not_empty source [] = err (configuration (source ∷ " requires a non-empty argv" ∷ []))
not_empty source (first ∷ argv) = ok (first ∷ argv)

-- `try: return ... except ConfigurationError: return None`
abbrev pub unless_configuration : Result (List String) → Result (Option (List String))
unless_configuration (ok argv) = ok (some argv)
unless_configuration (err (configuration message)) = ok none
unless_configuration (err raised) = err raised

-- `seen` is a set of argument lists.
abbrev same_argv : List String → List String → Bool
same_argv [] [] = true
same_argv (x ∷ xs) (y ∷ ys) = x == y && same_argv xs ys
same_argv _ _ = false

unfoldable pub seen_before : List (List String) → List String → Bool
unfolding same_argv
seen_before [] argv = false
seen_before (other ∷ seen) argv = same_argv other argv || seen_before seen argv

-- `command.get("argv", []) if isinstance(command, dict) else command`
abbrev pub argv_in : Value → Value
argv_in (obj command) = get_or "argv" (arr nil) command
argv_in command = command

abbrev pub planner_source : String
planner_source = "planner.validation_commands"

module _ (show : Show) where
  -- `tuple(str(item) for item in raw if str(item).strip())`
  unfoldable pub argv_of : Items → List String
  unfolding strip to_str
  argv_of nil = []
  argv_of (cons item items) =
      let rest = argv_of items in
      if strip (to_str show item) == "" then rest else to_str show item ∷ rest

  unfoldable pub parse_text : String → String → Result (List String)
  unfolding strip has_text has_metachar split
  parse_text source raw = do
    let stripped = strip raw
    raise_if (has_text "&;" stripped || has_text "& ;" stripped)
        (configuration (source ∷ " uses shell background syntax; use structured argv" ∷ []))
    raise_if (has_metachar stripped)
        (configuration (source ∷ " contains shell metacharacters; use structured argv" ∷ []))
    split stripped

  unfoldable pub parse_validation_argv : String → Value → Result (List String)
  unfolding argv_of parse_text
  parse_validation_argv source (arr items) = not_empty source (argv_of items)
  parse_validation_argv source (str text) = parse_text source text >>= not_empty source
  parse_validation_argv source _ =
      err (configuration (source ∷ " requires argv list or string" ∷ []))

  -- `for candidate in candidates: ...`
  unfoldable pub first_candidate : List String → Result (Option (List String))
  unfolding parse_validation_argv
  first_candidate [] = ok none
  first_candidate (candidate ∷ candidates) =
      let later = first_candidate candidates in
      unless_configuration (parse_validation_argv planner_source (str candidate)) >>= λ found.
      elim found [ some argv ↦ ok (some argv) | none ↦ later ]

  -- The text before each separator that occurs.
  unfoldable pub heads : List String → String → List String
  unfolding strip shorten
  heads [] text = []
  heads (separator ∷ separators) text =
      let rest = heads separators text in
      elim (find? text separator) [ none ↦ rest | some n ↦ strip (shorten n text) ∷ rest ]

  unfoldable pub planner_validation_argv : Value → Result (Option (List String))
  unfolding parse_validation_argv first_candidate heads strip get
  planner_validation_argv (obj raw) = unless_configuration (
      parse_validation_argv planner_source
        (argv_in (get_or "command" (get_or "argv" null raw) raw)))
  planner_validation_argv (arr items) =
      unless_configuration (parse_validation_argv planner_source (arr items))
  planner_validation_argv (str raw) =
      let stripped = strip raw in
      if stripped == ""
      then ok none
      else first_candidate (stripped ∷ heads compound_shell_separators stripped)
  planner_validation_argv _ = ok none

  abbrev pub command_dict : ℕ → List String → Fields
  command_dict n argv =
      field "name" (str ("validation-" <> to_str show (num n)))
        (field "command" (obj (field "cwd" (str ".") (field "argv" (arr (texts argv)) end))) end)

  -- The loop of `sanitize_planner_validation_commands`.
  unfoldable pub sanitize_each : Items → List (List String) → List Fields → Result (List Fields)
  unfolding planner_validation_argv seen_before to_str
  sanitize_each nil seen sanitized = ok sanitized
  sanitize_each (cons raw commands) seen sanitized = planner_validation_argv raw >>= λ found.
      elim found [
        | none ↦ sanitize_each commands seen sanitized
        | some argv ↦ elim (seen_before seen argv) [
          | true ↦ sanitize_each commands seen sanitized
          | false ↦
              sanitize_each commands (seen ++ (argv ∷ []))
                (sanitized ++ (command_dict (length sanitized + 1) argv ∷ []))
        ]
      ]

  unfoldable pub sanitize_planner_validation_commands : Value → Result (List Fields)
  unfolding sanitize_each
  sanitize_planner_validation_commands (arr commands) = sanitize_each commands [] []
  sanitize_planner_validation_commands _ = ok []
