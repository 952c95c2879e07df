-- ===== src/Validation/Freeze.antt =====
-- validation/contract.py: the checks of a planner's packages before they are frozen. A package is
-- a dict, as the planner gave it. Whether a path is there under the repository's root is a parameter.
pub mod Disjoint
use railwarden.Base.{
  ℕ, suc, zero, String, ◌<>◌, ◌==◌, Bool, true, false, not, ◌&&◌, ◌||◌, Option, none, some, List,
  [], ◌∷◌, Dict, lookup, insert, keys, sorted, Result, ok, err, Error, configuration, type_error,
  ◌>>=◌, ◌>>◌, raise_if, if◌then◌else◌,
}
use railwarden.Config.{WorkPackage, new_package}
use railwarden.Value.{
  Value, str, num, flag, null, obj, arr, Items, nil, cons, Fields, field, end, get, get_or, truthy,
  Show, to_str,
}
use railwarden.Scheduler.Dag.{Packages, validate_dag}
use railwarden.Validation.WorkerResult.{to_texts}
use railwarden.Validation.Commands.{argv_in, parse_validation_argv}

abbrev letters : String → List String
letters String.[] = []
letters (String.◌∷◌ c text) = String.◌∷◌ c String.[] ∷ letters text

abbrev field_names : Fields → List String
field_names end = []
field_names (field k v d) = k ∷ field_names d

abbrev pub non_empty_list : Value → Bool
non_empty_list (arr (cons _ _)) = true
non_empty_list _ = false

-- The items of a list; of a value that is no list, none.
abbrev pub list_items : Value → Items
list_items (arr items) = items
list_items _ = nil

abbrev pub package_in : Option Fields → Fields
package_in none = end
package_in (some planned) = planned

abbrev pub owned_once : String → String → Option String → Dict String → Result (Dict String)
owned_once package_id path none registry = ok (insert path package_id registry)
owned_once package_id path (some owner) registry =
    if owner == package_id
    then ok (insert path package_id registry)
    else err
        (configuration ("Path " ∷ path ∷ " owned by both " ∷ owner ∷ " and " ∷ package_id ∷ []))

module _ (show : Show) where
  -- `tuple(str(item) for item in value)`
  unfoldable pub each_text : Value → Result (List String)
  unfolding to_texts
  each_text (arr items) = ok (to_texts show items)
  each_text (str text) = ok (letters text)
  each_text (obj fields) = ok (field_names fields)
  each_text _ = err (type_error ("object is not iterable" ∷ []))

  abbrev model_of : String → Fields → List String → WorkPackage
  model_of package_id planned dependencies =
      record (new_package package_id (to_str show (get_or "name" (str package_id) planned))
        (to_str show (get_or "objective" (str "") planned))) { dependencies = dependencies }

  unfoldable pub models_of : Dict Fields → Result Packages
  unfolding each_text get to_str
  models_of [] = ok []
  models_of ((package_id, planned) ∷ packages) = do
    dependencies ← each_text (get_or "dependencies" (arr nil) planned)
    models ← models_of packages
    ok ((package_id, model_of package_id planned dependencies) ∷ models)

  unfoldable pub validate_dag_from_dicts : Dict Fields → Result (Unit {0})
  unfolding models_of validate_dag
  validate_dag_from_dicts packages = models_of packages >>= λ models. validate_dag models

  abbrev check_command : String → Value → Result (Unit {0})
  check_command source (str raw) = parse_validation_argv show source (str raw) >>= λ argv. ok tt
  check_command source (obj raw) =
      parse_validation_argv show source (argv_in (get_or "command" (get_or "argv" null raw) raw))
      >>= λ argv. ok tt
  check_command source _ = ok tt

  unfoldable pub check_commands : String → ℕ → Items → Result (Unit {0})
  unfolding parse_validation_argv get to_str
  check_commands package_id index nil = ok tt
  check_commands package_id index (cons raw commands) =
      check_command (package_id <> ".validation_commands[" <> to_str show (num index) <> "]") raw
      >> check_commands package_id (suc index) commands

  abbrev check_list : String → Value → Result (Unit {0})
  check_list package_id (arr commands) = check_commands package_id 0 commands
  check_list package_id _ =
      err (configuration (package_id ∷ " validation_commands must be a list" ∷ []))

  unfoldable pub validate_package_commands : String → Fields → Result (Unit {0})
  unfolding check_commands truthy get
  validate_package_commands package_id planned =
      let commands = get_or "validation_commands" (get_or "validation" (arr nil) planned) planned in
      check_list package_id (if truthy commands then commands else arr nil)

  -- `{str(item["id"]): item for item in packages if isinstance(item, dict) and item.get("id")}`
  unfoldable pub package_map : Items → Dict Fields → Dict Fields
  unfolding truthy get to_str insert
  package_map nil named = named
  package_map (cons (obj planned) packages) named = package_map packages (
      if truthy (get_or "id" null planned)
      then insert (to_str show (get_or "id" null planned)) planned named
      else named)
  package_map (cons _ packages) named = package_map packages named

  -- `for raw_path in owned: ...`, with the registry of owned paths.
  unfoldable pub register : String → Items → Dict String → Result (Dict String)
  unfolding to_str lookup insert
  register package_id nil registry = ok registry
  register package_id (cons raw_path paths) registry =
      owned_once package_id (to_str show raw_path) (lookup (to_str show raw_path) registry) registry
      >>= register package_id paths

  module _ (exists : String → Bool) (require_context_refs : Bool) where
    unfoldable pub check_refs : String → Items → Result (Unit {0})
    unfolding to_str
    check_refs package_id nil = ok tt
    check_refs package_id (cons ref refs) =
        raise_if (not (exists (to_str show ref)))
          (configuration (package_id ∷ " context_ref missing: " ∷ to_str show ref ∷ []))
        >> check_refs package_id refs

    unfoldable pub freeze_package : String → Fields → Dict String → Result (Dict String)
    unfolding check_refs register validate_package_commands get
    freeze_package package_id planned registry = do
      let owned = get_or "owned_paths" (arr nil) planned
      let refs = get_or "context_refs" (arr nil) planned
      raise_if (not (non_empty_list owned))
          (configuration (package_id ∷ " requires non-empty owned_paths" ∷ []))
      raise_if (require_context_refs && not (non_empty_list refs))
          (configuration (package_id ∷ " requires at least one context_ref" ∷ []))
      check_refs package_id (list_items refs)
      registered ← register package_id (list_items owned) registry
      validate_package_commands package_id planned
      ok registered

    -- `for package_id, package in sorted(package_map.items()): ...`
    unfoldable pub freeze_each : Dict Fields → List String → Dict String → Result (Dict String)
    unfolding freeze_package lookup
    freeze_each named [] registry = ok registry
    freeze_each named (package_id ∷ ids) registry =
        freeze_package package_id (package_in (lookup package_id named)) registry
        >>= freeze_each named ids

    unfoldable pub validate_packages_for_freeze : Items → Result (Unit {0})
    unfolding package_map validate_dag_from_dicts freeze_each sorted keys
    validate_packages_for_freeze nil =
        err (Error.railwarden ("Cannot freeze an empty work planned list" ∷ []))
    validate_packages_for_freeze packages = do
      let named = package_map packages []
      validate_dag_from_dicts named
      registry ← freeze_each named (sorted (keys named)) []
      ok tt
