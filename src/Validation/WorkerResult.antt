-- ===== src/Validation/WorkerResult.antt =====
-- validation/worker_result.py: what a worker reports, checked against its worktree. The test of the
-- JSON schema is a parameter, the message of `jsonschema.validate` if it raises. The dict that the
-- function completes is returned; after an exception no caller reads it.
pub mod Accepted
use railwarden.Base.{
  String, ◌==◌, Bool, true, false, not, ◌&&◌, ◌||◌, Option, none, some, List, [], ◌∷◌, Result, ok,
  err, Message, validation, raise_if, ◌>>=◌, ◌>>◌, contains, if◌then◌else◌,
}
use railwarden.Config.{FilePath, WorkPackage}
use railwarden.World.{
  World, head, output, current_branch, tracked_is_clean, changed_files_in_commit,
}
use railwarden.Value.{
  Value, null, num, str, flag, arr, obj, Items, nil, cons, Fields, end, field, get, get_or, put,
  texts, dicts, Show, to_str, text_of,
}
use railwarden.Validation.Paths.{validate_owned_paths}

-- `isinstance(v, str)` and not empty
unfoldable pub nonempty_text : Value → Option String
nonempty_text (str s) = if s == "" then none else some s
nonempty_text _ = none

-- `result.get("status")` is "completed", or "success", which stands for it.
unfoldable pub is_completed : Fields → Bool
unfolding get
is_completed result = elim (get_or "status" null result) [
  | str s ↦ s == "completed" || s == "success"
  | _ ↦ false
]

module _ (show : Show) where
  -- `[str(item) for item in items]`
  unfoldable pub to_texts : Items → List String
  unfolding to_str
  to_texts nil = []
  to_texts (cons v items) = to_str show v ∷ to_texts items

  -- A report without a list of changed files gets that of the commit.
  abbrev pub reported_files : Fields → List String → List String × Fields
  reported_files result changed_files = elim (get_or "changed_files" null result) [
    | arr items ↦ (to_texts items, result)
    | _ ↦ (changed_files, put "changed_files" (arr (texts changed_files)) result)
  ]

  abbrev derived_test : String → Bool → Value
  derived_test command passed = obj (
      field "command" (str command) (
        field "status" (str (if passed then "passed" else "failed"))
          (field "summary" (str "derived") end)))

  unfoldable pub derived_tests : Fields → Items
  unfolding to_str
  derived_tests end = nil
  derived_tests (field k v tests) =
      cons (derived_test k (to_str show v == "passed")) (derived_tests tests)

  abbrev pub tests_of : Fields → Items × Fields
  tests_of result = elim (get_or "tests" null result) [
    | arr items ↦ (items, result)
    | obj tests ↦ (derived_tests tests, put "tests" (arr (derived_tests tests)) result)
    | _ ↦ (
      cons (derived_test "verification" true) nil,
      put "tests" (arr (cons (derived_test "verification" true) nil)) result,
    )
  ]

  unfoldable pub any_failed : List Fields → Bool
  unfolding text_of contains
  any_failed [] = false
  any_failed (test ∷ tests) =
      contains ("failed" ∷ "not_run" ∷ []) (text_of show "status" test) || any_failed tests

  unfoldable pub validate_tests : String → List Fields → Result (Unit {0})
  unfolding any_failed
  validate_tests package_id tests =
      raise_if (any_failed tests)
        (validation (package_id ∷ " reported failed or missing tests" ∷ []))

  module _ (W : World) (schema_error : Fields → Option Message) where
    open W use {State}

    abbrev or_default : Option String → Result String → Result String
    or_default (some s) _ = ok s
    or_default none default = default

    -- The value of the key if it is a text that is not empty, else the default.
    abbrev pub text_or : String → Fields → Result String → Result String
    text_or key result default = or_default (nonempty_text (get_or key null result)) default

    -- The commit and the branch that the result names, the branch compared.
    unfoldable pub check_branch :
        State → WorkPackage → Fields → FilePath → String → Result (String × Fields)
    unfolding nonempty_text head current_branch get put
    check_branch s work_package result workspace expected_branch = do
      commit_hash ← text_or "commit_hash" result (head W s workspace "HEAD")
      actual_branch ← current_branch W s workspace
      reported_branch ← text_or "branch" result (ok actual_branch)
      raise_if (not (actual_branch == reported_branch))
          (validation (work_package.package_id ∷ " branch mismatch" ∷ []))
      raise_if (not (actual_branch == expected_branch)) (
          validation (
            work_package.package_id ∷ " expected branch " ∷ expected_branch ∷ ", found "
            ∷ actual_branch ∷ []))
      ok (
        commit_hash,
        put "branch" (str reported_branch) (put "commit_hash" (str commit_hash) result),
      )

    -- The head of the worktree, which must be the commit and clean.
    unfoldable pub check_head : State → WorkPackage → String → FilePath → Result String
    unfolding head output tracked_is_clean
    check_head s work_package commit_hash workspace = do
      actual_head ← head W s workspace "HEAD"
      resolved ← output W s workspace ("rev-parse" ∷ commit_hash ∷ [])
      raise_if (not (resolved == actual_head))
          (validation (work_package.package_id ∷ " reported commit is not worktree HEAD" ∷ []))
      clean ← tracked_is_clean W s workspace
      raise_if (not clean) (validation (work_package.package_id ∷ " worktree is not clean" ∷ []))
      ok actual_head

    -- The changed files of the commit, and the tests.
    unfoldable pub check_files : State → WorkPackage → Fields → FilePath → String → Result Fields
    unfolding to_texts derived_tests validate_tests validate_owned_paths changed_files_in_commit get
        put
    check_files s work_package result workspace actual_head = do
      changed_files ← changed_files_in_commit W s workspace actual_head
      let reported = reported_files result changed_files
      validate_owned_paths changed_files reported.0 work_package.owned_paths
          work_package.forbidden_paths
      validate_tests work_package.package_id (dicts (tests_of reported.1).0)
      ok (tests_of reported.1).1

    -- `validate_completed_package` for a result that claims completion.
    unfoldable pub check_completed :
        State → WorkPackage → Fields → FilePath → String → Result Fields
    unfolding check_branch check_head check_files
    check_completed s work_package result workspace expected_branch = do
      named ← check_branch s work_package result workspace expected_branch
      actual_head ← check_head s work_package named.0 workspace
      check_files s work_package named.1 workspace actual_head

    -- The rest of `validate_completed_package`, from what the schema says.
    abbrev pub accepted :
        State → WorkPackage → Fields → FilePath → String → Option Message → Result Fields
    accepted s work_package result workspace expected_branch (some message) =
        err (validation ("JSON schema validation failed: " ∷ message))
    accepted s work_package result workspace expected_branch none = elim (is_completed result) [
      | true ↦ check_completed s work_package result workspace expected_branch
      | false ↦ ok result
    ]

    unfoldable pub validate_completed_package :
        State → WorkPackage → Fields → FilePath → String → Result Fields
    unfolding check_completed is_completed
    validate_completed_package s work_package result workspace expected_branch =
        accepted s work_package result workspace expected_branch (schema_error result)
