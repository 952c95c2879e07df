-- ===== src/Validation/Package.antt =====
-- validation/package.py: the validation of a package in its worktree. `shlex.split` and the test of
-- the command token's regular expression are parameters; `none` is the ValueError of `split`.
use railwarden.Base.{
  ℕ, suc, ◌+◌, String, ◌<>◌, ◌==◌, starts_with, Bool, true, false, ◌||◌, Option, none, some, List,
  [], ◌∷◌, Result, ok, err, value_error, ◌>>=◌, insert, if◌then◌else◌,
}
use railwarden.Config.{FilePath, ValidationCommand, WorkPackage}
use railwarden.Text.{strip, shorten}
use railwarden.Value.{num, str, flag, arr, obj, Items, nil, cons, Fields, end, field, put, texts}
use railwarden.Runtime.{Runtime}
use railwarden.World.{World}
use railwarden.Validation.Runner.{ValidationResult, run_validation_suite}

-- `result.to_dict()`
abbrev result_dict : ValidationResult → Fields
result_dict result = field "name" (str result.name) (
    field "command" (arr (texts result.command)) (
      field "cwd" (str result.cwd) (
        field "required" (flag result.required) (
          field "status" (str result.status) (
            field "returncode" (num result.returncode)
              (field "stdout" (str result.stdout) (field "stderr" (str result.stderr) end)))))))

unfoldable pub result_items : List ValidationResult → Items
result_items [] = nil
result_items (result ∷ results) = cons (obj (result_dict result)) (result_items results)

module _ (split : String → Option (List String)) (is_token : String → Bool)
    (number : ℕ → String) where
  -- `shlex.split(text)`
  abbrev split_or_raise : String → Result (List String)
  split_or_raise text = elim (split text) [
    | some argv ↦ ok argv
    | none ↦ err (value_error ("No closing quotation" ∷ []))
  ]

  abbrev first_is_command : List String → Bool
  first_is_command [] = false
  first_is_command (first ∷ _) =
      starts_with first "./" || starts_with first "../" || starts_with first "/" || is_token first

  unfoldable pub looks_like_command : String → Result Bool
  unfolding strip
  looks_like_command text =
      if strip text == ""
      then ok false
      else (split_or_raise (strip text) >>= λ argv. ok (first_is_command argv))

  abbrev acceptance : String → ℕ → List String → ValidationCommand
  acceptance package_id index argv = record {
    name = package_id <> "-acceptance-" <> number (index + 1);
    cwd = ".";
    argv = argv;
    required = true;
    generated_outputs = [];
  }

  abbrev with_argv : String → ℕ → List String → List ValidationCommand → List ValidationCommand
  with_argv package_id index [] rest = rest
  with_argv package_id index (first ∷ argv) rest = acceptance package_id index (first ∷ argv) ∷ rest

  -- The loop over the acceptance tests, from an index.
  unfoldable pub acceptance_commands : String → ℕ → List String → Result (List ValidationCommand)
  unfolding looks_like_command
  acceptance_commands package_id index [] = ok []
  acceptance_commands package_id index (command ∷ commands) = do
    runs ← looks_like_command command
    argv ← (if runs then split_or_raise command else ok [])
    rest ← acceptance_commands package_id (suc index) commands
    ok (with_argv package_id index argv rest)

  abbrev own_or :
      List ValidationCommand → Result (List ValidationCommand) → Result (List ValidationCommand)
  own_or [] others = others
  own_or (command ∷ commands) others = ok (command ∷ commands)

  unfoldable pub commands_for_package : WorkPackage → Result (List ValidationCommand)
  unfolding acceptance_commands
  commands_for_package work_package =
      own_or work_package.validation_commands
        (acceptance_commands work_package.package_id 0 work_package.acceptance_tests)

  module _ (W : World) (workspace : FilePath) where
    -- The payload with the path of its file, and the payload in that file.
    unfoldable pub evidence_of :
        WorkPackage
        → String
        → String × List ValidationResult × List String
        → Runtime
        → Fields × Runtime
    unfolding result_items insert shorten put
    evidence_of work_package commit_hash (status, results, removed) rt =
        let path =
          "validation/"
          <> work_package.package_id
          <> "-"
          <> shorten 12 commit_hash
          <> "-package.json" in
        let payload : Fields = field "schema_version" (str "2.0.0") (
          field "package_id" (str work_package.package_id) (
            field "commit_hash" (str commit_hash) (
              field "workspace" (str workspace) (
                field "status" (str status) (
                  field "required" (flag true) (
                    field "commands" (arr (result_items results)) (
                      field "cleanup" (arr (texts removed))
                        (field "created_at" (num rt.clock) end)))))))) in
        (
          put "evidence_path" (str path) payload,
          record rt { evidence = insert path (obj payload) rt.evidence },
        )

    abbrev recorded :
        WorkPackage
        → String
        → Result (String × List ValidationResult × List String) × W.State
        → Runtime
        → Result Fields × W.State × Runtime
    recorded work_package commit_hash (ok suite, s) rt =
        let (payload, t) = evidence_of work_package commit_hash suite rt in (ok payload, s, t)
    recorded work_package commit_hash (err e, s) rt = (err e, s, rt)

    abbrev validated :
        WorkPackage
        → String
        → Result (List ValidationCommand)
        → W.State
        → Runtime
        → Result Fields × W.State × Runtime
    validated work_package commit_hash (ok commands) s rt =
        recorded work_package commit_hash (run_validation_suite W workspace commands s) rt
    validated work_package commit_hash (err e) s rt = (err e, s, rt)

    -- It changes the worktree and the runtime directory.
    unfoldable pub run_package_validation :
        WorkPackage → String → W.State → Runtime → Result Fields × W.State × Runtime
    unfolding commands_for_package run_validation_suite evidence_of
    run_package_validation work_package commit_hash s rt =
        validated work_package commit_hash (commands_for_package work_package) s rt
