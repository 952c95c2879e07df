-- ===== src/Validation/Runner.antt =====
-- validation/runner.py: the validation commands of a package or of the project, run in a
-- repository, and the removal of the files that they leave. The time that a command takes is not
-- modelled. `removable` is a set; its files are taken in sorted order, then by falling length.
pub mod Suite
use Prim.Native.String.{len}
use railwarden.Base.{
  ℕ, String, ◌<>◌, ◌==◌, starts_with, Bool, true, false, not, ◌&&◌, ◌||◌, Option, none, some, List,
  [], ◌∷◌, ◌++◌, map, Result, ok, err, validation, contains, sorted, sorted_by, leb, nat_eq,
  if◌then◌else◌,
}
use railwarden.Base.Exec.{Exec, pure, throw, gets, refuse, ◌>>=◌, ◌>>◌}
use railwarden.Config.{FilePath, ValidationCommand}
use railwarden.Text.{slashed, rstrip_slash}
use railwarden.World.{
  World, Reply, PathKind, file, directory, absent, under, is_dir, tracked_is_clean, untracked_files,
}

pub record ValidationResult : Type 0 where
  pub name : String
  pub command : List String
  pub cwd : FilePath
  pub required : Bool
  pub status : String
  pub returncode : ℕ
  pub stdout : String
  pub stderr : String

-- `result.required and result.status != "passed"`
abbrev pub breaks : ValidationResult → Bool
breaks result = result.required && not (result.status == "passed")

-- `item == root or item.startswith(root + "/")` for some root
unfoldable pub declared_by : List String → String → Bool
declared_by [] item = false
declared_by (root ∷ roots) item =
    item == root || starts_with item (root <> "/") || declared_by roots item

-- `not declared`
abbrev pub no_outputs : List String → Bool
no_outputs [] = true
no_outputs (_ ∷ _) = false

-- `sorted(after - before)`, of those that may be removed
unfoldable pub new_files : List String → List String → List String → List String
unfolding declared_by
new_files before declared [] = []
new_files before declared (item ∷ items) =
    let rest = new_files before declared items in
    let kept = contains before item || contains rest item in
    let listed = no_outputs declared || declared_by declared item in
    if kept then rest else if listed then item ∷ rest else rest

abbrev longest_first : String → String → Bool
longest_first a b = leb (len b) (len a)

unfoldable pub normalized_outputs : List FilePath → List String
unfolding slashed rstrip_slash
normalized_outputs = map (λ path. rstrip_slash (slashed path))

-- `sorted(removable, key=len, reverse=True)`
unfoldable pub removable : List String → List FilePath → List String → List String
unfolding new_files normalized_outputs sorted_by
removable before generated_outputs after =
    sorted_by longest_first (sorted (new_files before (normalized_outputs generated_outputs) after))

-- Whether a required command failed.
unfoldable pub any_breaks : List ValidationResult → Bool
any_breaks [] = false
any_breaks (result ∷ results) = breaks result || any_breaks results

unfoldable pub all_outputs : List ValidationCommand → List FilePath
all_outputs [] = []
all_outputs (command ∷ commands) = command.generated_outputs ++ all_outputs commands

module _ (W : World) (repository : FilePath) where
  open W use {State, kind, unlink, rmdir, execute, inside}

  unfoldable pub resolve_cwd : FilePath → State → Result FilePath
  resolve_cwd cwd s =
      if inside s repository cwd
      then if is_dir W s (under repository cwd)
        then ok (under repository cwd)
        else err (validation ("Validation cwd does not exist: " ∷ under repository cwd ∷ []))
      else err (validation ("Validation cwd escapes repository: " ∷ cwd ∷ []))

  -- What a round removes: the kind of the path, and what `rmdir` would give.
  abbrev pub removed_as : PathKind → Option State → String → State → State × Bool
  removed_as file _ item s = (unlink s (under repository item), true)
  removed_as directory (some t) item s = (t, true)
  removed_as directory none item s = (s, false)
  removed_as absent _ item s = (s, false)

  -- One round of the loop that removes: whether the item was removed.
  unfoldable pub remove_item : String → State → State × Bool
  remove_item item s =
      removed_as (kind s (under repository item)) (rmdir s (under repository item)) item s

  unfoldable pub remove_items : List String → State → State × List String
  unfolding remove_item
  remove_items [] s = (s, [])
  remove_items (item ∷ items) s =
      let (t, gone) = remove_item item s in
      let (u, removed) = remove_items items t in (u, if gone then item ∷ removed else removed)

  -- The removal, from the untracked files that there are now.
  unfoldable pub remove_new : List String → List FilePath → List String → Exec State (List String)
  unfolding remove_items removable
  remove_new before generated_outputs after s =
      let (t, removed) = remove_items (removable before generated_outputs after) s in
      (ok removed, t)

  unfoldable pub cleanup_new_untracked : List String → List FilePath → Exec State (List String)
  unfolding remove_new
  cleanup_new_untracked before generated_outputs =
      gets (λ s. untracked_files W s repository) >>= remove_new before generated_outputs

  abbrev finished : ValidationCommand → Option Reply → ValidationResult
  finished command none = record {
    name = command.name;
    command = command.argv;
    cwd = command.cwd;
    required = command.required;
    status = "failed";
    returncode = 127;
    stdout = "";
    stderr = "Failed to execute command: ";
  }
  finished command (some reply) = record {
    name = command.name;
    command = command.argv;
    cwd = command.cwd;
    required = command.required;
    status = if nat_eq reply.returncode 0 then "passed" else "failed";
    returncode = reply.returncode;
    stdout = reply.stdout;
    stderr = reply.stderr;
  }

  unfoldable pub run_validation_command : ValidationCommand → Exec State ValidationResult
  unfolding resolve_cwd
  run_validation_command command = do
    cwd ← gets (resolve_cwd command.cwd)
    λ s. let (t, reply) = execute s cwd command.argv in (ok (finished command reply), t)

  -- `break` after a required command that failed
  abbrev pub unless_broke :
      Bool → Exec State (List ValidationResult) → Exec State (List ValidationResult)
  unless_broke true rest = pure []
  unless_broke false rest = rest

  -- The loop of `run_validation_suite`, which ends at the first required command that fails.
  unfoldable pub run_commands : List ValidationCommand → Exec State (List ValidationResult)
  unfolding run_validation_command
  run_commands [] = pure []
  run_commands (command ∷ commands) = do
    result ← run_validation_command command
    rest ← unless_broke (breaks result) (run_commands commands)
    pure (result ∷ rest)

  -- The result when no required command failed.
  abbrev pub passed_if :
      List ValidationResult
      → List String
      → Bool
      → Exec State (String × List ValidationResult × List String)
  passed_if results removed still = do
    refuse (not still) (validation ("Validation left tracked repository changes" ∷ []))
    pure ("passed", results, removed)

  -- The end of `run_validation_suite`: the status, the results and the removed files.
  unfoldable pub verdict :
      List ValidationResult
      → List String
      → Bool
      → Exec State (String × List ValidationResult × List String)
  verdict results removed true = pure ("failed", results, removed)
  verdict results removed false =
      gets (λ s. tracked_is_clean W s repository) >>= passed_if results removed

  -- The last steps of `run_validation_suite`, after the loop.
  unfoldable pub after_commands :
      List String
      → List ValidationCommand
      → List ValidationResult
      → Exec State (String × List ValidationResult × List String)
  unfolding verdict cleanup_new_untracked any_breaks all_outputs
  after_commands before commands results = do
    removed ← cleanup_new_untracked before (all_outputs commands)
    verdict results removed (any_breaks results)

  unfoldable pub run_validation_suite :
      List ValidationCommand → Exec State (String × List ValidationResult × List String)
  unfolding run_commands after_commands
  run_validation_suite commands = do
    clean ← gets (λ s. tracked_is_clean W s repository)
    refuse (not clean) (validation ("Repository has tracked changes before validation" ∷ []))
    before ← gets (λ s. untracked_files W s repository)
    results ← run_commands commands
    after_commands before commands results
