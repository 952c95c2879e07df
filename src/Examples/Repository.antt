-- ===== src/Examples/Repository.antt =====
-- A repository that is clean and on its integration branch, in which every command passes. The
-- branch of package "a" is merged, and that of package "b" is not.
use railwarden.Base.{
  Error, err, ◌≢◌, validation, ℕ, suc, String, ◌==◌, Bool, true, false, none, some, List, [], ◌∷◌,
  Result, ok, err, ◌≡◌, refl, ◌⊎◌, if◌then◌else◌, All, sorted, contains,
}
use railwarden.Config.{FilePath, ValidationCommand, WorkPackage, new_package, ProjectConfig}
use railwarden.World.{
  World, Reply, directory, file, absent, under, current_branch, head, tracked_is_clean,
  untracked_files,
}
use railwarden.Validation.Runner.{ValidationResult, run_validation_suite}
use railwarden.Integration.{
  rolled_back, validate_or_roll_back, Candidate, Payload, merged_and_validated, integrate_one,
}
use railwarden.Integration.Rollback.{Restored, validate_or_roll_back-head}
use railwarden.Integration.Merge.{Validated, integrate_one-Validated}
use railwarden.Worktrees.{Ensured, ensure_worktree}
use railwarden.Worktrees.Reuse.{Reused, Created, ensure_worktree-Reused}
use railwarden.Scheduler.Dag.{validate_dag}
use railwarden.Value.{dicts, Fields, str, field, end, Show}
use railwarden.Runtime.{empty}
use railwarden.Base.{Dict, keys}
use railwarden.Scheduler.Classifier.{PackageState, classify_packages}
use railwarden.Scheduler.Classifier.Ladder.{ReadySound, classify_packages-ReadySound}
use railwarden.Validation.WorkerResult.{validate_completed_package, is_completed}
use railwarden.Validation.WorkerResult.Accepted.{OwnedCommit, validate_completed_package-Owned}
use railwarden.Validation.Runner.Suite.{Ran, run_validation_suite-Ran}

abbrev replied : String → Reply
replied text = record { returncode = 0; stdout = text; stderr = "" }

abbrev asked_git : List String → Reply
asked_git [] = replied ""
asked_git (c ∷ []) = replied ""
asked_git (c ∷ x ∷ []) =
    if c == "branch" then replied "main" else if c == "rev-parse" then replied x else replied ""
asked_git (c ∷ x ∷ y ∷ _) =
    if c == "merge-base"
    then record { returncode = if y == "railwarden/a" then 0 else 1; stdout = ""; stderr = "" }
    else if c == "worktree"
    then replied "worktree /wt"
    else replied ""

abbrev repository : World
repository = record {
  State = ℕ;
  query = λ s root arguments. asked_git arguments;
  command = λ s root arguments. (suc s, replied "");
  kind = λ s path. directory;
  unlink = λ s path. s;
  rmdir = λ s path. none;
  rmtree = λ s path. s;
  execute = λ s cwd argv. (suc s, some (replied "fine"));
  inside = λ s root cwd. true;
}

abbrev pytest : ValidationCommand
pytest = record {
  name = "tests";
  cwd = ".";
  argv = "pytest" ∷ [];
  required = true;
  generated_outputs = [];
}

abbrev passed_tests : ValidationResult
passed_tests = record {
  name = "tests";
  command = "pytest" ∷ [];
  cwd = ".";
  required = true;
  status = "passed";
  returncode = 0;
  stdout = "fine";
  stderr = "";
}

suite_passes :
    run_validation_suite repository "/repo" (pytest ∷ []) 0
    ≡ (ok ("passed", passed_tests ∷ [], []), 1)
unfolding run_validation_suite tracked_is_clean untracked_files sorted
suite_passes = refl

run_validation_suite-Ran_example :
    ((◌≡◌ {A = String} "passed" "failed") × Ran (pytest ∷ []) (passed_tests ∷ []) true)
    ⊎ ((◌≡◌ {A = String} "passed" "passed")
        × Ran (pytest ∷ []) (passed_tests ∷ []) false
        × (tracked_is_clean repository 1 "/repo" ≡ ok true))
run_validation_suite-Ran_example =
    run_validation_suite-Ran repository "/repo" (pytest ∷ []) 0 1 "passed" (passed_tests ∷ []) []
      suite_passes

abbrev project : ProjectConfig
project = record {
  name = "demo";
  repository_root = "/repo";
  integration_branch = "main";
  worktree_root = "/wt";
  runtime_directory = "/run";
  worker_concurrency = 1;
  worker_providers = "codex" ∷ "composer" ∷ [];
  provider_configs = [];
  supervision_mode = "default";
  execution_preserve_partial_work_on_handoff = true;
  execution_require_plan_approval = true;
  hermes_primary_model = "gpt";
  planner_model = "gpt";
  planner_provider = "codex";
}

abbrev branch_b : Candidate
branch_b = record { package_id = "b"; branch = "railwarden/b"; head = "railwarden/b" }

abbrev merged_b : Payload
merged_b = merged_and_validated (record {
  planned = record {
    package_id = "b";
    branch = "railwarden/b";
    before_head = "HEAD";
    scheduled_head = "railwarden/b";
    actual_head = "railwarden/b";
    integration_branch = "main";
    original_branch = "main";
  };
  after_head = "HEAD";
  validation = passed_tests ∷ [];
  cleanup = [];
})

merges : integrate_one repository project branch_b (pytest ∷ []) true 0 ≡ (ok merged_b, 2)
unfolding integrate_one run_validation_suite tracked_is_clean untracked_files sorted
merges = refl

integrate_one-Validated_example : Validated true (pytest ∷ []) merged_b
integrate_one-Validated_example =
    integrate_one-Validated repository project true branch_b (pytest ∷ []) 0 2 merged_b merges

abbrev same_path : FilePath → FilePath
same_path path = path

abbrev reused : Ensured
reused = record { operation = "reuse"; workspace = "/wt"; branch = "main"; dirty = false }

ensure_worktree-Reused_example :
    Reused repository same_path "/repo" 0 0 "/wt" "main" "execute" ⊎ Created "execute" reused
unfolding ensure_worktree
ensure_worktree-Reused_example =
    ensure_worktree-Reused repository same_path "/repo" "main" "/wt" "main" "execute" false 0 0
      reused refl

abbrev got {ℓ} : {A : Type ℓ} → A → Result A → A
got default (ok a) = a
got default (err _) = default

abbrev packages : Dict WorkPackage
packages =
    ("b", record (new_package "b" "second" "") { dependencies = "a" ∷ [] })
    ∷ ("a", new_package "a" "first" "")
    ∷ []

abbrev show : Show
show v = "?"

abbrev classified : List PackageState
classified = got [] (classify_packages repository show project [] 0 (empty 7) packages)

classify_packages-ReadySound_example :
    All (ReadySound repository show project [] 0 (empty 7) packages) classified
unfolding classify_packages validate_dag keys head
classify_packages-ReadySound_example =
    classify_packages-ReadySound repository show project [] 0 (empty 7) packages classified refl

abbrev report : Fields
report = field "status" (str "completed") end

abbrev owner : WorkPackage
owner = record (new_package "b" "second" "") { owned_paths = "src" ∷ [] }

abbrev accepted : Fields
accepted =
    got end (validate_completed_package show repository (λ d. none) 0 owner report "/wt" "main")

validate_completed_package-Owned_example :
    (commit : String) × (current_branch repository 0 "/wt" ≡ ok "main")
    × (head repository 0 "/wt" "HEAD" ≡ ok commit)
    × (tracked_is_clean repository 0 "/wt" ≡ ok true)
    × OwnedCommit repository show 0 owner "/wt" commit accepted
unfolding validate_completed_package is_completed dicts
validate_completed_package-Owned_example =
    validate_completed_package-Owned repository show (λ d. none) 0 owner report accepted "/wt"
      "main" refl refl

-- A repository of which HEAD and one untracked file are known. Every command fails and leaves the
-- file; `reset` moves HEAD, and any other git command changes nothing.
abbrev asked_moving : String → Bool → List String → Reply
asked_moving tip littered [] = replied ""
asked_moving tip littered (c ∷ _) =
    if c == "rev-parse"
    then replied tip
    else if c == "ls-files"
    then replied (if littered then "out.log" else "")
    else replied ""

abbrev reset_to : String × Bool → List String → String × Bool
reset_to s (c ∷ hard ∷ revision ∷ _) = if c == "reset" then (revision, s.1) else s
reset_to s _ = s

abbrev moving : World
moving = record {
  State = String × Bool;
  query = λ s root arguments. asked_moving s.0 s.1 arguments;
  command = λ s root arguments. (reset_to s arguments, replied "");
  kind = λ s path. if path == "/repo/out.log" then if s.1 then file else absent else directory;
  unlink = λ s path. if path == "/repo/out.log" then (s.0, false) else s;
  rmdir = λ s path. none;
  rmtree = λ s path. s;
  execute =
      λ s cwd argv. ((s.0, true), some (record { returncode = 1; stdout = ""; stderr = "broken" }));
  inside = λ s root cwd. true;
}

abbrev rejection : Error
rejection = rolled_back moving project branch_b "c0" [] []

removal_keeps_head :
    (b : Bool) (u : String × Bool)
    → head moving (if b then (u.0, false) else u) "/repo" "HEAD" ≡ head moving u "/repo" "HEAD"
unfolding head
removal_keeps_head true u = refl
removal_keeps_head false u = refl

validate_or_roll_back-head_example :
    Restored moving project "c0" ("c1", true) ("c0", false)
    ⊎ ((run_validation_suite moving "/repo" (pytest ∷ []) ("c1", false)
          ≡ (err rejection, ("c0", false)))
        × ((m : List String) → rejection ≢ validation m))
unfolding validate_or_roll_back run_validation_suite tracked_is_clean untracked_files sorted head
    contains
validate_or_roll_back-head_example =
    validate_or_roll_back-head moving project
      (λ u item listed. removal_keeps_head (under "/repo" item == "/repo/out.log") u)
      (λ u t item listed e. absurd (cc)) "c0" (λ s succeeded. refl) branch_b (pytest ∷ []) []
      ("c1", false) ("c0", false) rejection refl
