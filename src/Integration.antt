-- ===== src/Integration.antt =====
-- integration/manager.py: the merge of one package branch into the integration branch, its
-- validation, and the rollback. The lock file is not modelled: the function runs as its holder.
-- The payload is a record; the file of evidence is written from it by the caller of the model.
pub mod Merge
pub mod Rollback
use railwarden.Base.{
  ℕ, String, ◌<>◌, ◌==◌, starts_with, Bool, true, false, not, ◌&&◌, ◌||◌, Option, none, some, List,
  [], ◌∷◌, ◌++◌, Result, ok, err, Error, Message, git, validation, nat_eq, if◌then◌else◌,
}
use railwarden.Base.Exec.{Exec, pure, throw, and_then, gets, refuse, ◌>>=◌, ◌>>◌}
use railwarden.Config.{FilePath, ProjectConfig, ValidationCommand}
use railwarden.World.{
  World, Reply, current_branch, tracked_is_clean, branch_exists, branch_is_ancestor, head, run_git,
  try_git, untracked_files,
}
use railwarden.Validation.Runner.{ValidationResult, run_validation_suite, cleanup_new_untracked}

pub record Candidate : Type 0 where
  pub package_id : String
  pub branch : String
  pub head : String

-- What is known before the merge.
pub record Planned : Type 0 where
  pub package_id : String
  pub branch : String
  pub before_head : String
  pub scheduled_head : String
  pub actual_head : String
  pub integration_branch : String
  pub original_branch : String

pub record Merged : Type 0 where
  pub planned : Planned
  pub after_head : String
  pub validation : List ValidationResult
  pub cleanup : List String

pub data Payload : Type 0 where
  planned : Planned → Payload
  merged_and_validated : Merged → Payload
  -- with the branch that was fast-forwarded and its head
  fast_forwarded : Merged → String → String → Payload

module _ (W : World) (config : ProjectConfig) where
  open W use {State}

  abbrev pub repository : FilePath
  repository = config.repository_root

  -- `reason` is the message of the exception that validation raised, if it did.
  abbrev pub rolled_back : Candidate → String → List String → Message → Error
  rolled_back candidate before_head removed reason = validation (
      "Post-merge validation failed for "
      ∷ candidate.package_id
      ∷ "; rolled back to "
      ∷ before_head
      ∷ "; cleanup="
      ∷ (removed ++ reason))

  -- `reset --hard`, the removal of the new untracked files, and the exception.
  unfoldable pub roll_back :
      {A : Type 0} → Candidate → String → List String → Message → Exec State A
  unfolding try_git cleanup_new_untracked
  roll_back candidate before_head before_untracked reason = do
    try_git W repository ("reset" ∷ "--hard" ∷ before_head ∷ [])
    removed ← cleanup_new_untracked W repository before_untracked []
    throw (rolled_back candidate before_head removed reason)

  -- A validation that ended: its results are kept if it passed.
  unfoldable pub judged :
      Candidate
      → String
      → List String
      → String × List ValidationResult × List String
      → Exec State (List ValidationResult × List String)
  unfolding roll_back
  judged candidate before_head before_untracked (status, results, removed) =
      if status == "passed"
      then pure (results, removed)
      else roll_back candidate before_head before_untracked []

  -- `except ValidationError`
  unfoldable pub caught :
      Candidate
      → String
      → List String
      → Result (String × List ValidationResult × List String)
      → Exec State (List ValidationResult × List String)
  unfolding judged roll_back
  caught candidate before_head before_untracked (ok suite) =
      judged candidate before_head before_untracked suite
  caught candidate before_head before_untracked (err (validation reason)) =
      roll_back candidate before_head before_untracked (": " ∷ reason)
  caught candidate before_head before_untracked (err e) = throw e

  -- The validation of the merged branch.
  unfoldable pub validate_or_roll_back :
      Candidate
      → List ValidationCommand
      → String
      → List String
      → Exec State (List ValidationResult × List String)
  unfolding run_validation_suite caught
  validate_or_roll_back candidate commands before_head before_untracked s =
      let (suite, t) = run_validation_suite W repository commands s in
      caught candidate before_head before_untracked suite t

  -- `if merge.returncode != 0: ...`
  unfoldable pub merged_or_abort : Candidate → Reply → Exec State (Unit {0})
  unfolding try_git
  merged_or_abort candidate merge = if nat_eq merge.returncode 0 then pure tt else do
    try_git W repository ("merge" ∷ "--abort" ∷ [])
    throw (git ("Merge failed for " ∷ candidate.package_id ∷ ": " ∷ merge.stderr ∷ []))

  -- The merge and its validation.
  unfoldable pub merge_and_validate :
      Candidate → List ValidationCommand → Planned → Exec State Merged
  unfolding merged_or_abort validate_or_roll_back untracked_files head
  merge_and_validate candidate commands plan = do
    before_untracked ← gets (λ s. untracked_files W s repository)
    merge ← try_git W repository ("merge" ∷ "--no-ff" ∷ "--no-edit" ∷ candidate.branch ∷ [])
    merged_or_abort candidate merge
    after_head ← gets (λ s. head W s repository "HEAD")
    suite ← validate_or_roll_back candidate commands plan.before_head before_untracked
    pure (record {
      planned = plan;
      after_head = after_head;
      validation = suite.0;
      cleanup = suite.1;
    })

  -- The original branch follows the integration branch, by a merge if it must.
  unfoldable pub follow : Reply → Exec State (Unit {0})
  unfolding run_git
  follow fast_forward =
      if nat_eq fast_forward.returncode 0
      then pure tt
      else run_git W repository ("merge" ∷ "--no-ff" ∷ "--no-edit" ∷ config.integration_branch ∷ [])
        >>= λ _. pure tt

  -- `if switched and original_branch: ...` after the merge.
  unfoldable pub sync_back : Bool → String → Merged → Exec State Payload
  unfolding run_git try_git follow head
  sync_back back original_branch done = elim back [
    | false ↦ pure (merged_and_validated done)
    | true ↦ do
      run_git W repository ("switch" ∷ original_branch ∷ [])
      fast_forward ← try_git W repository ("merge" ∷ "--ff-only" ∷ config.integration_branch ∷ [])
      follow fast_forward
      tip ← gets (λ s. head W s repository "HEAD")
      pure (fast_forwarded done original_branch tip)
  ]

  -- The rest, from the plan.
  unfoldable pub carry_out :
      Bool → Candidate → List ValidationCommand → Bool → Planned → Exec State Payload
  unfolding run_git merge_and_validate sync_back
  carry_out execute candidate commands back plan = elim execute [
    | false ↦
        (elim back [
          | true ↦ run_git W repository ("switch" ∷ plan.original_branch ∷ []) >>= λ _. pure tt
          | false ↦ pure tt
        ])
        >> pure (planned plan)
    | true ↦ merge_and_validate candidate commands plan >>= sync_back back plan.original_branch
  ]

  -- The body of the `try` statement. `back` is `switched and original_branch`.
  unfoldable pub attempt :
      Bool → Candidate → List ValidationCommand → String → Bool → Exec State Payload
  unfolding head branch_is_ancestor carry_out
  attempt execute candidate commands original_branch back = do
    actual_head ← gets (λ s. head W s repository candidate.branch)
    refuse (not (starts_with actual_head candidate.head))
        (git (candidate.package_id ∷ " head changed after scheduling" ∷ []))
    merged ←
        gets
          (λ s. ok (branch_is_ancestor W s repository candidate.branch config.integration_branch))
    refuse merged (git (candidate.package_id ∷ " already merged" ∷ []))
    before_head ← gets (λ s. head W s repository "HEAD")
    carry_out execute candidate commands back (record {
      package_id = candidate.package_id;
      branch = candidate.branch;
      before_head = before_head;
      scheduled_head = candidate.head;
      actual_head = actual_head;
      integration_branch = config.integration_branch;
      original_branch = original_branch;
    })

  -- `if ... and tracked_is_clean(repository): run_git(...)`, and the exception again
  unfoldable pub switch_back : String → Error → Bool → Exec State Payload
  unfolding try_git
  switch_back original_branch e true =
      try_git W repository ("switch" ∷ original_branch ∷ []) >>= λ _. throw e
  switch_back original_branch e false = throw e

  -- `except Exception`: back to the original branch. An exception of the test itself replaces
  -- the first one.
  unfoldable pub returned : Bool → String → Result Payload → Exec State Payload
  unfolding tracked_is_clean switch_back
  returned back original_branch (ok payload) = pure payload
  returned false original_branch (err e) = throw e
  returned true original_branch (err e) =
      gets (λ s. tracked_is_clean W s repository) >>= switch_back original_branch e

  -- `if original_branch != config.integration_branch: ...`
  unfoldable pub switch_to : String → Exec State Bool
  unfolding run_git
  switch_to original_branch =
      if original_branch == config.integration_branch
      then pure false
      else run_git W repository ("switch" ∷ config.integration_branch ∷ []) >>= λ _. pure true

  -- The `try` statement.
  unfoldable pub try_attempt :
      Bool → Candidate → List ValidationCommand → String → Bool → Exec State Payload
  unfolding attempt returned
  try_attempt execute candidate commands original_branch switched s =
      let back = switched && not (original_branch == "") in
      let (result, t) = attempt execute candidate commands original_branch back s in
      returned back original_branch result t

  unfoldable pub integrate_one : Candidate → List ValidationCommand → Bool → Exec State Payload
  unfolding current_branch tracked_is_clean branch_exists switch_to try_attempt
  integrate_one candidate commands execute = do
    original_branch ← gets (λ s. current_branch W s repository)
    clean ← gets (λ s. tracked_is_clean W s repository)
    refuse (not clean) (git ("Integration repository has tracked changes before merge" ∷ []))
    exists ← gets (λ s. ok (branch_exists W s repository config.integration_branch))
    refuse (not exists)
        (git ("Integration branch does not exist: " ∷ config.integration_branch ∷ []))
    switched ← switch_to original_branch
    try_attempt execute candidate commands original_branch switched
