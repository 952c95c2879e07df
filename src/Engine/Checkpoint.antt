-- ===== src/Engine/Checkpoint.antt =====
-- runtime/checkpoints.py: the commit that keeps the work of a task that stops.
pub mod Staged
use railwarden.Base.{
  ℕ, String, ◌<>◌, ◌==◌, starts_with, Bool, true, false, not, ◌&&◌, ◌||◌, Option, none, some, List,
  [], ◌∷◌, ◌++◌, Result, ok, err, git, ◌>>=◌ as ◌>>?◌, insert, if◌then◌else◌,
}
use railwarden.Base.Exec.{Exec, pure, refuse, modify, ◌>>=◌, ◌>>◌}
use railwarden.Text.{rstrip_slash, splitlines, nonempty}
use railwarden.Config.{FilePath, ProjectConfig}
use railwarden.Value.{Value, null, num, str, arr, obj, Fields, end, field, texts, Show, to_str}
use railwarden.Runtime.{Runtime, append_event}
use railwarden.World.{World, output, current_branch, run_git, under}
use railwarden.Scheduler.Classifier.{is_nonempty}
use railwarden.Engine.Outside.{Outside, Sys, in_runtime, in_repository, asks}

pub record CheckpointResult : Type 0 where
  pub task_id : String
  pub branch : String
  pub attempt : ℕ
  pub commit : Option String
  pub files : List String
  pub metadata_path : FilePath
  pub status : String

abbrev pub text_or_null : Option String → Value
text_or_null none = null
text_or_null (some text) = str text

unfoldable pub to_dict : CheckpointResult → Fields
to_dict checkpoint = field "task_id" (str checkpoint.task_id) (
    field "branch" (str checkpoint.branch) (
      field "attempt" (num checkpoint.attempt) (
        field "commit" (text_or_null checkpoint.commit) (
          field "files" (arr (texts checkpoint.files)) (
            field "metadata_path" (str checkpoint.metadata_path)
              (field "status" (str checkpoint.status) end))))))

-- `any(item == allowed.rstrip("/") or item.startswith(f"{allowed.rstrip('/')}/") ...)`
unfoldable pub is_allowed : String → List String → Bool
unfolding rstrip_slash
is_allowed item [] = false
is_allowed item (allowed ∷ paths) =
    item == rstrip_slash allowed
    || starts_with item (rstrip_slash allowed <> "/")
    || is_allowed item paths

unfoldable pub disallowed_among : List String → List String → List String
unfolding is_allowed
disallowed_among allowed_paths [] = []
disallowed_among allowed_paths (item ∷ items) =
    let rest = disallowed_among allowed_paths items in
    if is_allowed item allowed_paths then rest else item ∷ rest

abbrev status_of : Option String → String
status_of none = "empty"
status_of (some _) = "created"

module _ (W : World) (O : Outside) (config : ProjectConfig) where
  open W use {State}

  unfoldable pub staged_files : State → FilePath → Result (List String)
  unfolding output splitlines nonempty
  staged_files s workspace =
      output W s workspace ("diff" ∷ "--cached" ∷ "--name-only" ∷ []) >>? λ text.
      ok (nonempty (splitlines text))

  -- `if disallowed: ...`
  unfoldable pub restore_staged : FilePath → List String → Exec State (Unit {0})
  unfolding run_git
  restore_staged workspace [] = pure tt
  restore_staged workspace (item ∷ items) =
      run_git W workspace ("restore" ∷ "--staged" ∷ "--" ∷ item ∷ items) >>= λ _. pure tt

  unfoldable pub unstage_disallowed : FilePath → List String → Exec State (Unit {0})
  unfolding staged_files disallowed_among restore_staged
  unstage_disallowed workspace allowed_paths = do
    staged ← λ s. (staged_files s workspace, s)
    restore_staged workspace (disallowed_among allowed_paths staged)

  -- `if staged: ...`
  unfoldable pub commit_staged : FilePath → String → List String → Exec State (Option String)
  unfolding run_git output
  commit_staged workspace message [] = pure none
  commit_staged workspace message (file ∷ files) = do
    run_git W workspace ("commit" ∷ "-m" ∷ message ∷ [])
    commit ← λ s. (output W s workspace ("rev-parse" ∷ "HEAD" ∷ []), s)
    pure (some commit)

  -- The index is filled, and cleared of what the package does not own.
  unfoldable pub stage : FilePath → List String → Exec State (List String)
  unfolding run_git unstage_disallowed staged_files is_nonempty
  stage workspace allowed_paths = do
    run_git W workspace ("add" ∷ "-A" ∷ "--" ∷ "." ∷ [])
    (if is_nonempty allowed_paths then unstage_disallowed workspace allowed_paths else pure tt)
    λ s. (staged_files s workspace, s)

  abbrev metadata_of : ℕ → CheckpointResult → Value
  metadata_of now checkpoint = obj (
      field "task_id" (str checkpoint.task_id) (
        field "branch" (str checkpoint.branch) (
          field "attempt" (num checkpoint.attempt) (
            field "commit" (text_or_null checkpoint.commit) (
              field "files" (arr (texts checkpoint.files))
                (field "created_at" (num now) (field "status" (str checkpoint.status) end)))))))

  -- The file of metadata and the event.
  unfoldable pub record_checkpoint : CheckpointResult → Exec (Sys W) CheckpointResult
  unfolding in_runtime append_event insert
  record_checkpoint checkpoint = do
    in_runtime W (
        modify (λ rt. record rt {
          json_files =
              insert checkpoint.metadata_path (O.redacted_json (metadata_of rt.clock checkpoint))
                rt.json_files;
        }))
    in_runtime W (
        append_event "checkpoint_created"
          (field "branch" (str checkpoint.branch) (
            field "commit" (text_or_null checkpoint.commit) (
              field "files" (arr (texts checkpoint.files))
                (field "status" (str checkpoint.status) end))))
          (some checkpoint.task_id))
    pure checkpoint

  unfoldable pub create_checkpoint_commit :
      String → FilePath → ℕ → List String → Exec (Sys W) CheckpointResult
  unfolding current_branch in_repository stage commit_staged record_checkpoint
  create_checkpoint_commit task_id workspace attempt allowed_paths = do
    branch ← asks W (λ s. current_branch W s workspace)
    refuse (branch == config.integration_branch)
        (git ("Checkpoint commits are forbidden on the integration branch" ∷ []))
    refuse (branch == "") (git ("Checkpoint commits require a named task branch" ∷ []))
    staged ← in_repository W (stage workspace allowed_paths)
    commit ← in_repository W (
        commit_staged workspace
          ("warden checkpoint: " <> task_id <> " attempt " <> O.show (num attempt)) staged)
    record_checkpoint (record {
      task_id = task_id;
      branch = branch;
      attempt = attempt;
      commit = commit;
      files = staged;
      metadata_path =
          under config.runtime_directory
            ("checkpoints/" <> task_id <> "-" <> O.show (num attempt) <> ".json");
      status = status_of commit;
    })
