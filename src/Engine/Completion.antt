-- ===== src/Engine/Completion.antt =====
-- workers/completion.py: what a worker that has ended leaves behind. Its results are validated; clean
-- committed work without a result is normalized to one; all else is a failure that the log
-- classifies.
use railwarden.Base.{String, ◌==◌, Bool, true, false, not, ◌||◌, Result, ok, if◌then◌else◌}
use railwarden.Base.{◌>>=◌ as ◌>>?◌}
use railwarden.Base.Exec.{Exec, pure, gets, ◌>>=◌}
use railwarden.Text.{shorten}
use railwarden.Config.{FilePath, ProjectConfig, WorkPackage}
use railwarden.Value.{null, num, flag, str, obj, Fields, end, field, get, get_or, truthy, to_str}
use railwarden.Runtime.{Runtime}
use railwarden.World.{World, head, current_branch, tracked_is_clean, path_exists}
use railwarden.Providers.Health.{classify_failure}
use railwarden.Validation.Package.{run_package_validation}
use railwarden.Validation.WorkerResult.{validate_completed_package}
use railwarden.Engine.Outside.{Outside, Sys, asks}
use railwarden.Engine.Results.{normalize_result, load_worker_result, file_exists}

-- A task's work, as `complete_worker_task` takes it.
pub record Work : Type 0 where
  pub task : Fields
  pub work_package : WorkPackage
  pub workspace : FilePath
  pub branch : String
  pub log_text : String
  pub result_path : FilePath
  pub runtime_result_path : FilePath

unfoldable pub classify_process_failure : String → String
classify_process_failure log_text = (classify_failure log_text).0

module _ (W : World) (O : Outside) (config : ProjectConfig) where
  open W use {State}

  -- `str(result.get("commit_hash") or head(workspace))`
  unfoldable pub commit_of : State → FilePath → Fields → Result String
  unfolding get truthy to_str head
  commit_of s workspace result =
      let v = get_or "commit_hash" null result in
      if truthy v then ok (to_str O.show v) else head W s workspace "HEAD"

  abbrev split_state : Result Fields × State × Runtime → Sys W → Result Fields × Sys W
  split_state (result, repo, rt) s = (result, record s { rt = rt; repo = repo })

  -- `run_package_validation`, on the whole state
  unfoldable pub validate_package : WorkPackage → FilePath → String → Exec (Sys W) Fields
  unfolding run_package_validation
  validate_package work_package workspace commit s =
      split_state
        (run_package_validation O.split O.is_token (λ n. O.show (num n)) W workspace work_package
          commit s.repo s.rt)
        s

  -- The result at the path is validated, and then the package.
  unfoldable pub accept_result : Work → FilePath → Exec (Sys W) Fields
  unfolding load_worker_result validate_completed_package commit_of validate_package
  accept_result work path = do
    result ← gets (λ s. load_worker_result path s.rt)
    accepted ← asks W (λ s.
        validate_completed_package O.show W O.schema_error s work.work_package result work.workspace
          work.branch)
    commit ← asks W (λ s. commit_of s work.workspace accepted)
    validate_package work.work_package work.workspace commit

  abbrev validated : FilePath → Fields → Fields → Fields
  validated path validation more =
      field "status" (str "validated")
        (field "result_path" (str path) (field "validation" (obj validation) more))

  -- A file of results exists.
  unfoldable pub complete_reported : Work → Exec (Sys W) Fields
  unfolding normalize_result file_exists accept_result
  complete_reported work = do
    copied ← gets (λ s. ok (file_exists work.runtime_result_path s.rt))
    path ← if copied then pure work.runtime_result_path else (do
      normalized ← normalize_result W O config work.task work.work_package
      pure normalized.path)
    validation ← accept_result work path
    pure (validated path validation end)

  -- `has_commit`
  unfoldable pub has_commit : State → Work → Result Bool
  unfolding tracked_is_clean head
  has_commit s work =
      if path_exists W s work.workspace
      then (tracked_is_clean W s work.workspace >>? λ clean.
          if clean
          then (head W s work.workspace "HEAD" >>? λ tip.
              head W s config.repository_root work.branch >>? λ base. ok (not (tip == base)))
          else ok false)
      else ok false

  unfoldable pub complete_committed : Work → Exec (Sys W) Fields
  unfolding normalize_result accept_result
  complete_committed work = do
    normalized ← normalize_result W O config work.task work.work_package
    validation ← accept_result work normalized.path
    pure (validated normalized.path validation (field "normalized" (flag true) end))

  unfoldable pub failed_outcome : Work → String → Fields
  unfolding classify_process_failure shorten
  failed_outcome work branch = field "status" (str "failed") (
      field "failure_kind" (str (classify_process_failure work.log_text)) (
        field "commit_exists" (flag false) (
          field "result_json_exists" (flag false) (
            field "workspace" (str work.workspace) (
              field "branch" (str branch)
                (field "failure" (str (shorten 1000 work.log_text)) end))))))

  unfoldable pub current_or : State → Work → Result String
  unfolding current_branch
  current_or s work =
      if path_exists W s work.workspace then current_branch W s work.workspace else ok work.branch

  -- From whether there is committed work.
  abbrev pub unreported : Work → Bool → Exec (Sys W) Fields
  unreported work true = complete_committed work
  unreported work false =
      asks W (λ s. current_or s work) >>= λ branch. pure (failed_outcome work branch)

  unfoldable pub complete_unreported : Work → Exec (Sys W) Fields
  unfolding has_commit complete_committed current_or failed_outcome
  complete_unreported work = do
    committed ← asks W (λ s. has_commit s work)
    unreported work committed

  unfoldable pub complete_worker_task : Work → Exec (Sys W) Fields
  unfolding file_exists complete_reported complete_unreported
  complete_worker_task work s =
      (if file_exists work.result_path s.rt || file_exists work.runtime_result_path s.rt
          then complete_reported work
          else complete_unreported work)
        s
