-- ===== src/Engine/Results.antt =====
-- runtime/results.py: the result of a worker, completed with the fields that it leaves out, and
-- copied to the runtime directory; or built from clean committed work.
pub mod Completed
use railwarden.Base.{
  String, ◌<>◌, ◌==◌, Bool, true, false, not, ◌&&◌, Option, none, some, [], ◌∷◌, Result, ok, err,
  railwarden as general, validation, os_error, lookup, insert, raise_if, ◌>>=◌, ◌>>◌, if◌then◌else◌,
}
use railwarden.Config.{FilePath, ProjectConfig, WorkPackage}
use railwarden.Value.{
  Value, null, str, arr, obj, nil, Fields, end, field, get, get_or, put, texts, truthy, to_str,
}
use railwarden.Value.Laws.{has}
use railwarden.Runtime.{Runtime}
use railwarden.World.{
  World, head, current_branch, tracked_is_clean, changed_files_in_commit, path_exists, under,
}
use railwarden.Scheduler.Classifier.{package_branch, package_worktree}
use railwarden.Engine.{required_text}
use railwarden.Engine.Outside.{Outside, Sys}

-- `first or second`
abbrev pub or_value : Value → Value → Value
or_value first second = if truthy first then first else second

-- `d.setdefault(key, value)`
unfoldable pub set_default : String → Value → Fields → Fields
unfolding has put
set_default key value d = if has key d then d else put key value d

abbrev pub is_completed_status : Value → String → Bool
is_completed_status (str s) status = s == status
is_completed_status _ status = false

-- `if payload.get("status") == "success": payload["status"] = "completed"`
unfoldable pub status_completed : Fields → Fields
unfolding get put
status_completed payload =
    if is_completed_status (get_or "status" null payload) "success"
    then put "status" (str "completed") payload
    else payload

-- `load_worker_result` of validation/worker_result.py
abbrev pub worker_result_in : Option Value → Result Fields
worker_result_in none = err (os_error ("No such file or directory" ∷ []))
worker_result_in (some (obj payload)) = ok payload
worker_result_in (some _) = err (validation ("Worker result must be a JSON object" ∷ []))

unfoldable pub load_worker_result : FilePath → Runtime → Result Fields
unfolding lookup
load_worker_result path rt = worker_result_in (lookup path rt.json_files)

unfoldable pub file_exists : FilePath → Runtime → Bool
unfolding lookup
file_exists path rt = elim (lookup path rt.json_files) [ none ↦ false | some _ ↦ true ]

abbrev pub path_if : Bool → FilePath → Value
path_if true path = str path
path_if false path = null

-- What is known before the payload.
pub record Source : Type 0 where
  pub task_id : String
  pub workspace : FilePath
  pub provider : String
  pub model : String
  pub branch : String
  pub source_path : FilePath
  pub runtime_path : FilePath

module _ (W : World) (O : Outside) (config : ProjectConfig) where
  open W use {State}

  unfoldable pub runtime_result_path : String → FilePath
  runtime_result_path task_id = under config.runtime_directory ("results/" <> task_id <> ".json")

  unfoldable pub worker_result_path : State → FilePath → String → FilePath
  worker_result_path s workspace task_id =
      let preferred = under workspace ".railwarden-results" in
      let legacy = under workspace ".lfg-results" in
      under
        (if path_exists W s preferred
          then preferred
          else if path_exists W s legacy
          then legacy
          else preferred)
        (task_id <> ".json")

  abbrev pub text_in : String → String → Fields → String
  text_in key default task = to_str O.show (get_or key (str default) task)

  -- `str(task.get(key) or default)`
  abbrev pub text_or_default : String → Value → Fields → String
  text_or_default key default task = to_str O.show (or_value (get_or key null task) default)

  unfoldable pub source_of : State → Fields → WorkPackage → Result Source
  unfolding required_text to_str get truthy package_branch package_worktree worker_result_path
      runtime_result_path
  source_of s task work_package = do
    task_id ← required_text O.show O.parse "id" task
    let workspace = text_in "worktree" (package_worktree config work_package) task
    let provider =
        text_or_default "provider" (or_value (get_or "last_provider" null task) (str "unknown"))
          task
    ok (record {
      task_id = task_id;
      workspace = workspace;
      provider = provider;
      model = text_or_default "model" (str provider) task;
      branch = text_or_default "branch" (str (package_branch work_package)) task;
      source_path = text_in "result_path" (worker_result_path s workspace task_id) task;
      runtime_path = text_in "runtime_result_path" (runtime_result_path task_id) task;
    })

  -- The result that clean committed work stands for.
  unfoldable pub synthesized : State → Source → Result Fields
  unfolding tracked_is_clean head current_branch changed_files_in_commit
  synthesized s source = do
    raise_if (not (path_exists W s source.workspace))
        (general ("Task worktree does not exist: " ∷ source.workspace ∷ []))
    clean ← tracked_is_clean W s source.workspace
    raise_if (not clean)
        (general ("Cannot synthesize result for dirty worktree: " ∷ source.workspace ∷ []))
    commit_hash ← head W s source.workspace "HEAD"
    branch ← current_branch W s source.workspace
    changed_files ← changed_files_in_commit W s source.workspace commit_hash
    ok (
        field "schema_version" (str "1.0.0") (
          field "task_id" (str source.task_id) (
            field "worker" (str source.provider) (
              field "model" (str source.model) (
                field "status" (str "completed") (
                  field "summary" (str "RailWarden synthesized result from clean committed work.") (
                    field "workspace" (str source.workspace) (
                      field "branch" (str branch) (
                        field "commit_hash" (str commit_hash) (
                          field "changed_files" (arr (texts changed_files)) (
                            field "tests" (arr nil) (
                              field "blockers" (arr nil)
                                (field "evidence" (arr nil) end)))))))))))))

  -- `head(workspace) if workspace.exists() else None`
  unfoldable pub default_commit : State → FilePath → Result Value
  unfolding head
  default_commit s workspace =
      if path_exists W s workspace
      then (head W s workspace "HEAD" >>= λ commit. ok (str commit))
      else ok null

  -- `if workspace.exists() and payload.get("commit_hash"): ... else: ...`
  unfoldable pub default_files : State → FilePath → Fields → Result Value
  unfolding get truthy to_str changed_files_in_commit
  default_files s workspace payload =
      let commit = get_or "commit_hash" null payload in
      if path_exists W s workspace && truthy commit
      then (changed_files_in_commit W s workspace (to_str O.show commit) >>= λ files.
          ok (arr (texts files)))
      else ok (arr nil)

  -- The fields that the worker left out.
  unfoldable pub completed : State → Source → Bool → Fields → Result Fields
  unfolding status_completed set_default default_commit default_files put
  completed s source reported payload = do
    let named = set_default "branch" (str source.branch) (
        set_default "workspace" (str source.workspace) (
          set_default "summary" (str "") (
            set_default "model" (str source.model) (
              set_default "worker" (str source.provider) (
                set_default "task_id" (str source.task_id)
                  (set_default "schema_version" (str "1.0.0") (status_completed payload)))))))
    commit ← default_commit s source.workspace
    let committed = set_default "commit_hash" commit named
    files ← default_files s source.workspace committed
    ok (
        put "source_result_path" (path_if reported source.source_path) (
          put "normalized_by" (str "railwarden") (
            set_default "evidence" (arr nil) (
              set_default "blockers" (arr nil)
                (set_default "tests" (arr nil) (set_default "changed_files" files committed))))))

  unfoldable pub payload_of : State → Runtime → Source → Result Fields
  unfolding file_exists load_worker_result synthesized completed
  payload_of s rt source = do
    let reported = file_exists source.source_path rt
    payload ← if reported then load_worker_result source.source_path rt else synthesized s source
    completed s source reported payload

  -- What `normalize_result` returns.
  pub record Normalized : Type 0 where
    pub path : FilePath
    pub result : Fields

  abbrev written : Source → Fields → Sys W → Result Normalized × Sys W
  written source payload s = (
    ok (record { path = source.runtime_path; result = payload }),
    record s {
      rt = record s.rt { json_files = insert source.runtime_path (obj payload) s.rt.json_files };
    },
  )

  abbrev pub write_payload : Source → Result Fields → Sys W → Result Normalized × Sys W
  write_payload source (ok payload) s = written source payload s
  write_payload source (err e) s = (err e, s)

  abbrev pub from_source : Result Source → Sys W → Result Normalized × Sys W
  from_source (ok source) s = write_payload source (payload_of s.repo s.rt source) s
  from_source (err e) s = (err e, s)

  unfoldable pub normalize_result : Fields → WorkPackage → Sys W → Result Normalized × Sys W
  unfolding source_of payload_of insert
  normalize_result task work_package s = from_source (source_of s.repo task work_package) s
