-- ===== src/Engine/Reconcile.antt =====
-- engine/controller.py, `reconcile_processes`: what became of the processes of the active tasks.
use railwarden.Base.{
  ℕ, ◌+◌, ◌*◌, String, ◌<>◌, ◌==◌, Bool, true, false, not, ◌&&◌, ◌||◌, Option, none, some, List, [],
  ◌∷◌, Result, ok, err, os_error, contains, lookup, ltb, nat_eq, ◌>>=◌ as ◌>>?◌, if◌then◌else◌,
}
use railwarden.Base.Exec.{Exec, pure, gets, ◌>>=◌, ◌>>◌}
use railwarden.Text.{lower, has_text, shorten}
use railwarden.Config.{FilePath, ProjectFiles, WorkPackage}
use railwarden.Value.{
  Value, null, num, flag, str, obj, Fields, end, field, get, get_or, put, truthy, to_str,
}
use railwarden.World.{World, is_clean, branch_exists, path_exists, under}
use railwarden.Runtime.{Runtime}
use railwarden.Tasks.{load_tasks}
use railwarden.Providers.Health.{ProviderState, number_of, record_failure}
use railwarden.Scheduler.Classifier.{package_branch, package_worktree}
use railwarden.Engine.{active_states, required_text, require_decision, has_clean_task_commit}
use railwarden.Engine.Outside.{Outside, Sys, in_runtime, asks}
use railwarden.Engine.Handoff.{text_at_path}
use railwarden.Engine.Results.{runtime_result_path, file_exists, or_value}
use railwarden.Engine.Completion.{complete_worker_task}
use railwarden.Engine.Supervisor.{package_for_task}
use railwarden.Engine.Judgement.{Job, move, reconcile_result}

abbrev tmux_stale_seconds : ℕ
tmux_stale_seconds = 30 * 60

unfoldable pub process_path : FilePath → String → FilePath
process_path runtime_dir task_id = under runtime_dir ("processes/" <> task_id <> ".json")

-- `value is not None`
abbrev is_given : Option Value → Bool
is_given none = false
is_given (some null) = false
is_given (some _) = true

-- `value == text`
abbrev equals : Value → String → Bool
equals (str s) text = s == text
equals _ text = false

-- `value == 0`
abbrev is_zero : Value → Bool
is_zero (num n) = nat_eq n 0
is_zero (flag b) = not b
is_zero _ = false

abbrev kind_or_default : Option String → String
kind_or_default none = "adapter_failure"
kind_or_default (some kind) = if kind == "" then "adapter_failure" else kind

-- The kind of failure that the log tells, where its quoting is at fault.
unfoldable pub failure_kind_of : ProviderState → String → String → String
unfolding lower has_text
failure_kind_of state provider log =
    if has_text "unexpected eof while looking for matching" (lower log)
      || provider == "antigravity" && has_text "syntax error" (lower log)
    then "wrapper_quoting_failure"
    else kind_or_default state.failure_kind

module _ (O : Outside) where
  unfoldable pub tmux_process_stale : ℕ → Fields → Result Bool
  unfolding get truthy number_of
  tmux_process_stale now process =
      if is_given (get "returncode" process) || equals (get_or "status" null process) "exited"
      then ok false
      else (number_of O.show O.parse (
            or_value (get_or "updated_at" null process)
              (or_value (get_or "started_at" null process) (num 0)))
          >>? λ updated_at. ok (ltb 0 updated_at && ltb (updated_at + tmux_stale_seconds) now))

module _ (W : World) (O : Outside) (files : ProjectFiles) where
  open W use {State}

  abbrev text_in : String → String → Fields → String
  text_in key default d = to_str O.show (get_or key (str default) d)

  abbrev decide : Fields → String → Fields → Exec (Sys W) (Unit {0})
  decide task failure_kind facts =
      in_runtime W (require_decision O.show O.parse task failure_kind facts) >>= λ _. pure tt

  unfoldable pub job_of : Fields → Fields → WorkPackage → Result Job
  unfolding required_text get to_str package_branch package_worktree runtime_result_path
  job_of task process work_package = required_text O.show O.parse "id" task >>? λ task_id.
      ok (record {
        task = task;
        process = process;
        work_package = work_package;
        provider = to_str O.show (get_or "provider" (get_or "provider" (str "") process) task);
        branch = text_in "branch" (package_branch work_package) task;
        workspace = text_in "worktree" (package_worktree files.project work_package) task;
        result_path = text_in "result_path" (runtime_result_path W O files.project task_id) task;
        runtime_path =
            text_in "runtime_result_path" (runtime_result_path W O files.project task_id) task;
      })

  -- The log, if it exists. An empty path is the current directory, which is no file.
  unfoldable pub read_log : String → Runtime → Result String
  unfolding text_at_path
  read_log path rt =
      if path == "" then err (os_error ("Is a directory" ∷ [])) else ok (text_at_path path rt)

  abbrev stale_facts : Job → ℕ → Fields
  stale_facts job pid = field "provider" (str job.provider) (
      field "status" (get_or "status" null job.process) (
        field "pid" (num pid) (
          field "updated_at" (get_or "updated_at" null job.process)
            (field "workspace" (str job.workspace) (field "result_json_exists" (flag false) end)))))

  -- A pane that still reports: it is left alone until it is silent for too long.
  unfoldable pub await_pane : Job → Fields → ℕ → Exec (Sys W) (Unit {0})
  unfolding tmux_process_stale in_runtime require_decision get
  await_pane job task pid = do
    stale ← gets (λ s. tmux_process_stale O s.rt.clock job.process)
    if stale then decide task "stale_running_process" (stale_facts job pid) else pure tt

  abbrev commit_facts : Job → Fields
  commit_facts job = field "provider" (str job.provider) (
      field "commit_exists" (flag true) (
        field "result_json_exists" (flag false) (
          field "worktree_dirty" (flag false)
            (field "workspace" (str job.workspace) (field "branch" (str job.branch) end)))))

  -- `bool(outcome.get(key))`
  abbrev truth_in : String → Fields → Value
  truth_in key outcome = flag (truthy (get_or key null outcome))

  unfoldable pub outcome_facts : Job → String → Fields → Fields
  unfolding get truthy to_str shorten
  outcome_facts job log outcome = field "provider" (str job.provider) (
      field "commit_exists" (truth_in "commit_exists" outcome) (
        field "result_json_exists" (truth_in "result_json_exists" outcome) (
          field "workspace" (str (text_in "workspace" job.workspace outcome)) (
            field "branch" (str (text_in "branch" job.branch outcome))
              (field "failure" (str (text_in "failure" (shorten 1000 log) outcome)) end)))))

  unfoldable pub complete : Job → Fields → String → Exec (Sys W) (Unit {0})
  unfolding complete_worker_task get outcome_facts in_runtime require_decision to_str
  complete job task log = do
    outcome ← complete_worker_task W O files.project (record {
      task = task;
      work_package = job.work_package;
      workspace = job.workspace;
      branch = job.branch;
      log_text = log;
      result_path = job.result_path;
      runtime_result_path = job.runtime_path;
    })
    if equals (get_or "status" null outcome) "validated"
        then pure tt
        else decide task (text_in "failure_kind" "adapter_failure" outcome)
            (outcome_facts job log outcome)

  -- Clean committed work without a result.
  unfoldable pub reconcile_commit : Job → Fields → String → Exec (Sys W) (Unit {0})
  unfolding complete in_runtime require_decision
  reconcile_commit job task log =
      if files.project.supervision_mode == "hermes"
      then decide task "missing_worker_result_with_commit" (commit_facts job)
      else complete job task log

  abbrev cooldown_of : String → ℕ
  cooldown_of provider = elim (lookup provider files.project.provider_configs) [
    | some found ↦ found.cooldown_seconds
    | none ↦ 3600
  ]

  -- `workspace.exists() and not is_clean(workspace)`
  unfoldable pub is_dirty : State → FilePath → Result Bool
  unfolding is_clean
  is_dirty s workspace =
      if path_exists W s workspace
      then (is_clean W s workspace >>? λ clean. ok (not clean))
      else ok false

  -- `workspace.exists() and (not is_clean(workspace) or branch_exists(...))`
  unfoldable pub dirty_or_branch : State → Job → Result Bool
  unfolding is_clean branch_exists
  dirty_or_branch s job =
      if path_exists W s job.workspace
      then (is_clean W s job.workspace >>? λ clean.
          ok (not clean || branch_exists W s files.project.repository_root job.branch))
      else ok false

  abbrev failure_facts : Job → Bool → Bool → Fields → Fields
  failure_facts job commit dirty more = field "provider" (str job.provider) (
      field "commit_exists" (flag commit) (
        field "result_json_exists" (flag false) (
          field "worktree_dirty" (flag dirty)
            (field "log_path" (str (text_in "log_path" "" job.process)) more))))

  -- The worker failed: its provider cools down, and the failure asks for a decision.
  unfoldable pub reconcile_failure : Job → Fields → String → Exec (Sys W) (Unit {0})
  unfolding in_runtime record_failure lookup dirty_or_branch is_dirty branch_exists require_decision
      failure_kind_of shorten get to_str
  reconcile_failure job task log = do
    state ← in_runtime W (record_failure O.show O.parse job.provider log (cooldown_of job.provider))
    let kind = failure_kind_of state job.provider log
    kept ← asks W (λ s. dirty_or_branch s job)
    dirty ← asks W (λ s. is_dirty s job.workspace)
    exists ← asks W (λ s. ok (branch_exists W s files.project.repository_root job.branch))
    let failure = field "failure" (str (shorten 1000 log)) end
    if kept && files.project.execution_preserve_partial_work_on_handoff
        then decide task kind (failure_facts job exists dirty failure)
        else decide task kind
            (failure_facts job false dirty (field "provider_status" (str state.status) failure))

  -- The process has ended and there is no result.
  unfoldable pub reconcile_ended : Job → Fields → Exec (Sys W) (Unit {0})
  unfolding read_log has_clean_task_commit reconcile_commit reconcile_failure get to_str
  reconcile_ended job task = do
    log ← gets (λ s. read_log (text_in "log_path" "" job.process) s.rt)
    committed ← asks W (λ s. ok (has_clean_task_commit W files.project s job.workspace job.branch))
    if committed then reconcile_commit job task log else reconcile_failure job task log

  -- There is no result; the process may still run.
  unfoldable pub reconcile_process : Job → Exec (Sys W) (Unit {0})
  unfolding get put number_of contains await_pane reconcile_ended
  reconcile_process job = do
    pid ← gets (λ _. number_of O.show O.parse (get_or "pid" (num 0) job.process))
    let task =
        if is_zero (get_or "pid" (num 0) job.task) && ltb 0 pid
        then put "pid" (num pid) job.task
        else job.task
    if ltb 0 pid && O.process_alive pid
        then pure tt
        else if equals (get_or "mode" null job.process) "tmux"
            && (equals (get_or "status" null job.process) "launching"
                || equals (get_or "status" null job.process) "running")
        then await_pane job task pid
        else reconcile_ended job task

  unfoldable pub reconcile_job : Job → Exec (Sys W) (Unit {0})
  unfolding file_exists reconcile_result reconcile_process
  reconcile_job job s =
      (if file_exists job.result_path s.rt || file_exists job.runtime_path s.rt
          then reconcile_result W O files job
          else reconcile_process job)
        s

  abbrev with_package : Fields → Fields → Option WorkPackage → Exec (Sys W) (Unit {0})
  with_package task process none =
      move W O files task "failed" (field "reason" (str "package removed") end) >>= λ _. pure tt
  with_package task process (some work_package) =
      gets (λ _. job_of task process work_package) >>= reconcile_job

  -- An active task, from its process record.
  unfoldable pub reconcile_record : Fields → Option Value → Exec (Sys W) (Unit {0})
  unfolding in_runtime package_for_task job_of reconcile_job
  reconcile_record task none =
      move W O files task "decision_required" (
        field "failure_kind" (str "missing_process_record")
          (field "reason" (str "active task has no process metadata") end))
      >>= λ _. pure tt
  reconcile_record task (some (obj process)) =
      with_package task process (package_for_task W O files task)
  reconcile_record task (some _) = pure tt

  unfoldable pub reconcile_active : Fields → Exec (Sys W) (Unit {0})
  unfolding required_text process_path lookup reconcile_record
  reconcile_active task = do
    task_id ← gets (λ _. required_text O.show O.parse "id" task)
    λ s.
        reconcile_record task
          (lookup (process_path files.project.runtime_directory task_id) s.rt.json_files) s

  unfoldable pub reconcile_each : List Fields → Exec (Sys W) (Unit {0})
  unfolding contains get to_str reconcile_active
  reconcile_each [] = pure tt
  reconcile_each (task ∷ tasks) =
      (if contains active_states (text_in "status" "" task) then reconcile_active task else pure tt)
      >> reconcile_each tasks

  unfoldable pub reconcile_processes : Exec (Sys W) (List Fields)
  unfolding load_tasks reconcile_each
  reconcile_processes = do
    tasks ← gets (λ s. load_tasks s.rt)
    reconcile_each tasks
    gets (λ s. load_tasks s.rt)
