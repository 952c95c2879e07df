-- ===== src/Engine/Launch.antt =====
-- engine/controller.py, `launch_task`: a task is given a worktree, a prompt and a process. The task's
-- dict is mutated on the way, and what was written before an exception stays; so the state holds it.
-- The directory that the result goes to is not made in the model.
use Prim.Native.Char.{char}
use railwarden.Base.{
  ℕ, ◌+◌, String, ◌<>◌, ◌==◌, Bool, false, ◌&&◌, ◌||◌, Option, none, some, List, [], ◌∷◌, Result,
  ok, err, lookup, insert, if◌then◌else◌,
}
use railwarden.Base.Exec.{Exec, pure, gets, ◌>>=◌, ◌>>◌}
use railwarden.Text.{lower, without, replace_char, single_dashes, strip, has_text}
use railwarden.Config.{FilePath, ProjectFiles, WorkPackage}
use railwarden.Value.{
  null, num, str, arr, Fields, end, field, get, get_or, put, texts, truthy, to_str, text_of,
}
use railwarden.World.{World, path_exists, under}
use railwarden.Runtime.{Action, append_event}
use railwarden.Tasks.{transition_task}
use railwarden.Providers.Health.{number_of}
use railwarden.Providers.Adapters.{ProviderAdapter, launch_command}
use railwarden.Processes.{
  ManagedCommand, ManagedProcess, Launcher, path_or_null, pane_map, pane_for_worker, write_json,
  launch_managed, launch_tmux_managed,
}
use railwarden.Scheduler.Classifier.{package_branch, package_worktree}
use railwarden.Worktrees.{ensure_worktree}
use railwarden.Agents.Session.{AgentInstance}
use railwarden.Engine.{required_text, merge_process_launch_record}
use railwarden.Engine.Outside.{Outside, Sys, in_runtime, in_repository}
use railwarden.Engine.Agents.{agent_for_provider, set_found_state}
use railwarden.Engine.Handoff.{attempt_of}
use railwarden.Engine.Results.{runtime_result_path, worker_result_path, or_value}
use railwarden.Engine.Reconcile.{process_path}
use railwarden.Engine.Prompt.{write_prompt}

-- planning/antigravity.py, `antigravity_model_slug`
unfoldable pub antigravity_model_slug : String → String
unfolding lower without replace_char single_dashes
antigravity_model_slug model = single_dashes (
    replace_char 32 (char 45 tt)
      (replace_char 47 (char 45 tt) (without 41 (without 40 (lower model)))))

abbrev first_like : String → List String → Option String
first_like target [] = none
first_like target (candidate ∷ models) =
    if antigravity_model_slug candidate == target then some candidate else first_like target models

abbrev or_model : Option String → String → String
or_model none text = text
or_model (some model) text = model

-- `models` is what the planner's executable lists.
unfoldable pub resolve_antigravity_model : List String → String → String
unfolding strip has_text antigravity_model_slug
resolve_antigravity_model models model =
    let text = strip model in
    if text == ""
    then "Claude Opus 4.6 (Thinking)"
    else if has_text " " text || has_text "(" text
    then text
    else or_model (first_like (antigravity_model_slug text) models) text

-- The state with the task's dict.
module _ (W : World) where
  pub record Held : Type 0 where
    pub sys : Sys W
    pub task : Fields

  unfoldable pub on_sys : {A : Type 0} → Exec (Sys W) A → Exec Held A
  on_sys m h = let (result, s) = m h.sys in (result, record h { sys = s })

  abbrev moved_to : Result Fields × Sys W → Fields → Result (Unit {0}) × Held
  moved_to (ok task, s) before = (ok tt, record { sys = s; task = task })
  moved_to (err e, s) before = (err e, record { sys = s; task = before })

  unfoldable pub move_held : Outside → String → Fields → Exec Held (Unit {0})
  unfolding in_runtime transition_task
  move_held O status payload h =
      moved_to (in_runtime W (transition_task O.show h.task status payload) h.sys) h.task

  abbrev pub read_task : {A : Type 0} → (Fields → Result A) → Exec Held A
  read_task f h = (f h.task, h)

-- What a launch uses of the machine.
pub record Machine : Type 0 where
  pub launcher : Launcher
  pub resolve : FilePath → FilePath
  -- the models that the planner's executable lists
  pub models : List String
  -- the path of the installed template
  pub installed : FilePath

-- The files of one attempt.
pub record Attempt : Type 0 where
  pub task_id : String
  pub number : ℕ
  pub provider : String
  pub branch : String
  pub workspace : FilePath
  pub prompt_path : FilePath
  pub result_path : FilePath
  pub runtime_result_path : FilePath
  pub log_path : FilePath

abbrev assigned_payload : Attempt → Fields
assigned_payload attempt = field "provider" (str attempt.provider) (
    field "branch" (str attempt.branch) (
      field "worktree" (str attempt.workspace) (
        field "prompt_path" (str attempt.prompt_path) (
          field "result_path" (str attempt.result_path) (
            field "runtime_result_path" (str attempt.runtime_result_path)
              (field "log_path" (str attempt.log_path) end))))))

abbrev agent_id_of : Option AgentInstance → Option String
agent_id_of none = none
agent_id_of (some agent) = some agent.agent_id

-- `if pane_id`
abbrev pane_given : Option String → Option String
pane_given none = none
pane_given (some pane) = if pane == "" then none else some pane

abbrev in_pane : Option String → Fields → Fields
in_pane none base = base
in_pane (some pane) base =
    put "status" (str "launching") (put "pane_id" (str pane) (put "mode" (str "tmux") base))

abbrev pane_status : Option String → String
pane_status none = "running"
pane_status (some _) = "launching"

-- The record that the controller lays under the launcher's.
unfoldable pub launch_base : ℕ → ManagedCommand → ManagedProcess → String → Option String → Fields
unfolding put
launch_base now command managed provider pane = in_pane pane (
    field "pid" (num managed.pid) (
      field "pgid" (num managed.pgid) (
        field "command" (arr (texts managed.command)) (
          field "cwd" (str command.cwd) (
            field "stdin_path" (path_or_null command.stdin_path) (
              field "log_path" (str managed.log_path) (
                field "provider" (str provider) (
                  field "status" (str (pane_status pane))
                    (field "started_at" (num now) (field "updated_at" (num now) end))))))))))

module _ (W : World) (O : Outside) (files : ProjectFiles) (M : Machine) where
  abbrev on_rt : {A : Type 0} → Action A → Exec (Held W) A
  on_rt m = on_sys W (in_runtime W m)

  abbrev adapted : Option AgentInstance → String → ProviderAdapter → ProviderAdapter
  adapted none provider a = a
  adapted (some agent) provider a = record a {
    model =
        if provider == "antigravity"
        then resolve_antigravity_model M.models agent.model_profile.model
        else agent.model_profile.model;
    reasoning_effort = agent.model_profile.reasoning_effort;
  }

  unfoldable pub adapter_for_session_agent : String → ProviderAdapter → Action ProviderAdapter
  unfolding agent_for_provider resolve_antigravity_model
  adapter_for_session_agent provider a rt =
      let (found, t) = agent_for_provider O files.project provider rt in (adapt found, t)
    where
      adapt : Result (Option AgentInstance) → Result ProviderAdapter
      adapt (ok agent) = ok (adapted agent provider a)
      adapt (err e) = err e

  -- The worktree, from whether it exists.
  unfoldable pub launch_action : W.State → Fields → FilePath → String
  unfolding get to_str
  launch_action s task workspace =
      if text_of O.show "status" task == "handoff_needed" && path_exists W s workspace
      then "repair"
      else "execute"

  -- The worktree, the attempt's number and the prompt.
  unfoldable pub prepare : WorkPackage → String → Exec (Held W) Attempt
  unfolding launch_action ensure_worktree attempt_of required_text write_prompt on_sys in_repository
      runtime_result_path worker_result_path put package_branch package_worktree
  prepare work_package provider = do
    let branch = package_branch work_package
    let workspace = package_worktree files.project work_package
    action ← λ h. (ok (launch_action h.sys.repo h.task workspace), h)
    on_sys W (
        in_repository W (
          ensure_worktree W M.resolve files.project.repository_root files.project.integration_branch
            workspace branch action false))
    before ← read_task W (attempt_of W O files.project)
    λ h. (ok tt, record h { task = put "attempt" (num (before + 1)) h.task })
    task_id ← read_task W (required_text O.show O.parse "id")
    result_path ← λ h. (ok (worker_result_path W O files.project h.sys.repo workspace task_id), h)
    task ← read_task W (λ task. ok task)
    prompt_path ←
        on_sys W
          (write_prompt W O files.project M.installed work_package task workspace result_path)
    pure (record {
      task_id = task_id;
      number = before + 1;
      provider = provider;
      branch = branch;
      workspace = workspace;
      prompt_path = prompt_path;
      result_path = result_path;
      runtime_result_path = runtime_result_path W O files.project task_id;
      log_path =
          under files.project.runtime_directory
            ("logs/" <> task_id <> "-" <> O.show (num (before + 1)) <> "-" <> provider <> ".log");
    })

  abbrev announce : String → Attempt → WorkPackage → Exec (Held W) (Unit {0})
  announce kind attempt work_package =
      on_rt (
        append_event kind
          (field "provider" (str attempt.provider)
            (field "package_id" (str work_package.package_id) end))
          (some attempt.task_id))
      >>= λ _. pure tt

  -- `launch=False`
  unfoldable pub note_launch :
      WorkPackage → Attempt → Option AgentInstance → Exec (Held W) (Unit {0})
  unfolding move_held on_sys in_runtime set_found_state append_event
  note_launch work_package attempt agent = do
    move_held W O "ready" (assigned_payload attempt)
    on_rt (set_found_state O files.project agent "ready" (some attempt.task_id))
    announce "task_launch_planned" attempt work_package

  -- The process, in the pane if there is one.
  unfoldable pub start : ManagedCommand → Attempt → Option String → Action ManagedProcess
  unfolding launch_managed launch_tmux_managed process_path
  start command attempt none =
      launch_managed M.launcher command
        (process_path files.project.runtime_directory attempt.task_id)
  start command attempt (some pane) =
      launch_tmux_managed M.launcher command
        (process_path files.project.runtime_directory attempt.task_id)
        (under files.project.runtime_directory
          ("processes/" <> attempt.task_id <> "-" <> O.show (num attempt.number) <> ".sh"))
        pane attempt.provider

  -- The record of the process, merged with what stands there.
  unfoldable pub record_launch :
      ManagedCommand → Attempt → Option String → ManagedProcess → Action Fields
  unfolding lookup insert merge_process_launch_record launch_base process_path
  record_launch command attempt pane managed rt =
      let path = process_path files.project.runtime_directory attempt.task_id in
      let payload =
        merge_process_launch_record O.show O.parse (lookup path rt.json_files)
          (launch_base rt.clock command managed attempt.provider pane) in
      (ok payload, (write_json M.launcher path payload rt).1)

  -- `int(process_payload.get("pid") or managed.pid or 0)`
  unfoldable pub launched_pid : Fields → ManagedProcess → Result ℕ
  unfolding get truthy number_of
  launched_pid payload managed =
      number_of O.show O.parse
        (or_value (get_or "pid" null payload) (or_value (num managed.pid) (num 0)))

  unfoldable pub run_launch :
      WorkPackage → Attempt → ManagedCommand → Option AgentInstance → Exec (Held W) (Unit {0})
  unfolding move_held on_sys in_runtime set_found_state pane_map pane_for_worker start record_launch
      launched_pid append_event
  run_launch work_package attempt command agent = do
    move_held W O "assigned" (assigned_payload attempt)
    on_rt (set_found_state O files.project agent "running" (some attempt.task_id))
    pane ← on_rt (λ rt. (
      ok (
          pane_given (
            pane_for_worker M.launcher (pane_map O.show files.project.runtime_directory rt)
              (agent_id_of agent) attempt.provider)),
      rt,
    ))
    managed ← on_rt (start command attempt pane)
    payload ← on_rt (record_launch command attempt pane managed)
    pid ← gets (λ _. launched_pid payload managed)
    move_held W O "running" (field "pid" (num pid) end)
    announce "task_launched" attempt work_package

  -- The task is the one that the state holds.
  unfoldable pub launch_task :
      Bool → WorkPackage → String → ProviderAdapter → Exec (Held W) (Unit {0})
  unfolding on_sys in_runtime adapter_for_session_agent prepare launch_command agent_for_provider
      note_launch run_launch
  launch_task launch work_package provider a = do
    adapter ← on_rt (adapter_for_session_agent provider a)
    attempt ← prepare work_package provider
    command ←
        gets (λ _. launch_command adapter attempt.workspace attempt.prompt_path attempt.result_path)
    agent ← on_rt (agent_for_provider O files.project provider)
    if launch
        then run_launch work_package attempt
            (record command { cwd = attempt.workspace; log_path = attempt.log_path }) agent
        else note_launch work_package attempt agent
