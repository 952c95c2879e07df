-- ===== src/Engine/Handoff.antt =====
-- runtime/handoff.py, and the handoff of a task in engine/controller.py. A task that fails keeps
-- its work in a checkpoint, and a packet tells the next provider what to do.
use Prim.Native.Char.{char}
use railwarden.Base.{
  ℕ, zero, suc, ◌-◌, String, ◌<>◌, ◌==◌, Option, none, some, List, [], ◌∷◌, length, Result, ok, err,
  git, os_error, lookup, insert, keys, sorted, if◌then◌else◌,
}
use railwarden.Base.Exec.{Exec, pure, gets, modify, ◌>>=◌, ◌>>◌}
use railwarden.Text.{splitlines, shorten, split_slash, strip}
use railwarden.Config.{FilePath, ProjectConfig, WorkPackage}
use railwarden.Value.{Value, num, str, obj, Fields, end, field, get, get_or, put, to_str, text_of}
use railwarden.Runtime.{Runtime, Action, append_event}
use railwarden.World.{World, output, path_exists, under}
use railwarden.Tasks.{transition_task}
use railwarden.Providers.Health.{number_of}
use railwarden.Validation.Review.{message_of}
use railwarden.Engine.{required_text}
use railwarden.Engine.Outside.{Outside, Sys, in_runtime, asks}
use railwarden.Engine.Agents.{set_provider_agent_ready, providers_for, first_name}
use railwarden.Engine.Checkpoint.{CheckpointResult, to_dict, text_or_null, create_checkpoint_commit}

-- The last item; the default for no items.
unfoldable pub last_text : List String → String → String
last_text [] default = default
last_text (x ∷ xs) default = last_text xs x

abbrev goal_in : String → String → String → Option String
goal_in runs name file =
    if runs == "runs" then if file == "goal.md" then some name else none else none

-- The run whose goal a path holds: the path is `[*root, "runs", run, "goal.md"]`.
unfoldable pub run_of : List String → List String → Option String
run_of [] (runs ∷ name ∷ file ∷ []) = goal_in runs name file
run_of [] _ = none
run_of (r ∷ root) [] = none
run_of (r ∷ root) (p ∷ path) = if r == p then run_of root path else none

unfoldable pub runs_with_goal : FilePath → List FilePath → List String
unfolding run_of split_slash
runs_with_goal runtime_dir [] = []
runs_with_goal runtime_dir (path ∷ paths) =
    let rest = runs_with_goal runtime_dir paths in
    elim (run_of (split_slash runtime_dir) (split_slash path)) [
      | none ↦ rest
      | some run ↦ run ∷ rest
    ]

-- `path.read_text(...) if path.exists() else ""`
unfoldable pub text_at_path : FilePath → Runtime → String
unfolding lookup
text_at_path path rt = elim (lookup path rt.text_files) [ none ↦ "" | some text ↦ text ]

abbrev goal_of_run : FilePath → Runtime → String → String
goal_of_run runtime_dir rt run =
    if run == ""
    then ""
    else strip (text_at_path (under runtime_dir ("runs/" <> run <> "/goal.md")) rt)

-- `lines[-count:]`
abbrev pub last_lines : ℕ → List String → List String
last_lines count lines = drop (length lines - count) lines
  where
    drop : ℕ → List String → List String
    drop zero xs = xs
    drop (suc n) [] = []
    drop (suc n) (x ∷ xs) = drop n xs

unfoldable pub join_lines : List String → String
join_lines [] = ""
join_lines (line ∷ []) = line
join_lines (line ∷ next ∷ more) = line <> String.◌∷◌ (char 10 tt) (join_lines (next ∷ more))

unfoldable pub tail : FilePath → Runtime → String
unfolding text_at_path splitlines join_lines
tail path rt = join_lines (last_lines 80 (splitlines (text_at_path path rt)))

abbrev next_line : Option String → String
next_line none = "No eligible provider is available; human action is required."
next_line (some provider) =
    if provider == ""
    then "No eligible provider is available; human action is required."
    else "Continue this task with " <> provider <> " from the preserved worktree."

-- What a packet says.
pub record Packet : Type 0 where
  pub task_id : String
  pub attempt : ℕ
  pub goal : String
  pub objective : String
  pub branch : String
  pub workspace : FilePath
  pub provider : String
  pub failure_kind : String
  pub log : String
  pub status : String
  pub diff_summary : String
  pub next_provider : Option String

unfoldable pub body_of : Packet → String
unfolding join_lines
body_of packet = join_lines (
    ("# Handoff: " <> packet.task_id)
    ∷ ""
    ∷ "Original goal:"
    ∷ packet.goal
    ∷ ""
    ∷ "Task objective:"
    ∷ packet.objective
    ∷ ""
    ∷ ("Branch: `" <> packet.branch <> "`")
    ∷ ("Worktree: `" <> packet.workspace <> "`")
    ∷ ("Last provider: `" <> packet.provider <> "`")
    ∷ ("Failure classification: `" <> packet.failure_kind <> "`")
    ∷ ""
    ∷ "## Recent Log"
    ∷ ""
    ∷ "```text"
    ∷ packet.log
    ∷ "```"
    ∷ ""
    ∷ "## Git Status"
    ∷ ""
    ∷ "```text"
    ∷ packet.status
    ∷ "```"
    ∷ ""
    ∷ "## Diff Summary"
    ∷ ""
    ∷ "```text"
    ∷ packet.diff_summary
    ∷ "```"
    ∷ ""
    ∷ "## Tests"
    ∷ ""
    ∷ "```text"
    ∷ "[]"
    ∷ "```"
    ∷ ""
    ∷ "## Next Instruction"
    ∷ ""
    ∷ next_line packet.next_provider
    ∷ ""
    ∷ [])

-- The failure that a handoff answers.
pub record Failure : Type 0 where
  pub provider : String
  pub text : String
  pub kind : String
  pub workspace : FilePath
  pub branch : String
  pub log_path : Option FilePath

abbrev pub checkpoint_or : Option CheckpointResult → Fields → Fields
checkpoint_or none payload = payload
checkpoint_or (some checkpoint) payload = put "checkpoint" (obj (to_dict checkpoint)) payload

abbrev pub handoff_status : Option String → String
handoff_status none = "blocked"
handoff_status (some provider) = if provider == "" then "blocked" else "handoff_needed"

module _ (W : World) (O : Outside) (config : ProjectConfig) where
  open W use {State}

  -- `_current_goal`, from the pending plan
  abbrev goal_from : Option Value → Runtime → String
  goal_from (some (obj payload)) rt = to_str O.show (get_or "goal" (str "") payload)
  goal_from _ rt =
      goal_of_run config.runtime_directory rt
        (last_text (sorted (runs_with_goal config.runtime_directory (keys rt.text_files))) "")

  unfoldable pub current_goal : Runtime → String
  unfolding get to_str last_text sorted runs_with_goal keys text_at_path strip
  current_goal rt = goal_from rt.pending_plan rt

  -- `int(task.get("attempt", 0))`
  unfoldable pub attempt_of : Fields → Result ℕ
  unfolding get number_of
  attempt_of task = number_of O.show O.parse (get_or "attempt" (num 0) task)

  -- The diff and the status of the workspace.
  unfoldable pub workspace_report : State → FilePath → Result (String × String)
  unfolding output strip
  workspace_report s workspace =
      if path_exists W s workspace
      then (elim (output W s workspace ("status" ∷ "--porcelain" ∷ [])) [
        | ok status ↦ ok (strip (W.query s workspace ("diff" ∷ "--stat" ∷ [])).stdout, status)
        | err e ↦ err e
      ])
      else ok ("", "worktree not created")

  -- An empty path is the current directory, which is no file.
  abbrev pub log_text : Option FilePath → Runtime → Result String
  log_text none rt = ok ""
  log_text (some path) rt =
      if path == "" then err (os_error ("Is a directory" ∷ [])) else ok (tail path rt)

  unfoldable pub write_packet : Packet → Action FilePath
  unfolding body_of append_event insert
  write_packet packet = do
    let path =
        under config.runtime_directory
          ("handoffs/" <> packet.task_id <> "-" <> O.show (num packet.attempt) <> ".md")
    modify (λ rt. record rt { text_files = insert path (body_of packet) rt.text_files })
    append_event "handoff_packet_created"
        (field "path" (str path) (
          field "failure_kind" (str packet.failure_kind)
            (field "next_provider" (text_or_null packet.next_provider) end)))
        (some packet.task_id)
    pure path

  unfoldable pub create_handoff_packet :
      Fields → String → String → Failure → Option String → Exec (Sys W) FilePath
  unfolding required_text attempt_of workspace_report in_runtime tail write_packet
  create_handoff_packet task goal objective failure next_provider = do
    task_id ← gets (λ _. required_text O.show O.parse "id" task)
    attempt ← gets (λ _. attempt_of task)
    report ← asks W (λ s. workspace_report s failure.workspace)
    log ← gets (λ s. log_text failure.log_path s.rt)
    in_runtime W (
        write_packet (record {
          task_id = task_id;
          attempt = attempt;
          goal = goal;
          objective = objective;
          branch = failure.branch;
          workspace = failure.workspace;
          provider = failure.provider;
          failure_kind = failure.kind;
          log = log;
          status = report.1;
          diff_summary = report.0;
          next_provider = next_provider;
        }))

  -- `except GitError`: the work stays in the worktree.
  unfoldable pub skip_git_error :
      String → FilePath → Result CheckpointResult × Sys W → Result (Option CheckpointResult) × Sys W
  unfolding in_runtime append_event
  skip_git_error task_text workspace (ok checkpoint, s) = (ok (some checkpoint), s)
  skip_git_error task_text workspace (err (git message), s) =
      (do
        in_runtime W (
            append_event "checkpoint_skipped"
              (field "reason" (str (message_of (git message)))
                (field "workspace" (str workspace) end))
              (some task_text))
        pure none)
        s
  skip_git_error task_text workspace (err e, s) = (err e, s)

  -- `_checkpoint_preserved_work`, for a workspace that exists
  unfoldable pub try_checkpoint :
      Fields → WorkPackage → FilePath → Exec (Sys W) (Option CheckpointResult)
  unfolding required_text attempt_of create_checkpoint_commit skip_git_error text_of
  try_checkpoint task work_package workspace = do
    task_id ← gets (λ _. required_text O.show O.parse "id" task)
    attempt ← gets (λ _. attempt_of task)
    λ s.
        skip_git_error (text_of O.show "id" task) workspace
          (create_checkpoint_commit W O config task_id workspace attempt work_package.owned_paths s)

  unfoldable pub checkpoint_preserved_work :
      Fields → WorkPackage → FilePath → Exec (Sys W) (Option CheckpointResult)
  unfolding try_checkpoint
  checkpoint_preserved_work task work_package workspace s =
      (if path_exists W s.repo workspace
          then try_checkpoint task work_package workspace
          else pure none)
        s

  unfoldable pub handoff_payload : Failure → FilePath → Option CheckpointResult → Fields
  unfolding put to_dict shorten
  handoff_payload failure packet checkpoint = checkpoint_or checkpoint (
      field "handoff_packet" (str packet) (
        field "last_provider" (str failure.provider) (
          field "failure_kind" (str failure.kind)
            (field "failure" (str (shorten 1000 failure.text)) end))))

  -- All of `handoff_or_block` but the transition: the packet and the next provider.
  unfoldable pub preserve : Fields → WorkPackage → Failure → Exec (Sys W) (Option String × Fields)
  unfolding in_runtime set_provider_agent_ready providers_for checkpoint_preserved_work current_goal
      create_handoff_packet handoff_payload text_of
  preserve task work_package failure = do
    in_runtime W (set_provider_agent_ready O config failure.provider (text_of O.show "id" task))
    next_providers ← in_runtime W (providers_for O config work_package (failure.provider ∷ []))
    let next_provider = first_name next_providers
    checkpoint ← checkpoint_preserved_work task work_package failure.workspace
    goal ← gets (λ s. ok (current_goal s.rt))
    packet ← create_handoff_packet task goal work_package.objective failure next_provider
    pure (next_provider, handoff_payload failure packet checkpoint)

  unfoldable pub handoff_or_block : Fields → WorkPackage → Failure → Exec (Sys W) Fields
  unfolding preserve in_runtime transition_task
  handoff_or_block task work_package failure = do
    preserved ← preserve task work_package failure
    in_runtime W (transition_task O.show task (handoff_status preserved.0) preserved.1)
