-- ===== src/Processes.antt =====
-- processes/supervisor.py and processes/tmux_runner.py: how a worker's command is started, headless or in
-- a pane of tmux. What the operating system and tmux answer is a parameter.
use railwarden.Base.{
  ℕ, String, ◌==◌, starts_with, Bool, ◌&&◌, ◌||◌, Option, none, some, List, [], ◌∷◌, ◌++◌, ok,
  os_error, Dict, lookup, insert, contains, if◌then◌else◌,
}
use railwarden.Base.Exec.{pure, throw, modify, ◌>>=◌, ◌>>◌}
use railwarden.Config.{FilePath}
use railwarden.Value.{
  Value, null, num, str, arr, obj, Fields, end, field, get, get_or, texts, Show, to_str,
}
use railwarden.Runtime.{Runtime, Action}
use railwarden.World.{under}

pub record ManagedCommand : Type 0 where
  pub argv : List String
  pub cwd : FilePath
  pub log_path : FilePath
  pub stdin_path : Option FilePath

pub record ManagedProcess : Type 0 where
  pub pid : ℕ
  pub pgid : ℕ
  pub command : List String
  pub log_path : FilePath

-- What starts processes.
pub record Launcher : Type 0 where
  -- `subprocess.Popen`: the process id and its group; `none` is an OSError
  pub spawn : ManagedCommand → Option (ℕ × ℕ)
  -- whether tmux lists the pane
  pub pane_alive : String → Bool
  -- whether tmux takes the keys that start the script in the pane
  pub send_keys : String → FilePath → Bool

abbrev pub path_or_null : Option FilePath → Value
path_or_null none = null
path_or_null (some path) = str path

abbrev control_panes : List String
control_panes = "hermes" ∷ "controller" ∷ "observability" ∷ "status" ∷ "factory" ∷ "monitor" ∷ []

module _ (show : Show) where
  unfoldable pub panes_of : Fields → Dict String
  unfolding to_str
  panes_of end = []
  panes_of (field key value d) = (key, to_str show value) ∷ panes_of d

  abbrev panes_in : Value → Dict String
  panes_in (obj d) = panes_of d
  panes_in _ = []

  -- `pane_map`, from the file state/tmux-session.json
  abbrev pane_file : Option Value → Dict String
  pane_file (some (obj payload)) = panes_in (get_or "panes" (obj end) payload)
  pane_file _ = []

  unfoldable pub pane_map : FilePath → Runtime → Dict String
  unfolding panes_of lookup get
  pane_map runtime_dir rt =
      pane_file (lookup (under runtime_dir "state/tmux-session.json") rt.json_files)

-- The pane of the agent itself.
unfoldable pub own_pane : Option String → Dict String → List String
unfolding contains lookup
own_pane none panes = []
own_pane (some agent_id) panes =
    if agent_id == "" || contains control_panes agent_id
    then []
    else elim (lookup agent_id panes) [ none ↦ [] | some pane ↦ pane ∷ [] ]

-- The panes whose key starts with the provider's name.
unfoldable pub provider_panes : String → Dict String → List String
unfolding contains
provider_panes provider [] = []
provider_panes provider ((key, pane) ∷ panes) =
    let rest = provider_panes provider panes in
    if contains control_panes key
    then rest
    else if key == provider || starts_with key provider
    then pane ∷ rest
    else rest

module _ (L : Launcher) where
  unfoldable pub first_alive : List String → Option String
  first_alive [] = none
  first_alive (pane ∷ panes) =
      let rest = first_alive panes in if L.pane_alive pane then some pane else rest

  unfoldable pub pane_for_worker : Dict String → Option String → String → Option String
  unfolding own_pane provider_panes first_alive
  pane_for_worker panes agent_id provider =
      first_alive
        (own_pane agent_id panes ++ (if provider == "" then [] else provider_panes provider panes))

  abbrev pub write_json : FilePath → Fields → Action (Unit {0})
  write_json path payload =
      modify (λ rt. record rt { json_files = insert path (obj payload) rt.json_files })

  abbrev managed_record : ℕ → ManagedCommand → ℕ × ℕ → Fields
  managed_record now command (pid, pgid) = field "pid" (num pid) (
      field "pgid" (num pgid) (
        field "command" (arr (texts command.argv)) (
          field "cwd" (str command.cwd) (
            field "stdin_path" (path_or_null command.stdin_path) (
              field "log_path" (str command.log_path) (
                field "status" (str "running")
                  (field "started_at" (num now) (field "updated_at" (num now) end))))))))

  abbrev started : ManagedCommand → ℕ × ℕ → ManagedProcess
  started command (pid, pgid) = record {
    pid = pid;
    pgid = pgid;
    command = command.argv;
    log_path = command.log_path;
  }

  -- The rest of `launch_managed`, from what `Popen` gives.
  unfoldable pub record_process : ManagedCommand → FilePath → Option (ℕ × ℕ) → Action ManagedProcess
  unfolding insert
  record_process command pid_path none = throw (os_error ("cannot start" ∷ []))
  record_process command pid_path (some ids) = do
    now ← λ rt. (ok rt.clock, rt)
    write_json pid_path (managed_record now command ids)
    pure (started command ids)

  unfoldable pub launch_managed : ManagedCommand → FilePath → Action ManagedProcess
  unfolding record_process
  launch_managed command pid_path = record_process command pid_path (L.spawn command)

  abbrev pane_record : ℕ → ManagedCommand → String → String → Fields
  pane_record now command pane_id provider = field "pid" (num 0) (
      field "pgid" (num 0) (
        field "command" (arr (texts command.argv)) (
          field "cwd" (str command.cwd) (
            field "stdin_path" (path_or_null command.stdin_path) (
              field "log_path" (str command.log_path) (
                field "provider" (str provider) (
                  field "mode" (str "tmux") (
                    field "pane_id" (str pane_id) (
                      field "status" (str "launching")
                        (field "started_at" (num now) (field "updated_at" (num now) end)))))))))))

  -- The command goes to the pane; it runs headless where that fails. The text of the script is not
  -- modelled.
  unfoldable pub launch_tmux_managed :
      ManagedCommand → FilePath → FilePath → String → String → Action ManagedProcess
  unfolding insert launch_managed
  launch_tmux_managed command pid_path script_path pane_id provider = do
    now ← λ rt. (ok rt.clock, rt)
    write_json pid_path (pane_record now command pane_id provider)
    if L.pane_alive pane_id && L.send_keys pane_id script_path
        then pure (started command (0, 0))
        else launch_managed command pid_path
