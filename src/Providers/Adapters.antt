-- ===== src/Providers/Adapters.antt =====
-- providers/adapters.py: the command line of each provider, and its health check. What the operating
-- system answers is a parameter.
use railwarden.Base.{
  ℕ, String, ◌<>◌, ◌==◌, Option, none, some, List, [], ◌∷◌, ◌++◌, Result, ok, err, runtime_error,
  Dict, nat_eq, if◌then◌else◌,
}
use railwarden.Text.{parent, stem}
use railwarden.Config.{FilePath}
use railwarden.Value.{num, str, Fields, end, field}
use railwarden.World.{under}
use railwarden.Processes.{ManagedCommand}

pub record ProviderAdapter : Type 0 where
  pub name : String
  pub executable : String
  pub model : String
  pub reasoning_effort : Option String

-- `subprocess.run([path, "--help"], timeout=10)`
pub data HelpResult : Type 0 where
  exited : ℕ → HelpResult
  timed_out : HelpResult
  failed : String → HelpResult

abbrev pub adapter : String → String → String → Option String → ProviderAdapter
adapter name executable model reasoning_effort = record {
  name = name;
  executable = executable;
  model = model;
  reasoning_effort = reasoning_effort;
}

unfoldable pub default_adapters : Dict ProviderAdapter
default_adapters =
    ("codex", adapter "codex" "codex" "gpt-5.5" (some "high"))
    ∷ ("antigravity", adapter "antigravity" "agy" "Gemini 3.1 Pro (High)" none)
    ∷ ("composer", adapter "composer" "grok" "grok-composer-2.5-fast" none)
    ∷ []

abbrev effort_arguments : Option String → List String
effort_arguments none = []
effort_arguments (some effort) = "--config" ∷ ("model_reasoning_effort=\"" <> effort <> "\"") ∷ []

abbrev command_of : List String → FilePath → Option FilePath → FilePath → ManagedCommand
command_of argv workspace stdin_path log_path = record {
  argv = argv;
  cwd = workspace;
  log_path = log_path;
  stdin_path = stdin_path;
}

abbrev log_beside : FilePath → String → FilePath
log_beside result_path name =
    under (parent (parent result_path)) ("logs/" <> stem result_path <> "-" <> name <> ".log")

unfoldable pub launch_command :
    ProviderAdapter → FilePath → FilePath → FilePath → Result ManagedCommand
unfolding parent stem
launch_command a workspace prompt_path result_path =
    if a.name == "codex"
    then ok (
        command_of
          (a.executable
            ∷ "exec"
            ∷ "--sandbox"
            ∷ "danger-full-access"
            ∷ "--cd"
            ∷ workspace
            ∷ "--model"
            ∷ a.model
            ∷ (effort_arguments a.reasoning_effort
                ++ ("--output-last-message" ∷ result_path ∷ prompt_path ∷ [])))
          workspace none (log_beside result_path "codex"))
    else if a.name == "antigravity"
    then ok (
        command_of (a.executable ∷ "--model" ∷ a.model ∷ "--add-dir" ∷ workspace ∷ "--print" ∷ [])
          workspace (some prompt_path) (log_beside result_path "antigravity"))
    else if a.name == "composer"
    then ok (
        command_of
          (a.executable ∷ "--cwd" ∷ workspace ∷ "--model" ∷ a.model ∷ "--output-format" ∷ "json"
            ∷ "--prompt-file" ∷ prompt_path ∷ [])
          workspace none (log_beside result_path "composer"))
    else err (runtime_error ("Unsupported provider: " ∷ a.name ∷ []))

module _ (which : String → Option FilePath) (help : FilePath → HelpResult) where
  abbrev answer : ProviderAdapter → String → FilePath → Fields → Fields
  answer a status path more = field "name" (str a.name) (
      field "status" (str status)
        (field "executable" (str path) (field "model" (str a.model) more)))

  abbrev checked : ProviderAdapter → FilePath → HelpResult → Fields
  checked a path (exited code) =
      answer a (if nat_eq code 0 then "healthy" else "degraded") path
        (field "help_returncode" (num code) end)
  checked a path timed_out =
      answer a "degraded" path (field "reason" (str (a.executable <> " --help timed out")) end)
  checked a path (failed message) =
      answer a "unavailable" path
        (field "reason" (str (a.executable <> " could not be executed: " <> message)) end)

  unfoldable pub health_check : ProviderAdapter → Fields
  health_check a = elim (which a.executable) [
    | none ↦ field "name" (str a.name) (
        field "status" (str "unavailable")
          (field "reason" (str (a.executable <> " not found")) end))
    | some path ↦ checked a path (help path)
  ]

  -- The health checks that a controller tick makes.
  unfoldable pub health_checks : Dict ProviderAdapter → Dict Fields
  unfolding health_check
  health_checks [] = []
  health_checks ((name, a) ∷ adapters) = (name, health_check a) ∷ health_checks adapters
