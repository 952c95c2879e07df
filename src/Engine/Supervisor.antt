-- ===== src/Engine/Supervisor.antt =====
-- engine/controller.py, `_default_supervisor_decisions`: without Hermes, the controller itself
-- answers each failure that asks for a decision.
pub mod Permitted
use railwarden.Base.{
  String, ◌<>◌, ◌==◌, Bool, true, false, ◌&&◌, Option, none, some, List, [], ◌∷◌, Result, ok, err,
  type_error, not, contains, lookup, if◌then◌else◌,
}
use railwarden.Base.Exec.{Exec, pure, gets, ◌>>=◌, ◌>>◌}
use railwarden.Config.{FilePath, ProjectFiles, WorkPackage}
use railwarden.Value.{
  Value, null, str, arr, obj, Fields, end, field, get, get_or, truthy, to_str, text_of,
}
use railwarden.World.{World}
use railwarden.Tasks.{load_tasks, transition_task}
use railwarden.Decisions.{record_decision}
use railwarden.Scheduler.Classifier.{package_branch, package_worktree}
use railwarden.Validation.WorkerResult.{to_texts}
use railwarden.Validation.Freeze.{each_text}
use railwarden.Engine.Outside.{Outside, Sys, in_runtime}
use railwarden.Engine.Handoff.{Failure, handoff_or_block}
use railwarden.Engine.Results.{or_value, normalize_result}

-- The chain of conditions: what the supervisor does about a failure.
unfoldable pub choose : String → List String → String → String
unfolding contains
choose failure_kind allowed provider =
    if failure_kind == "missing_worker_result_with_commit" && contains allowed "normalize_result"
    then "normalize_result"
    else if contains allowed "handoff_provider" && not (provider == "")
    then "handoff_provider"
    else if contains allowed "retry_same_provider"
    then "retry_same_provider"
    else "ask_user"

unfoldable pub rationale_of : String → String
rationale_of chosen =
    if chosen == "normalize_result"
    then "clean committed work can be normalized by RailWarden"
    else if chosen == "handoff_provider"
    then "default supervisor handoff for recoverable failure"
    else if chosen == "retry_same_provider"
    then "default supervisor retry for permitted transient failure"
    else "no safe automatic recovery action is available"

abbrev dict_or_empty : Option Value → Fields
dict_or_empty (some (obj d)) = d
dict_or_empty _ = end

-- What the supervisor reads of a task.
pub record Observed : Type 0 where
  pub failure_kind : String
  pub allowed : List String
  pub failure : Failure

module _ (W : World) (O : Outside) (files : ProjectFiles) where
  -- `task.get(key, default)` as a text
  abbrev text_in : String → String → Fields → String
  text_in key default task = to_str O.show (get_or key (str default) task)

  -- `[str(item) for item in task.get("allowed_actions", [])]`
  abbrev pub allowed_in : Option Value → Result (List String)
  allowed_in none = ok []
  allowed_in (some value) = each_text O.show value

  abbrev path_if_true : Value → Option FilePath
  path_if_true v = if truthy v then some (to_str O.show v) else none

  unfoldable pub observe : Fields → WorkPackage → Result Observed
  unfolding get to_str each_text truthy package_branch package_worktree
  observe task work_package = elim (allowed_in (get "allowed_actions" task)) [
    | err e ↦ err e
    | ok allowed ↦ ok (record {
      failure_kind = text_in "failure_kind" "decision_required" task;
      allowed = allowed;
      failure = record {
        provider = to_str O.show (
            or_value (get_or "provider" null task)
              (or_value (get_or "last_provider" null task) (str "")));
        text = text_in "failure" "" task;
        kind = text_in "failure_kind" "decision_required" task;
        workspace = text_in "worktree" (package_worktree files.project work_package) task;
        branch = text_in "branch" (package_branch work_package) task;
        log_path = path_if_true (get_or "log_path" null task);
      };
    })
  ]

  abbrev move : Fields → String → Fields → Exec (Sys W) Fields
  move task status payload = in_runtime W (transition_task O.show task status payload)

  unfoldable pub normalize_task : Fields → WorkPackage → Exec (Sys W) Fields
  unfolding normalize_result in_runtime transition_task
  normalize_task task work_package = do
    normalized ← normalize_result W O files.project task work_package
    move task "validating" (field "runtime_result_path" (str normalized.path) end)

  -- The action that was chosen.
  unfoldable pub recover : String → Fields → WorkPackage → Failure → Exec (Sys W) Fields
  unfolding normalize_task handoff_or_block in_runtime transition_task
  recover chosen task work_package failure =
      if chosen == "normalize_result"
      then normalize_task task work_package
      else if chosen == "handoff_provider"
      then handoff_or_block W O files.project task work_package failure
      else if chosen == "retry_same_provider"
      then move task "ready" end
      else move task "blocked" (field "reason" (str "supervisor requires user input") end)

  unfoldable pub note_decision : Fields → Observed → String → Fields → Exec (Sys W) Fields
  unfolding get in_runtime record_decision rationale_of
  note_decision task observed chosen result = in_runtime W (
      record_decision (dict_or_empty (get "decision_event" task)) observed.failure_kind
        observed.allowed chosen (rationale_of chosen)
        (field "name" (str ("railwarden." <> chosen)) (field "task_id" (get_or "id" null task) end))
        result)

  -- One task that waits for a decision.
  unfoldable pub decide_task : Fields → WorkPackage → Exec (Sys W) Fields
  unfolding observe choose recover note_decision
  decide_task task work_package = do
    observed ← gets (λ _. observe task work_package)
    let chosen = choose observed.failure_kind observed.allowed observed.failure.provider
    result ← recover chosen task work_package observed.failure
    note_decision task observed chosen result

  unfoldable pub package_for_task : Fields → Option WorkPackage
  unfolding lookup get to_str
  package_for_task task = lookup (text_in "package_id" "" task) files.packages

  abbrev decide_found : Fields → Option WorkPackage → Exec (Sys W) (Unit {0})
  decide_found task none = pure tt
  decide_found task (some work_package) = decide_task task work_package >>= λ _. pure tt

  unfoldable pub decide_each : List Fields → Exec (Sys W) (Unit {0})
  unfolding package_for_task decide_task text_of
  decide_each [] = pure tt
  decide_each (task ∷ tasks) =
      (if text_of O.show "status" task == "decision_required"
        then decide_found task (package_for_task task)
        else pure tt)
      >> decide_each tasks

  unfoldable pub default_supervisor_decisions : Exec (Sys W) (Unit {0})
  unfolding load_tasks decide_each
  default_supervisor_decisions =
      if files.project.supervision_mode == "hermes"
      then pure tt
      else (gets (λ s. load_tasks s.rt) >>= decide_each)
