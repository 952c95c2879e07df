-- ===== src/Engine/Assign.antt =====
-- engine/controller.py, the part of a tick that starts the ready tasks.
pub mod Slots
use railwarden.Base.{
  ℕ, zero, suc, ◌-◌, ◌+◌, String, ◌==◌, Bool, true, false, not, ◌&&◌, Option, none, some, List, [],
  ◌∷◌, ◌++◌, Result, ok, err, key_error, is_runtime_error, Dict, lookup, keys, contains,
  if◌then◌else◌,
}
use railwarden.Base.Exec.{Exec, pure, throw, gets, ◌>>=◌, ◌>>◌}
use railwarden.Config.{ProjectConfig, ProjectFiles, WorkPackage}
use railwarden.Value.{
  Value, null, str, num, obj, Fields, end, field, get, get_or, put, truthy, to_str, text_of,
}
use railwarden.World.{World}
use railwarden.Runtime.{append_event}
use railwarden.Tasks.{load_tasks, transition_task}
use railwarden.Workflow.{advance_workflow}
use railwarden.Providers.Adapters.{ProviderAdapter}
use railwarden.Validation.Review.{message_of}
use railwarden.Scheduler.Classifier.{package_branch, package_worktree}
use railwarden.Agents.Session.{AgentInstance, QuotaState}
use railwarden.Agents.Quota.{QuotaVerdict, quota_allows_start, quota_fields}
use railwarden.Engine.{active_states, required_text, those_in, those_not_in}
use railwarden.Engine.Outside.{Outside, Sys, in_runtime}
use railwarden.Engine.Agents.{agent_for_provider, providers_for, set_agent_runtime_state}
use railwarden.Engine.Handoff.{
  Failure, checkpoint_preserved_work, current_goal, create_handoff_packet, checkpoint_or,
}
use railwarden.Engine.Checkpoint.{to_dict}
use railwarden.Engine.Supervisor.{package_for_task}
use railwarden.Engine.Judgement.{move}
use railwarden.Engine.Launch.{Held, Machine, launch_task}

pub record Launched : Type 0 where
  pub task_id : String
  pub provider : String

-- The override goes first, if it is eligible.
unfoldable pub preferred_first : String → List String → List String
unfolding contains those_not_in
preferred_first override providers =
    if contains providers override
    then override ∷ those_not_in (override ∷ []) providers
    else providers

abbrev pub startable_states : List String
startable_states = "ready" ∷ "handoff_needed" ∷ "cooldown_wait" ∷ []

abbrev pub launched_by : Option Launched → List Launched → List Launched
launched_by none rest = rest
launched_by (some launched) rest = launched ∷ rest

abbrev pub slots_after : Option Launched → ℕ → ℕ
slots_after none slots = suc slots
slots_after (some _) slots = slots

module _ (W : World) (O : Outside) (files : ProjectFiles) (M : Machine)
    (adapters : Dict ProviderAdapter) (launch : Bool) where
  abbrev path_if_true : Value → Option String
  path_if_true v = if truthy v then some (to_str O.show v) else none

  abbrev text_in : String → String → Fields → String
  text_in key default task = to_str O.show (get_or key (str default) task)

  abbrev pause_failure : Fields → WorkPackage → String → String → Failure
  pause_failure task work_package provider reason = record {
    provider = provider;
    text = "";
    kind = reason;
    workspace = text_in "worktree" (package_worktree files.project work_package) task;
    branch = text_in "branch" (package_branch work_package) task;
    log_path = path_if_true (get_or "log_path" null task);
  }

  abbrev pause_event : AgentInstance → String → Fields → String → Fields
  pause_event agent provider quota packet = field "agent_id" (str agent.agent_id) (
      field "provider" (str provider) (
        field "remaining_percent" (get_or "remaining_percent" null quota)
          (field "handoff_packet" (str packet) end)))

  -- `_pause_for_quota`: the agent is paused, and the task is handed on.
  unfoldable pub pause_for_quota :
      Fields → WorkPackage → String → AgentInstance → Fields → String → Exec (Sys W) (Unit {0})
  unfolding required_text in_runtime set_agent_runtime_state checkpoint_preserved_work current_goal
      create_handoff_packet transition_task append_event get to_str truthy put to_dict
      package_branch package_worktree
  pause_for_quota task work_package provider agent quota reason = do
    task_id ← gets (λ _. required_text O.show O.parse "id" task)
    in_runtime W (set_agent_runtime_state O files.project agent "paused" (some task_id))
    let failure = pause_failure task work_package provider reason
    checkpoint ← checkpoint_preserved_work W O files.project task work_package failure.workspace
    goal ← gets (λ s. ok (current_goal W O files.project s.rt))
    packet ← create_handoff_packet W O files.project task goal work_package.objective failure none
    move W O files task "handoff_needed" (
        checkpoint_or checkpoint (
          field "reason" (str reason) (
            field "provider" (str provider) (
              field "quota" (obj quota) (
                field "agent_id" (str agent.agent_id)
                  (field "handoff_packet" (str packet) (field "failure_kind" (str reason) end)))))))
    in_runtime W (
        append_event "agent_paused_for_quota" (pause_event agent provider quota packet)
          (some task_id))
    pure tt

  abbrev read_verdict :
      AgentInstance → Result QuotaVerdict → Result (Option (AgentInstance × QuotaVerdict))
  read_verdict agent (ok verdict) = ok (some (agent, verdict))
  read_verdict agent (err e) = err e

  -- What the quota of the provider's agent says; `none` where there is no agent to ask.
  abbrev quota_verdict : Option AgentInstance → Exec (Sys W) (Option (AgentInstance × QuotaVerdict))
  quota_verdict none = pure none
  quota_verdict (some agent) =
      gets (λ s. read_verdict agent (quota_allows_start O.show O.parse agent s.rt))

  -- The `except` of the launch: the task is as the launch left it.
  unfoldable pub settle_launch :
      String → Result (Unit {0}) × Held W → Result (Option Launched) × Sys W
  unfolding move message_of in_runtime transition_task required_text advance_workflow
  settle_launch provider (ok _, h) =
      (do
        task_id ← gets (λ _. required_text O.show O.parse "id" h.task)
        in_runtime W (advance_workflow "WORK_EXECUTING" "default" end)
        pure (some (record { task_id = task_id; provider = provider })))
        h.sys
  settle_launch provider (err e, h) =
      (if is_runtime_error e
          then (move W O files h.task "blocked"
                (field "reason" (str (message_of e)) (field "provider" (str provider) end))
              >>= λ _. pure none)
          else throw e)
        h.sys

  unfoldable pub try_launch :
      Fields → WorkPackage → String → ProviderAdapter → Exec (Sys W) (Option Launched)
  unfolding launch_task settle_launch
  try_launch task work_package provider a s =
      settle_launch provider
        (launch_task W O files M launch work_package provider a (record { sys = s; task = task }))

  -- From the verdict.
  unfoldable pub start_unless_paused :
      Fields
      → WorkPackage
      → String
      → ProviderAdapter
      → Option (AgentInstance × QuotaVerdict)
      → Exec (Sys W) (Option Launched)
  unfolding pause_for_quota try_launch
  start_unless_paused task work_package provider a (some (agent, (false, quota, reason))) =
      pause_for_quota task work_package provider agent (quota_fields quota) reason >>= λ _.
      pure none
  start_unless_paused task work_package provider a _ = try_launch task work_package provider a

  abbrev adapter_of : String → Option ProviderAdapter
  adapter_of provider = lookup provider adapters

  unfoldable pub start_with :
      Fields → WorkPackage → String → Option ProviderAdapter → Exec (Sys W) (Option Launched)
  unfolding in_runtime agent_for_provider quota_allows_start start_unless_paused
  start_with task work_package provider none = throw (key_error (provider ∷ []))
  start_with task work_package provider (some a) = do
    agent ← in_runtime W (agent_for_provider O files.project provider)
    verdict ← quota_verdict agent
    start_unless_paused task work_package provider a verdict

  -- From the eligible providers that have an adapter.
  unfoldable pub start_task : Fields → WorkPackage → List String → Exec (Sys W) (Option Launched)
  unfolding in_runtime transition_task start_with lookup
  start_task task work_package [] =
      move W O files task "blocked" (field "reason" (str "no eligible provider") end) >>= λ _.
      pure none
  start_task task work_package (provider ∷ _) =
      start_with task work_package provider (adapter_of provider)

  -- `str(task.get("provider_override") or "")`
  unfoldable pub override_of : Fields → String
  unfolding get truthy to_str
  override_of task =
      let v = get_or "provider_override" null task in if truthy v then to_str O.show v else ""

  unfoldable pub assign : Fields → Option WorkPackage → Exec (Sys W) (Option Launched)
  unfolding in_runtime transition_task providers_for those_in keys preferred_first override_of
      start_task
  assign task none =
      move W O files task "failed" (field "reason" (str "package removed") end) >>= λ _. pure none
  assign task (some work_package) = do
    providers ← in_runtime W (providers_for O files.project work_package [])
    start_task task work_package
        (preferred_first (override_of task) (those_in (keys adapters) providers))

  -- One round of the loop.
  unfoldable pub consider : Fields → Exec (Sys W) (Option Launched)
  unfolding contains text_of package_for_task assign
  consider task =
      if contains startable_states (text_of O.show "status" task)
      then assign task (package_for_task W O files task)
      else pure none

  -- The loop over the tasks, while there are slots.
  unfoldable pub fill_slots : List Fields → ℕ → Exec (Sys W) (List Launched)
  unfolding consider
  fill_slots [] slots = pure []
  fill_slots (task ∷ tasks) zero = pure []
  fill_slots (task ∷ tasks) (suc slots) = do
    outcome ← consider task
    rest ← fill_slots tasks (slots_after outcome slots)
    pure (launched_by outcome rest)

  unfoldable pub running_count : List Fields → ℕ
  unfolding contains text_of
  running_count [] = 0
  running_count (task ∷ tasks) =
      (if contains active_states (text_of O.show "status" task) then 1 else 0) + running_count tasks

  -- The tasks that are loaded, and the slots that they leave.
  unfoldable pub launch_ready : Exec (Sys W) (List Launched)
  unfolding load_tasks fill_slots running_count
  launch_ready = do
    tasks ← gets (λ s. load_tasks s.rt)
    fill_slots tasks (files.project.worker_concurrency - running_count tasks)
