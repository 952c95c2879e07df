-- ===== src/Engine.antt =====
-- engine/controller.py: the parts of a controller tick. A package's providers, the record of a
-- launched process, the actions that a failure allows, and the task states that git decides. The
-- adapters of the paused agents of the session profile are an argument.
pub mod Outside
pub mod Agents
pub mod Checkpoint
pub mod Handoff
pub mod Supervisor
pub mod Results
pub mod Completion
pub mod Judgement
pub mod Reconcile
pub mod Prompt
pub mod Launch
pub mod Integrate
pub mod Assign
pub mod Tick
use railwarden.Base.{
  ℕ, String, ◌==◌, Bool, ◌||◌, Option, none, some, List, [], ◌∷◌, ◌++◌, Result, ok, err, key_error,
  Dict, lookup, insert, contains, sorted_by, leb, ltb, if◌then◌else◌,
}
use railwarden.Config.{FilePath, WorkPackage, ProjectConfig}
use railwarden.Base.{false, not, ◌&&◌, ◌>>=◌ as ◌>>?◌}
use railwarden.World.{World, head, branch_exists, tracked_is_clean, path_exists}
use railwarden.Value.{
  Value, null, num, str, arr, obj, Fields, end, field, get, get_or, put, texts, truthy, Show,
  to_str, text_of,
}
use railwarden.Runtime.{Event, Action, pure, gets, ◌>>=◌, ◌>>◌}
use railwarden.Tasks.{load_tasks, ensure_task, transition_task, task_id_for_package}
use railwarden.Providers.Health.{is_available, number_of}
use railwarden.Decisions.{emit_decision_required}
use railwarden.Scheduler.Classifier.{PackageState, classify_packages}

abbrev pub terminal_states : List String
terminal_states = "merged" ∷ "blocked" ∷ "failed" ∷ []

abbrev pub active_states : List String
active_states = "assigned" ∷ "running" ∷ "validating" ∷ "reviewing" ∷ "integrating" ∷ []

unfoldable pub allowed_actions_for_failure : String → List String
unfolding contains
allowed_actions_for_failure failure_kind =
    if contains ("quota_exhausted" ∷ "provider_quota_exhausted" ∷ "rate_limited" ∷ []) failure_kind
    then "handoff_provider" ∷ "ask_user" ∷ []
    else if contains ("authentication" ∷ "provider_auth_required" ∷ []) failure_kind
    then "handoff_provider" ∷ "ask_user" ∷ []
    else if failure_kind == "wrapper_quoting_failure"
    then "handoff_provider" ∷ "repair_adapter" ∷ "ask_user" ∷ []
    else if failure_kind == "missing_worker_result_with_commit"
    then "normalize_result" ∷ "retry_same_provider" ∷ "handoff_provider" ∷ []
    else if failure_kind == "missing_worker_result"
    then "retry_same_provider" ∷ "handoff_provider" ∷ "ask_user" ∷ []
    else if failure_kind == "validation_command_invalid"
    then "repair_contract" ∷ "ask_user" ∷ []
    else if failure_kind == "contract_ownership_gap"
    then "repair_contract" ∷ "ask_user" ∷ []
    else if failure_kind == "merge_branch_divergence"
    then "reconcile_branch" ∷ "ask_user" ∷ []
    else "retry_same_provider" ∷ "handoff_provider" ∷ "ask_user" ∷ []

-- `[x for x in xs if test]`
unfoldable pub those_in : List String → List String → List String
unfolding contains
those_in kept [] = []
those_in kept (x ∷ xs) = let rest = those_in kept xs in if contains kept x then x ∷ rest else rest

unfoldable pub those_not_in : List String → List String → List String
unfolding contains
those_not_in dropped [] = []
those_not_in dropped (x ∷ xs) =
    let rest = those_not_in dropped xs in if contains dropped x then rest else x ∷ rest

-- `preferred + remaining`
unfoldable pub candidates : ProjectConfig → WorkPackage → List String
unfolding those_in those_not_in
candidates config work_package =
    let preferred = those_in config.worker_providers work_package.preferred_providers in
    preferred ++ those_not_in preferred config.worker_providers

unfoldable pub priority_of : ProjectConfig → String → ℕ
unfolding lookup
priority_of config name = elim (lookup name config.provider_configs) [
  | some found ↦ found.priority
  | none ↦ 999
]

abbrev pub by_priority : ProjectConfig → String → String → Bool
by_priority config a b = leb (priority_of config a) (priority_of config b)

-- The keys that a process record takes over if they are not `None`.
abbrev copied_keys : List String
copied_keys =
    "returncode" ∷ "started_at" ∷ "exited_at" ∷ "mode" ∷ "pane_id" ∷ "command" ∷ "cwd"
    ∷ "stdin_path" ∷ "log_path" ∷ "provider" ∷ []

-- `rank.get(status, -1) + 1`
unfoldable pub rank : String → ℕ
rank status =
    if status == "launching"
    then 1
    else if status == "running"
    then 2
    else if status == "exited"
    then 3
    else 0

module _ (show : Show) (parse : String → Option ℕ) where
  -- One round of the loop over the keys "pid" and "pgid".
  unfoldable pub merge_number : String → Fields → Fields → Fields
  unfolding get truthy number_of put
  merge_number key existing merged = elim (get key existing) [
    | none ↦ merged
    | some v ↦ elim (if truthy v then number_of show parse v else ok 0) [
      | err _ ↦ merged
      | ok value ↦ if ltb 0 value then put key (num value) merged else merged
    ]
  ]

  -- `str(d.get("status") or "")`
  abbrev pub status_text : Fields → String
  status_text d = let v = get_or "status" null d in if truthy v then to_str show v else ""

  -- The round for the key "status": a later state of the runner wins.
  unfoldable pub merge_status : Fields → Fields → Fields → Fields
  unfolding get truthy to_str rank put
  merge_status base existing merged = elim (get "status" existing) [
    | none ↦ merged
    | some _ ↦
        if leb (rank (status_text base)) (rank (status_text existing))
        then put "status" (str (status_text existing)) merged
        else merged
  ]

  unfoldable pub merge_copied : List String → Fields → Fields → Fields
  unfolding get put
  merge_copied [] existing merged = merged
  merge_copied (key ∷ keys) existing merged =
      merge_copied keys existing
        (elim (get key existing) [ none ↦ merged | some null ↦ merged | some v ↦ put key v merged ])

  -- `float(existing["updated_at"])` and `float(base.get("updated_at") or 0)`, and the later one;
  -- `base.get("updated_at")` if one is no number.
  unfoldable pub merge_updated_at : Fields → Fields → Fields → Fields
  unfolding get truthy number_of put
  merge_updated_at base existing merged =
      let v = get_or "updated_at" null base in
      elim (get "updated_at" existing) [
        | none ↦ merged
        | some w ↦ elim (number_of show parse w) [
          | err _ ↦ put "updated_at" v merged
          | ok theirs ↦ elim (if truthy v then number_of show parse v else ok 0) [
            | err _ ↦ put "updated_at" v merged
            | ok ours ↦ put "updated_at" (num (if ltb theirs ours then ours else theirs)) merged
          ]
        ]
      ]

  -- `none` is a file that does not exist or holds no JSON.
  unfoldable pub merge_process_launch_record : Option Value → Fields → Fields
  unfolding merge_number merge_status merge_copied merge_updated_at
  merge_process_launch_record (some (obj existing)) base = merge_updated_at base existing (
      merge_copied copied_keys existing (
        merge_status base existing
          (merge_number "pgid" existing (merge_number "pid" existing base))))
  merge_process_launch_record _ base = base

  -- The loop that keeps the available providers.
  unfoldable pub available_among : List String → Action (List String)
  unfolding is_available
  available_among [] = pure []
  available_among (name ∷ names) = do
    kept ← is_available show parse name
    rest ← available_among names
    pure (if kept then name ∷ rest else rest)

  unfoldable pub eligible_providers :
      ProjectConfig → WorkPackage → List String → List String → Action (List String)
  unfolding candidates available_among sorted_by priority_of
  eligible_providers config work_package paused_adapters excluded = do
    available ←
        available_among
          (those_not_in (excluded ++ paused_adapters) (candidates config work_package))
    pure (sorted_by (by_priority config) available)

  abbrev nullable : Option String → Value
  nullable none = null
  nullable (some t) = str t

  -- The dict that `append_event` returns.
  abbrev event_fields : Event → Fields
  event_fields event = field "ts" (num event.ts) (
      field "type" (str event.kind)
        (field "task_id" (nullable event.task_id) (field "payload" (obj event.payload) end)))

  -- `str(task[key])`
  unfoldable pub required_text : String → Fields → Result String
  unfolding get to_str
  required_text key task = elim (get key task) [
    | some v ↦ ok (to_str show v)
    | none ↦ err (key_error (key ∷ []))
  ]

  unfoldable pub require_decision : Fields → String → Fields → Action Fields
  unfolding emit_decision_required transition_task allowed_actions_for_failure required_text
  require_decision task failure_kind facts = do
    let allowed_actions = allowed_actions_for_failure failure_kind
    task_id ← gets (λ _. required_text "id" task)
    event ← emit_decision_required task_id failure_kind facts allowed_actions
    transition_task show task "decision_required" (
        field "failure_kind" (str failure_kind) (
          field "decision_event" (obj (event_fields event)) (
            field "allowed_actions" (arr (texts allowed_actions)) (field "facts" (obj facts) end))))

  -- `_task_by_id`
  unfoldable pub task_by_id : List Fields → Dict Fields
  unfolding get truthy insert text_of
  task_by_id tasks = by_id tasks []
    where
      by_id : List Fields → Dict Fields → Dict Fields
      by_id [] found = found
      by_id (task ∷ tasks) found =
          let v = get_or "id" null task in
          by_id tasks (if truthy v then insert (text_of show "id" task) task found else found)

  -- The first loop of `hydrate_task_state`: a task for every package.
  unfoldable pub ensure_tasks : Dict WorkPackage → Dict Fields → Action (Dict Fields)
  unfolding ensure_task required_text insert
  ensure_tasks [] by_id = pure by_id
  ensure_tasks ((_, work_package) ∷ packages) by_id = do
    task ← ensure_task work_package.package_id work_package.name work_package.dependencies
    id ← gets (λ _. required_text "id" task)
    ensure_tasks packages (insert id task by_id)

  -- The status that git gives a task.
  unfoldable pub settled_status : PackageState → Option String
  unfolding contains
  settled_status state =
      if state.state == "merged"
      then some "merged"
      else if contains ("execution_ready" ∷ "repair_required" ∷ []) state.state
      then some "ready"
      else none

  -- The task moves there, unless the controller or a human has it.
  unfoldable pub settle : Fields → PackageState → Action (Unit {0})
  unfolding transition_task settled_status contains get to_str
  settle task state =
      let status = to_str show (get_or "status" (str "planned") task) in
      if contains active_states status || contains terminal_states status
      then pure tt
      else elim (settled_status state) [
        | some next ↦ transition_task show task next end >>= λ _. pure tt
        | none ↦ pure tt
      ]

  abbrev settle_found : Option Fields → PackageState → Action (Unit {0})
  settle_found none state = pure tt
  settle_found (some end) state = pure tt
  settle_found (some task) state = settle task state

  -- The second loop of `hydrate_task_state`.
  unfoldable pub settle_tasks : Dict Fields → List PackageState → Action (Unit {0})
  unfolding settle lookup task_id_for_package
  settle_tasks by_id [] = pure tt
  settle_tasks by_id (state ∷ states) =
      settle_found (lookup (task_id_for_package state.package_id) by_id) state
      >> settle_tasks by_id states

  -- The repository is in the state `s`; the ledger is that of the runtime directory.
  unfoldable pub hydrate_task_state :
      (W : World) → W.State → ProjectConfig → Dict WorkPackage → Action (List Fields)
  unfolding load_tasks task_by_id ensure_tasks classify_packages settle_tasks
  hydrate_task_state W s config packages = do
    tasks ← gets load_tasks
    by_id ← ensure_tasks packages (task_by_id tasks)
    states ← gets (λ rt. classify_packages W show config [] s rt packages)
    settle_tasks by_id states
    gets load_tasks

-- `except GitError: return False`
abbrev or_no : Result Bool → Bool
or_no (ok b) = b
or_no (err _) = false

module _ (W : World) (config : ProjectConfig) where
  open W use {State}

  -- `tracked_is_clean(...) and branch_exists(...) and head(...) != head(...)`
  abbrev differs_from_base : State → FilePath → Result Bool
  differs_from_base s workspace = head W s workspace "HEAD" >>? λ tip.
      head W s config.repository_root config.integration_branch >>? λ base. ok (not (tip == base))

  unfoldable pub has_clean_task_commit : State → FilePath → String → Bool
  unfolding head branch_exists tracked_is_clean
  has_clean_task_commit s workspace branch =
      path_exists W s workspace
      && or_no (
          tracked_is_clean W s workspace >>? λ clean.
          if clean && branch_exists W s workspace branch
          then differs_from_base s workspace
          else ok false)
