-- ===== src/Engine/Integrate.antt =====
-- engine/controller.py, the part of a tick that integrates one package. The file of evidence of
-- integration/manager.py is written here, from the payload.
pub mod Merges
use railwarden.Base.{
  String, ◌<>◌, ◌==◌, Bool, true, false, Option, none, some, List, [], ◌∷◌, Result, ok, err, git,
  validation, Dict, lookup, insert, contains, sorted_by, text_le, ◌>>=◌ as ◌>>?◌,
}
use railwarden.Base.{if◌then◌else◌}
use railwarden.Base.Exec.{Exec, pure, throw, gets, modify, ◌>>=◌, ◌>>◌}
use railwarden.Text.{shorten}
use railwarden.Config.{ProjectConfig, ProjectFiles, ValidationCommand}
use railwarden.Value.{
  Value, null, str, arr, obj, Fields, end, field, get, get_or, put, texts, to_str, text_of,
}
use railwarden.World.{World, head}
use railwarden.Runtime.{Runtime, Action}
use railwarden.Tasks.{load_tasks, transition_task}
use railwarden.Workflow.{advance_workflow}
use railwarden.Validation.Package.{result_items}
use railwarden.Validation.Review.{message_of}
use railwarden.Scheduler.Classifier.{PackageState, classify_packages}
use railwarden.Integration.{
  Candidate, Planned, Merged, Payload, planned, merged_and_validated, fast_forwarded, integrate_one,
}
use railwarden.Engine.{task_by_id}
use railwarden.Engine.Outside.{Outside, Sys, in_runtime, in_repository, asks}
use railwarden.Engine.Judgement.{move}

-- The fields of the payload after its status.
abbrev planned_fields : Planned → Fields → Fields
planned_fields plan more = field "package_id" (str plan.package_id) (
    field "branch" (str plan.branch) (
      field "before_head" (str plan.before_head) (
        field "scheduled_head" (str plan.scheduled_head) (
          field "actual_head" (str plan.actual_head) (
            field "integration_branch" (str plan.integration_branch)
              (field "original_branch" (str plan.original_branch) more))))))

abbrev merged_fields : Merged → Fields → Fields
merged_fields merged more = field "status" (str "merged_and_validated") (
    planned_fields merged.planned (
      field "after_head" (str merged.after_head) (
        field "validation" (arr (result_items merged.validation))
          (field "cleanup" (arr (texts merged.cleanup)) more))))

unfoldable pub payload_fields : Payload → Fields
unfolding result_items
payload_fields (planned plan) = field "status" (str "planned") (planned_fields plan end)
payload_fields (merged_and_validated merged) = merged_fields merged end
payload_fields (fast_forwarded merged branch tip) =
    merged_fields merged
      (field "fast_forwarded_branch" (str branch) (field "fast_forwarded_head" (str tip) end))

abbrev evidence_name : Merged → String
evidence_name merged =
    "validation/" <> merged.planned.package_id <> "-" <> shorten 12 merged.after_head <> ".json"

-- The file of evidence; a plan that is not executed writes none.
unfoldable pub write_evidence : Payload → Action (Unit {0})
unfolding shorten insert payload_fields
write_evidence (planned plan) = pure tt
write_evidence (merged_and_validated merged) = modify (λ rt. record rt {
  evidence =
      insert (evidence_name merged) (obj (payload_fields (merged_and_validated merged)))
        rt.evidence;
})
write_evidence (fast_forwarded merged branch tip) = modify (λ rt. record rt {
  evidence =
      insert (evidence_name merged) (obj (payload_fields (fast_forwarded merged branch tip)))
        rt.evidence;
})

-- A package that may be merged, with its task.
pub record Ready : Type 0 where
  pub candidate : Candidate
  pub task_id : Option String

abbrev ready_le : Ready → Ready → Bool
ready_le a b = text_le a.candidate.package_id b.candidate.package_id

abbrev pub first_ready : List Ready → Option Ready
first_ready [] = none
first_ready (ready ∷ _) = some ready

abbrev integrable_states : List String
integrable_states = "review_passed" ∷ "merge_approved" ∷ "integration_ready" ∷ []

module _ (W : World) (O : Outside) (files : ProjectFiles) where
  open W use {State}

  -- `{str(task.get("package_id")): task for task in tasks}`, the status of each
  unfoldable pub status_by_package : List Fields → Dict String → Dict String
  unfolding insert text_of
  status_by_package [] found = found
  status_by_package (task ∷ tasks) found =
      status_by_package tasks
        (insert (text_of O.show "package_id" task) (text_of O.show "status" task) found)

  unfoldable pub is_integrable : Dict String → String → Bool
  unfolding lookup contains
  is_integrable statuses package_id = elim (lookup package_id statuses) [
    | none ↦ false
    | some status ↦ contains integrable_states status
  ]

  -- `state.head or head(...)`
  unfoldable pub head_of : State → PackageState → Result String
  unfolding head
  head_of s state = elim state.head [
    | none ↦ head W s files.project.repository_root state.branch
    | some tip ↦ if tip == "" then head W s files.project.repository_root state.branch else ok tip
  ]

  abbrev ready_of : PackageState → String → Ready
  ready_of state tip = record {
    candidate = record { package_id = state.package_id; branch = state.branch; head = tip };
    task_id = state.task_id;
  }

  unfoldable pub ready_among : State → Dict String → List PackageState → Result (List Ready)
  unfolding is_integrable head_of
  ready_among s statuses [] = ok []
  ready_among s statuses (state ∷ states) =
      let rest = ready_among s statuses states in
      if is_integrable statuses state.package_id
      then (head_of s state >>? λ tip. rest >>? λ more. ok (ready_of state tip ∷ more))
      else rest

  unfoldable pub integration_candidates : State → Runtime → Result (List Ready)
  unfolding load_tasks status_by_package classify_packages ready_among sorted_by
  integration_candidates s rt = load_tasks rt >>? λ tasks.
      classify_packages W O.show files.project [] s rt files.packages >>? λ states.
      ready_among s (status_by_package tasks []) states >>? λ ready. ok (sorted_by ready_le ready)

  -- `if task is not None: transition_task(...)`; the task that the name stands for afterwards.
  unfoldable pub move_found : Option Fields → String → Fields → Exec (Sys W) (Option Fields)
  unfolding in_runtime transition_task
  move_found none status payload = pure none
  move_found (some task) status payload =
      move W O files task status payload >>= λ moved. pure (some moved)

  abbrev workflow : String → Exec (Sys W) (Unit {0})
  workflow node = in_runtime W (advance_workflow node "default" end) >>= λ _. pure tt

  -- The `except` and `else` of the merge.
  unfoldable pub settle_merge : Option Fields → Result Payload → Exec (Sys W) (Option Fields)
  unfolding in_runtime write_evidence move_found advance_workflow payload_fields message_of
  settle_merge task (ok payload) = do
    in_runtime W (write_evidence payload)
    move_found task "merged" (field "integration" (obj (payload_fields payload)) end)
    workflow "INTEGRATION_VALIDATION"
    pure (some (payload_fields payload))
  settle_merge task (err (git message)) = do
    move_found task "failed" (field "reason" (str (message_of (git message))) end)
    pure none
  settle_merge task (err (validation message)) = do
    move_found task "failed" (field "reason" (str (message_of (validation message))) end)
    pure none
  settle_merge task (err e) = throw e

  unfoldable pub merge_and_settle : Candidate → Option Fields → Exec (Sys W) (Option Fields)
  unfolding in_repository integrate_one settle_merge
  merge_and_settle candidate task s =
      let (result, t) =
        in_repository W (integrate_one W files.project candidate files.validation true) s in
      settle_merge task result t

  abbrev task_of : Option String → List Fields → Option Fields
  task_of none tasks = lookup "" (task_by_id O.show O.parse tasks)
  task_of (some task_id) tasks = lookup task_id (task_by_id O.show O.parse tasks)

  unfoldable pub integrate_ready : Ready → Exec (Sys W) (Option Fields)
  unfolding load_tasks task_by_id lookup move_found in_runtime advance_workflow merge_and_settle
  integrate_ready ready = do
    tasks ← gets (λ s. load_tasks s.rt)
    task ← move_found (task_of ready.task_id tasks) "integrating" end
    workflow "DEPENDENCY_SAFE_MERGE"
    merge_and_settle ready.candidate task

  abbrev integrate_found : Option Ready → Exec (Sys W) (Option Fields)
  integrate_found none = pure none
  integrate_found (some ready) = integrate_ready ready

  -- `if integrate: ...`
  unfoldable pub integrate_first : Exec (Sys W) (Option Fields)
  unfolding integration_candidates integrate_ready
  integrate_first = do
    ready ← λ s. (integration_candidates s.repo s.rt, s)
    integrate_found (first_ready ready)
