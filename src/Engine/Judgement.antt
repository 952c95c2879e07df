-- ===== src/Engine/Judgement.antt =====
-- engine/controller.py, in `reconcile_processes`: a worker has left a result. It is normalized,
-- validated and reviewed, and the task moves to what this gives.
use railwarden.Base.{
  String, ◌<>◌, Bool, Option, none, some, List, [], ◌∷◌, Result, ok, err, validation, key_error,
  type_error, if◌then◌else◌,
}
use railwarden.Base.Exec.{Exec, pure, throw, gets, ◌>>=◌, ◌>>◌}
use railwarden.Config.{FilePath, ProjectFiles, WorkPackage}
use railwarden.Value.{
  Value, null, flag, str, arr, obj, nil, Fields, end, field, get, get_or, put, to_str,
}
use railwarden.World.{World}
use railwarden.Tasks.{transition_task}
use railwarden.Workflow.{advance_workflow}
use railwarden.Providers.Health.{record_success}
use railwarden.Validation.WorkerResult.{to_texts, validate_completed_package}
use railwarden.Validation.Review.{message_of, run_package_review, requires_human_merge_approval}
use railwarden.Engine.{required_text}
use railwarden.Engine.Outside.{Outside, Sys, in_runtime, asks}
use railwarden.Engine.Agents.{set_provider_agent_ready, reviewer_provider_for}
use railwarden.Engine.Handoff.{Failure, handoff_or_block}
use railwarden.Engine.Results.{
  normalize_result, load_worker_result, file_exists, status_completed, is_completed_status,
}
use railwarden.Engine.Completion.{commit_of, validate_package}

-- An active task with its process record and its package.
pub record Job : Type 0 where
  pub task : Fields
  pub process : Fields
  pub work_package : WorkPackage
  pub provider : String
  pub branch : String
  pub workspace : FilePath
  pub result_path : FilePath
  pub runtime_path : FilePath

-- `"; ".join(texts)`
unfoldable pub joined : List String → String
joined [] = ""
joined (text ∷ []) = text
joined (text ∷ next ∷ more) = text <> "; " <> joined (next ∷ more)

-- What passes from the validation to the review.
pub record Validated : Type 0 where
  pub result : Fields
  pub commit_hash : String
  pub evidence : Fields

-- `result.get("status") == status`
abbrev pub has_status : Fields → String → Bool
has_status result status = is_completed_status (get_or "status" null result) status

abbrev pub accepted_status : WorkPackage → String
accepted_status work_package =
    if requires_human_merge_approval work_package then "merge_ready" else "review_passed"

module _ (W : World) (O : Outside) (files : ProjectFiles) where
  open W use {State}

  abbrev pub move : Fields → String → Fields → Exec (Sys W) Fields
  move task status payload = in_runtime W (transition_task O.show task status payload)

  abbrev pub workflow : String → Exec (Sys W) (Unit {0})
  workflow node = in_runtime W (advance_workflow node "default" end) >>= λ _. pure tt

  abbrev failure_of : Job → String → String → Failure
  failure_of job kind text = record {
    provider = job.provider;
    text = text;
    kind = kind;
    workspace = job.workspace;
    branch = job.branch;
    log_path = some (to_str O.show (get_or "log_path" (str "") job.process));
  }

  unfoldable pub hand_off : Job → Fields → String → String → Exec (Sys W) (Unit {0})
  unfolding handoff_or_block get to_str
  hand_off job task kind text =
      handoff_or_block W O files.project task job.work_package (failure_of job kind text) >>= λ _.
      pure tt

  -- `try: m` with `except ValidationError`, and what follows the block.
  unfoldable pub or_hand_off :
      {A : Type 0}
      → Job
      → Fields
      → (A → Exec (Sys W) (Unit {0}))
      → Result A
      → Exec (Sys W) (Unit {0})
  unfolding hand_off message_of
  or_hand_off job task next (ok a) = next a
  or_hand_off job task next (err (validation message)) =
      hand_off job task "validation_failed" (message_of (validation message))
  or_hand_off job task next (err e) = throw e

  abbrev pub try_or_hand_off :
      {A : Type 0}
      → Job
      → Fields
      → Exec (Sys W) A
      → (A → Exec (Sys W) (Unit {0}))
      → Exec (Sys W) (Unit {0})
  try_or_hand_off job task m next s = let (result, t) = m s in or_hand_off job task next result t

  unfoldable pub validate_result : Job → Fields → Exec (Sys W) Validated
  unfolding validate_completed_package commit_of validate_package
  validate_result job result = do
    checked ← asks W (λ s.
        validate_completed_package O.show W O.schema_error s job.work_package result job.workspace
          job.branch)
    commit_hash ← asks W (λ s. commit_of W O files.project s job.workspace checked)
    evidence ← validate_package W O files.project job.work_package job.workspace commit_hash
    pure (record { result = checked; commit_hash = commit_hash; evidence = evidence })

  -- `[str(item) for item in result["changed_files"]]`, for a list
  abbrev files_of : Option Value → Result (List String)
  files_of none = err (key_error ("changed_files" ∷ []))
  files_of (some (arr items)) = ok (to_texts O.show items)
  files_of (some _) = err (type_error ("object is not iterable" ∷ []))

  unfoldable pub review : Job → Fields → Validated → Exec (Sys W) Fields
  unfolding reviewer_provider_for run_package_review to_texts get in_runtime
  review job task validated = do
    reviewer ← in_runtime W (reviewer_provider_for O files.project job.work_package job.provider)
    changed_files ← gets (λ _. files_of (get "changed_files" validated.result))
    in_runtime W (
        run_package_review O.show job.work_package task job.provider (some reviewer) changed_files
          validated.evidence)

  abbrev findings_in : Value → String
  findings_in (arr items) = joined (to_texts O.show items)
  findings_in v = to_str O.show v

  unfoldable pub acceptance : Job → Fields → Fields → Fields
  unfolding get requires_human_merge_approval
  acceptance job result evidence = field "commit_hash" (get_or "commit_hash" null result) (
      field "review" (obj evidence) (
        field "merge_approval_required" (flag (requires_human_merge_approval job.work_package))
          end))

  -- The review passed.
  unfoldable pub accept : Job → Fields → Fields → Fields → Exec (Sys W) (Unit {0})
  unfolding record_success set_provider_agent_ready in_runtime transition_task acceptance
      requires_human_merge_approval required_text
  accept job task result reviewed = do
    in_runtime W (record_success O.show O.parse job.provider)
    task_id ← gets (λ _. required_text O.show O.parse "id" task)
    in_runtime W (set_provider_agent_ready O files.project job.provider task_id)
    move task (accepted_status job.work_package) (acceptance job result reviewed)
    pure tt

  -- From the review's payload.
  unfoldable pub conclude : Job → Fields → Fields → Fields → Exec (Sys W) (Unit {0})
  unfolding accept hand_off joined get to_str to_texts
  conclude job task result reviewed =
      if has_status reviewed "passed"
      then accept job task result reviewed
      else hand_off job task "review_failed" (findings_in (get_or "findings" (arr nil) reviewed))

  abbrev reviewing_payload : Validated → Fields
  reviewing_payload validated =
      field "commit_hash" (str validated.commit_hash)
        (field "package_validation" (obj validated.evidence) end)

  -- From the evidence of the validation.
  unfoldable pub start_review : Job → Fields → Validated → Exec (Sys W) (Unit {0})
  unfolding in_runtime transition_task advance_workflow review or_hand_off conclude
  start_review job task validated = do
    reviewing ← move task "reviewing" (reviewing_payload validated)
    workflow "PACKAGE_REVIEW"
    try_or_hand_off job reviewing (review job reviewing validated)
        (conclude job reviewing validated.result)

  -- The worker claims completion.
  unfoldable pub judge_completed : Job → Fields → Fields → Exec (Sys W) (Unit {0})
  unfolding validate_result start_review or_hand_off
  judge_completed job task result =
      try_or_hand_off job task (validate_result job result) (start_review job task)

  -- The worker does not: its agent is ready again.
  unfoldable pub give_up : Job → Fields → String → Fields → Exec (Sys W) (Unit {0})
  unfolding required_text set_provider_agent_ready in_runtime transition_task
  give_up job task status payload = do
    task_id ← gets (λ _. required_text O.show O.parse "id" task)
    in_runtime W (set_provider_agent_ready O files.project job.provider task_id)
    move task status payload
    pure tt

  unfoldable pub judge : Job → Fields → Fields → Exec (Sys W) (Unit {0})
  unfolding get judge_completed give_up
  judge job task result =
      if has_status result "completed"
      then judge_completed job task result
      else if has_status result "blocked"
      then give_up job task "blocked" (field "blockers" (get_or "blockers" (arr nil) result) end)
      else give_up job task "failed" (field "result" (obj result) end)

  -- The path of the result in the runtime directory.
  unfoldable pub runtime_path_of : Job → Exec (Sys W) FilePath
  unfolding file_exists normalize_result
  runtime_path_of job s =
      (if file_exists job.result_path s.rt
          then (normalize_result W O files.project job.task job.work_package >>= λ normalized.
              pure normalized.path)
          else pure job.runtime_path)
        s

  unfoldable pub reconcile_result : Job → Exec (Sys W) (Unit {0})
  unfolding runtime_path_of in_runtime transition_task advance_workflow load_worker_result judge put
      status_completed
  reconcile_result job = do
    path ← runtime_path_of job
    validating ← move (put "runtime_result_path" (str path) job.task) "validating" end
    workflow "PACKAGE_VALIDATION"
    result ← gets (λ s. load_worker_result path s.rt)
    judge job validating (status_completed result)
