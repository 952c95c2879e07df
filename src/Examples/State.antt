-- ===== src/Examples/State.antt =====
-- Providers, plans, reviews, workflows and paths.
use railwarden.Base.{
  ℕ, ◌+◌, ◌≤◌, String, ◌==◌, starts_with, true, false, not, ◌&&◌, Option, none, some, List, [], ◌∷◌,
  ◌++◌, length, Result, ok, err, leb, ◌≡◌, refl, ◌≢◌, ◌↔◌, ◌⊎◌, contains, arith,
}
use railwarden.Config.{ProjectConfig, WorkPackage, new_package}
use railwarden.Value.{Fields, str, field, end, get, Show}
use railwarden.Runtime.{Runtime, empty}
use railwarden.Providers.Health.{
  ProviderState, healthy, classify_failure, load_state, save_state, record_failure, is_available,
}
use railwarden.Text.{lower}
use railwarden.Base.{true}
use railwarden.Providers.Health.Classes.{
  Flagged, contains_any, quota_patterns, classify_failure-Flagged,
}
use railwarden.Providers.Health.Cooldown.{kept, load_state-save_state, is_available-record_failure}
use railwarden.Scheduler.Classifier.{PackageState}
use railwarden.Scheduler.Classifier.Plan.{execution_plan, take, candidates_of}
use railwarden.Scheduler.Classifier.Plan.Assigned.{
  workers_of, states_of, RepairsFirst, execution_plan-Assigned,
}
use railwarden.Validation.Review.{run_package_review, reviewer_for, evidence_passed}
use railwarden.Validation.Review.Passed.{run_package_review-passed_iff}
use railwarden.Validation.Paths.{validate_owned_paths, normalize_repo_path, path_is_within}
use railwarden.Validation.Paths.Owned.{Owned, validate_owned_paths_iff}
use railwarden.Validation.Paths.Within.{parts, path_is_within-parts}
use railwarden.Workflow.{
  load_workflow, advance_workflow, checkpoint_at, load_workflow-advance_workflow,
}

abbrev show : Show
show v = "?"

abbrev parse : String → Option ℕ
parse s = none

abbrev got {ℓ} : {A : Type ℓ} → A → Result A → A
got default (ok a) = a
got default (err _) = default

abbrev limited : Result ProviderState × Runtime
limited = record_failure show parse "codex" "HTTP 429" 60 (empty 100)

is_available-record_failure_example :
    (is_available show parse "codex" (record limited.1 { clock = 170 })).0
    ≡ ok ((classify_failure "HTTP 429").1 && leb (100 + 60) 170)
unfolding record_failure
is_available-record_failure_example =
    is_available-record_failure show parse (empty 100) limited.1 "codex" "HTTP 429" 60 170
      (got (healthy "") limited.0) refl (omega arith)

load_state-save_state_example :
    load_state show parse (save_state (healthy "codex") (empty 5)) "codex"
    ≡ ok (kept (healthy "codex"))
load_state-save_state_example = load_state-save_state show parse (healthy "codex") (empty 5)

abbrev pub project : ProjectConfig
project = record {
  name = "demo";
  repository_root = "/repo";
  integration_branch = "main";
  worktree_root = "/wt";
  runtime_directory = "/run";
  worker_concurrency = 1;
  worker_providers = "codex" ∷ "composer" ∷ [];
  provider_configs = [];
  supervision_mode = "default";
  execution_preserve_partial_work_on_handoff = true;
  execution_require_plan_approval = true;
  hermes_primary_model = "gpt";
  planner_model = "gpt";
  planner_provider = "codex";
}

abbrev in_state : String → String → PackageState
in_state id state = record {
  package_id = id;
  name = id;
  state = state;
  dependencies = [];
  unmet_dependencies = [];
  branch = id;
  worktree = id;
  head = none;
  task_id = none;
  task_status = none;
  dirty = false;
}

abbrev states : List PackageState
states = in_state "a" "execution_ready" ∷ in_state "b" "repair_required" ∷ []

execution_plan-Assigned_example :
    (workers_of (execution_plan project states).worker_assignments
        ++ (execution_plan project states).available_workers
      ≡ take 1 ("codex" ∷ "composer" ∷ []))
    × (length (execution_plan project states).worker_assignments ≤ 1)
    × RepairsFirst (states_of (execution_plan project states).worker_assignments)
    × (left : List PackageState) × (states_of (execution_plan project states).worker_assignments
          ++ left
        ≡ candidates_of states)
    × ((left ≡ []) ⊎ ((execution_plan project states).available_workers ≡ []))
execution_plan-Assigned_example = execution_plan-Assigned project states

abbrev owner : WorkPackage
owner = record (new_package "b" "second" "") { owned_paths = "src" ∷ [] }

abbrev evidence : Fields
evidence = field "status" (str "passed") end

run_package_review-passed_iff_example :
    (payload : Fields) × (t : Runtime) × (run_package_review show owner end "codex" none
        ("src/a.py" ∷ [])
        evidence
        (empty 3)
      ≡ (ok payload, t))
    × ((get "status" payload ≡ some (str "passed")) ↔ (
        ((reviewer_for owner none == "codex" && true) ≡ false)
        × (not (evidence_passed evidence) ≡ false)
        × (validate_owned_paths ("src/a.py" ∷ []) ("src/a.py" ∷ []) ("src" ∷ []) [] ≡ ok tt)))
run_package_review-passed_iff_example =
    run_package_review-passed_iff show owner end "codex" none ("src/a.py" ∷ []) evidence (empty 3)

load_workflow-advance_workflow_example :
    (load_workflow show parse "t" (advance_workflow "WORK_EXECUTING" "t" end (empty 9)).1
      ≡ ok (checkpoint_at 9 "WORK_EXECUTING" "t" end))
    × ((other : String)
        → other ≢ "t"
        → load_workflow show parse other (advance_workflow "WORK_EXECUTING" "t" end (empty 9)).1
          ≡ load_workflow show parse other (empty 9))
load_workflow-advance_workflow_example =
    load_workflow-advance_workflow show parse "WORK_EXECUTING" "t" end (empty 9)

validate_owned_paths_iff_example :
    (validate_owned_paths ("src/a.py" ∷ []) ("./src/a.py" ∷ []) ("src/" ∷ []) [] ≡ ok tt) ↔ (
      (◌≢◌ {A = List String} ("src/" ∷ []) [])
      × Owned ("src/a.py" ∷ []) ("./src/a.py" ∷ []) ("src/" ∷ []) [])
validate_owned_paths_iff_example =
    validate_owned_paths_iff ("src/a.py" ∷ []) ("./src/a.py" ∷ []) ("src/" ∷ []) []

path_is_within-parts_example :
    (starts_with (normalize_repo_path "src/core/a.py") "/" ≡ false)
    × (contains (parts "src/core/a.py") ".." ≡ false)
    × ((rest : List String) × (parts "src/core/a.py" ≡ parts "src/core/" ++ rest))
unfolding path_is_within
path_is_within-parts_example = path_is_within-parts "src/core/a.py" "src/core/" refl

classify_failure-Flagged_example :
    Flagged (classify_failure "Quota exceeded: permission denied")
    × (contains_any (lower "Quota exceeded: permission denied") quota_patterns ≡ true
        → (classify_failure "Quota exceeded: permission denied").0 ≡ "quota_exhausted")
classify_failure-Flagged_example = classify_failure-Flagged "Quota exceeded: permission denied"
