-- ===== src/Config.antt =====
-- config/models.py: work packages, providers and the project's configuration. A path is its text.
use railwarden.Base.{ℕ, String, Bool, true, false, Option, none, List, [], Dict}

abbrev pub FilePath : Type 0
FilePath = String

pub record ValidationCommand : Type 0 where
  pub name : String
  pub cwd : FilePath
  pub argv : List String
  pub required : Bool
  pub generated_outputs : List FilePath

pub record WorkPackage : Type 0 where
  pub package_id : String
  pub name : String
  pub objective : String
  pub dependencies : List String
  pub owned_paths : List String
  pub forbidden_paths : List String
  pub acceptance_tests : List String
  pub acceptance_criteria : List String
  pub validation_commands : List ValidationCommand
  pub preferred_providers : List String
  pub model_profile : Option String
  pub reviewer_profile : Option String
  pub risk_level : String
  pub context_refs : List String
  pub merge_policy : String
  pub approval_required : Bool
  pub review_required : Bool
  pub branch : Option String
  pub worktree : Option FilePath
  pub status_notes : Option String

-- A package with the defaults of the dataclass.
abbrev pub new_package : String → String → String → WorkPackage
new_package package_id name objective = record {
  package_id = package_id;
  name = name;
  objective = objective;
  dependencies = [];
  owned_paths = [];
  forbidden_paths = [];
  acceptance_tests = [];
  acceptance_criteria = [];
  validation_commands = [];
  preferred_providers = [];
  model_profile = none;
  reviewer_profile = none;
  risk_level = "medium";
  context_refs = [];
  merge_policy = "auto_after_review";
  approval_required = false;
  review_required = true;
  branch = none;
  worktree = none;
  status_notes = none;
}

pub record ProviderConfig : Type 0 where
  pub name : String
  pub priority : ℕ
  pub capabilities : List String
  pub cooldown_seconds : ℕ

pub record ProjectConfig : Type 0 where
  pub name : String
  pub repository_root : FilePath
  pub integration_branch : String
  pub worktree_root : FilePath
  pub runtime_directory : FilePath
  pub worker_concurrency : ℕ
  pub worker_providers : List String
  pub provider_configs : Dict ProviderConfig
  pub supervision_mode : String
  pub execution_preserve_partial_work_on_handoff : Bool
  pub execution_require_plan_approval : Bool
  pub hermes_primary_model : String
  pub planner_model : String
  pub planner_provider : String

-- The files of a project, loaded. `validation` holds the commands of the integration branch.
pub record ProjectFiles : Type 0 where
  pub project : ProjectConfig
  pub packages : Dict WorkPackage
  pub validation : List ValidationCommand
