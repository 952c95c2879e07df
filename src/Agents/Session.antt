-- ===== src/Agents/Session.antt =====
-- runtime/session.py: the agents of a project's session. Costs and percentages are whole numbers. The
-- launch setups are an argument where the code loads them, and `parse_qsl` is a parameter.
pub mod Json
pub mod Store
pub mod Update
use Prim.Native.Char.{char}
use railwarden.Base.{
  ℕ, String, ◌<>◌, ◌==◌, Bool, true, false, not, ◌&&◌, ◌||◌, Option, none, some, List, [], ◌∷◌,
  ◌++◌, map, Result, ok, err, ◌>>=◌, Dict, lookup, contains, if◌then◌else◌,
}
use railwarden.Text.{lower, without, replace_char, single_dashes, has_text}
use railwarden.Config.{ProjectConfig}
use railwarden.Agents.ModelRefs.{parse_model_ref, provider_transport, reasoning_effort}

pub record ModelProfile : Type 0 where
  pub provider : String
  pub model : String
  pub transport : String
  pub auth_ref : Option String
  pub base_url : Option String
  pub reasoning_effort : Option String
  pub context_window : Option ℕ
  pub input_cost_per_million : Option ℕ
  pub output_cost_per_million : Option ℕ

pub record QuotaPolicy : Type 0 where
  pub warning_threshold_percent : ℕ
  pub pause_threshold_percent : ℕ
  pub hard_stop_below_pause : Bool
  pub manual_token_limit : Option ℕ

-- The defaults of the dataclass.
abbrev pub default_policy : QuotaPolicy
default_policy = record {
  warning_threshold_percent = 15;
  pause_threshold_percent = 5;
  hard_stop_below_pause = true;
  manual_token_limit = none;
}

pub record QuotaState : Type 0 where
  pub provider : String
  pub model : String
  pub used_tokens : ℕ
  pub limit_tokens : Option ℕ
  pub reset_at : Option ℕ
  pub remaining_percent : Option ℕ
  pub confidence : String
  pub updated_at : ℕ

pub record AgentInstance : Type 0 where
  pub agent_id : String
  pub role : String
  pub model_profile : ModelProfile
  pub executor_adapter : String
  pub setup_name : Option String
  pub state : String
  pub quota_policy : QuotaPolicy
  pub active_task : Option String

pub record SessionProfile : Type 0 where
  pub name : String
  pub project : String
  pub created_at : ℕ
  pub updated_at : ℕ
  pub orchestrator : AgentInstance
  pub architect : AgentInstance
  pub workers : List AgentInstance
  pub reviewer : Option AgentInstance
  pub validator : Option AgentInstance
  pub fallback_policy : String
  pub budget_label : String

abbrev pub optional : Option AgentInstance → List AgentInstance
optional none = []
optional (some agent) = agent ∷ []

-- The property `agents`.
abbrev pub agents : SessionProfile → List AgentInstance
agents profile =
    profile.orchestrator
    ∷ profile.architect
    ∷ (profile.workers ++ (optional profile.reviewer ++ optional profile.validator))

-- The property `model_ref`.
abbrev suffixed : String → String → Option String → String
suffixed value mark none = value
suffixed value mark (some text) = if text == "" then value else value <> mark <> text

unfoldable pub model_ref : ModelProfile → String
model_ref profile =
    suffixed (suffixed (profile.provider <> ":" <> profile.model) "@" profile.base_url)
      "?reasoning=" profile.reasoning_effort

abbrev default_auth_refs : Dict String
default_auth_refs =
    ("openai", "env:OPENAI_API_KEY")
    ∷ ("anthropic", "env:ANTHROPIC_API_KEY")
    ∷ ("gemini", "env:GEMINI_API_KEY")
    ∷ ("azure-foundry", "env:AZURE_FOUNDRY_API_KEY")
    ∷ ("openai-compatible", "env:OPENAI_API_KEY")
    ∷ []

unfoldable pub default_auth_ref : String → Option String
unfolding lookup
default_auth_ref provider = lookup provider default_auth_refs

-- `first or second` on texts that may be `None`
abbrev pub or_text : Option String → Option String → Option String
or_text none second = second
or_text (some first) second = if first == "" then second else some first

abbrev default_models : Dict String
default_models =
    ("codex", "gpt-5.5?reasoning=high")
    ∷ ("antigravity", "gemini-3.5-flash-low")
    ∷ ("composer", "grok-composer-2.5-fast")
    ∷ ("openai", "gpt-5.2")
    ∷ ("anthropic", "claude-opus-4.6")
    ∷ ("gemini", "gemini-3-pro")
    ∷ ("ollama", "qwen3-coder@http://localhost:11434")
    ∷ []

unfoldable pub default_provider_model : String → String
unfolding lookup
default_provider_model provider = elim (lookup provider default_models) [
  | some model ↦ model
  | none ↦ "gpt-5.2"
]

-- `role in {"orchestrator", "reviewer"}`
abbrev leads : Option String → Bool
leads none = false
leads (some role) = contains ("orchestrator" ∷ "reviewer" ∷ []) role

unfoldable pub legacy_model_ref : String → String → Option String → String
unfolding has_text contains lower without replace_char single_dashes
legacy_model_ref model provider role =
    if has_text ":" model
    then model
    else if provider == "codex" && leads role
    then "codex:gpt-5.5?reasoning=high"
    else (if contains ("codex" ∷ "antigravity" ∷ "composer" ∷ []) provider
        then provider
        else "openai")
      <> ":"
      <> single_dashes (replace_char 32 (char 45 tt) (without 41 (without 40 (lower model))))

-- launch_setups.py, without the file that holds the setups
pub record LaunchSetup : Type 0 where
  pub provider : String
  pub model : String
  pub reasoning_effort : Option String
  pub base_url : Option String
  pub auth_env_var : Option String

abbrev env_reference : Option String → Option String
env_reference none = none
env_reference (some name) = if name == "" then none else some ("env:" <> name)

-- The rest of `_merge_launch_setup_profile`, from the setup that was found.
unfoldable pub merge_launch_setup_profile : ModelProfile → Option LaunchSetup → ModelProfile
unfolding has_text provider_transport
merge_launch_setup_profile profile none = profile
merge_launch_setup_profile profile (some setup) =
    let provider = if setup.provider == "" then profile.provider else setup.provider in
    record profile {
      provider = provider;
      model = if setup.model == "" || has_text "@" setup.model then profile.model else setup.model;
      transport = provider_transport provider;
      auth_ref = or_text profile.auth_ref (env_reference setup.auth_env_var);
      base_url = or_text profile.base_url setup.base_url;
      reasoning_effort = or_text setup.reasoning_effort profile.reasoning_effort;
    }

module _ (parse_qsl : String → List (String × String)) where
  unfoldable pub model_profile_from_ref : String → Option String → Result ModelProfile
  unfolding parse_model_ref provider_transport default_auth_ref reasoning_effort
  model_profile_from_ref ref auth_ref = do
    parsed ← parse_model_ref parse_qsl ref
    ok (record {
      provider = parsed.provider;
      model = parsed.model;
      transport = provider_transport parsed.provider;
      auth_ref = or_text auth_ref (default_auth_ref parsed.provider);
      base_url = parsed.base_url;
      reasoning_effort = reasoning_effort parsed;
      context_window = none;
      input_cost_per_million = none;
      output_cost_per_million = none;
    })

  abbrev fresh_agent : String → String → ModelProfile → String → AgentInstance
  fresh_agent agent_id role profile adapter = record {
    agent_id = agent_id;
    role = role;
    model_profile = profile;
    executor_adapter = adapter;
    setup_name = none;
    state = "ready";
    quota_policy = default_policy;
    active_task = none;
  }

  -- The workers of `default_session_profile`.
  unfoldable pub default_workers : List String → Result (List AgentInstance)
  unfolding model_profile_from_ref legacy_model_ref default_provider_model
  default_workers [] = ok []
  default_workers (provider ∷ providers) = do
    profile ←
        model_profile_from_ref (legacy_model_ref (default_provider_model provider) provider none)
          none
    more ← default_workers providers
    ok (fresh_agent (provider <> "-1") "coder" profile provider ∷ more)

  unfoldable pub default_session_profile : ℕ → ProjectConfig → String → Result SessionProfile
  unfolding model_profile_from_ref legacy_model_ref default_workers
  default_session_profile now config name = do
    let orchestrator_ref =
        legacy_model_ref config.hermes_primary_model "codex" (some "orchestrator")
    let architect_ref =
        legacy_model_ref config.planner_model config.planner_provider (some "architect")
    workers ← default_workers config.worker_providers
    orchestrator ← model_profile_from_ref orchestrator_ref none
    architect ← model_profile_from_ref architect_ref none
    ok (record {
      name = name;
      project = config.name;
      created_at = now;
      updated_at = now;
      orchestrator = fresh_agent "hermes" "orchestrator" orchestrator "hermes";
      architect = fresh_agent "architect" "architect" architect config.planner_provider;
      workers = workers;
      reviewer = some (fresh_agent "reviewer" "reviewer" orchestrator "pydanticai");
      validator = none;
      fallback_policy = "prompt-before-swap";
      budget_label = "default";
    })

  -- `if setup_name: ...`
  abbrev with_setup : Dict LaunchSetup → Option String → ModelProfile → ModelProfile
  with_setup setups none profile = profile
  with_setup setups (some name) profile =
      if name == "" then profile else merge_launch_setup_profile profile (lookup name setups)

  unfoldable pub reset_agent_for_launch :
      Dict LaunchSetup
      → AgentInstance
      → String
      → Option String
      → Option String
      → Result AgentInstance
  unfolding model_profile_from_ref merge_launch_setup_profile lookup
  reset_agent_for_launch setups agent ref auth_ref setup_name = do
    profile ← model_profile_from_ref ref auth_ref
    ok (record agent {
      model_profile = with_setup setups setup_name profile;
      setup_name = setup_name;
      state = "ready";
      active_task = none;
    })

-- `agent if item.agent_id == agent.agent_id else item`
abbrev pub swapped : AgentInstance → AgentInstance → AgentInstance
swapped agent item = if item.agent_id == agent.agent_id then agent else item

abbrev pub swapped_optional : AgentInstance → Option AgentInstance → Option AgentInstance
swapped_optional agent none = none
swapped_optional agent (some item) = some (swapped agent item)

unfoldable pub update_agent : ℕ → SessionProfile → AgentInstance → SessionProfile
update_agent now profile agent = record profile {
  updated_at = now;
  orchestrator = swapped agent profile.orchestrator;
  architect = swapped agent profile.architect;
  workers = map (swapped agent) profile.workers;
  reviewer = swapped_optional agent profile.reviewer;
  validator = swapped_optional agent profile.validator;
}
